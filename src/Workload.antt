-- ===== src/Workload.antt =====
-- osbenchmark/workload/workload.py: the elements of a schedule.
use solr_benchmark.Prelude.{ℕ, ◌+◌, String, Bool, Option, none, some, List, [], ◌∷◌}

-- Operation: equality in the source is equality of names.
pub record Operation : Type 0 where
  pub name : String
  pub op_type : String

-- Task. `params` is modelled where its entries are read. Periods are whole seconds.
pub record Task : Type 0 where
  pub name : String
  pub operation : Operation
  pub tags : List String
  pub warmup_iterations : Option ℕ
  pub iterations : Option ℕ
  pub warmup_time_period : Option ℕ
  pub time_period : Option ℕ
  pub ramp_up_time_period : Option ℕ
  pub ramp_down_time_period : Option ℕ
  pub clients : ℕ
  pub completes_parent : Bool
  pub schedule : Option String

-- An element of a schedule: a task, or a `Parallel` structure with its optional `clients`.
pub data Element : Type 0 where
  single : Task → Element
  parallel : List Task → Option ℕ → Element

-- The tasks that iteration over an element yields: `Task.__iter__` and `Parallel.__iter__`.
unfoldable pub sub_tasks : Element → List Task
sub_tasks (single task) = task ∷ []
sub_tasks (parallel tasks clients) = tasks

-- The loop `num_clients += task.clients` of `Parallel.clients`.
unfoldable pub total_clients_of : List Task → ℕ
total_clients_of [] = 0
total_clients_of (task ∷ tasks) = task.clients + total_clients_of tasks

-- The attribute `clients` of a task and the property `clients` of `Parallel`.
unfoldable pub clients_of : Element → ℕ
unfolding total_clients_of
clients_of (single task) = task.clients
clients_of (parallel tasks (some clients)) = clients
clients_of (parallel tasks none) = total_clients_of tasks
