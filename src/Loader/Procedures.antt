-- ===== src/Loader/Procedures.antt =====
-- osbenchmark/workload/loader.py: `parse_parallel`, and the schedule of a test procedure with the
-- names of its tasks.
use Prim.Native.String.{◌++◌}
use text.Mathlib.Text.{◌==◌ as str_eq}
use solr_benchmark.Prelude.{
  ℕ, zero, suc, ◌/◌, ◌%◌, String, Bool, true, false, not, ◌&&◌, ◌||◌, Option, none, some, List, [],
  ◌∷◌, ◌==◌, ltb, if◌then◌else◌, get_or,
}
use solr_benchmark.Result.{Result, ok, raise, ◌>>=◌, ◌>>◌, raise_if, workload_syntax_error}
use solr_benchmark.Workload.{Task, Element, single, parallel, sub_tasks}
use solr_benchmark.Loader.{TaskSpec, Defaults, no_defaults, mandatory, Operations, parse_task}

pub record ParallelSpec : Type 0 where
  pub tasks : Option (List TaskSpec)
  pub clients : Option ℕ
  pub defaults : Defaults

-- The tasks of a `parallel` element, each with the defaults.
unfoldable pub parse_tasks : List TaskSpec → Operations → Defaults → Result (List Task)
unfolding parse_task
parse_tasks [] ops defaults = ok []
parse_tasks (spec ∷ specs) ops defaults = do
  task ← parse_task spec ops defaults
  tasks ← parse_tasks specs ops defaults
  ok (task ∷ tasks)

-- `!=` of two values that may be `None`.
abbrev pub differs : Option ℕ → Option ℕ → Bool
differs none none = false
differs none (some n) = true
differs (some m) none = true
differs (some m) (some n) = not (m == n)

-- A task's own ramps are those of the element.
unfoldable pub check_ramps : List Task → Defaults → Result (Unit {0})
check_ramps [] defaults = ok tt
check_ramps (task ∷ tasks) defaults =
    raise_if
      (differs task.ramp_up_time_period defaults.ramp_up_time_period
        || differs task.ramp_down_time_period defaults.ramp_down_time_period)
      workload_syntax_error
    >> check_ramps tasks defaults

-- The loop over the tasks: whether there is a completing task, or that there are two.
unfoldable pub find_completing : Bool → List Task → Result Bool
find_completing found [] = ok found
find_completing found (task ∷ tasks) =
    let further = find_completing found tasks in
    let with_task = find_completing true tasks in
    if task.completes_parent && not found
    then with_task
    else if task.completes_parent
    then raise workload_syntax_error
    else further

-- `if completed_by:` for a name that is not empty.
abbrev pub check_completed_by : Option String → List Task → Result (Unit {0})
check_completed_by none tasks = ok tt
check_completed_by (some name) tasks =
    if str_eq name ""
    then ok tt
    else find_completing false tasks >>= (λ found. raise_if (not found) workload_syntax_error)

unfoldable pub parse_parallel : ParallelSpec → Operations → Result Element
unfolding parse_tasks check_ramps find_completing
parse_parallel spec ops = do
  specs ← mandatory spec.tasks
  tasks ← parse_tasks specs ops spec.defaults
  (check_ramps tasks spec.defaults
      >> (check_completed_by spec.defaults.completed_by_name tasks
          >> ok (parallel tasks spec.clients)))

-- An element of a schedule: a task, a task for each of a list of numbers of clients, or `parallel`.
pub data ElementSpec : Type 0 where
  task_spec : TaskSpec → ElementSpec
  clients_list : List ℕ → TaskSpec → ElementSpec
  parallel_spec : ParallelSpec → ElementSpec

abbrev pub digit : ℕ → String
digit n = get_or ("0" ∷ "1" ∷ "2" ∷ "3" ∷ "4" ∷ "5" ∷ "6" ∷ "7" ∷ "8" ∷ "9" ∷ []) n "9"

-- `str` of a number; the fuel is enough when the number is below it.
abbrev pub digits_of : ℕ → ℕ → String → String
digits_of zero n out = out
digits_of (suc fuel) n out =
    let more = digits_of fuel (n / 10) (digit (n % 10) ++ out) in
    if ltb n 10 then digit n ++ out else more

-- `name + "_" + str(num_clients) + "_clients"`
abbrev pub clients_name : String → ℕ → String
clients_name name num_clients = name ++ ("_" ++ digits_of (suc num_clients) num_clients "_clients")

-- The task for a number of clients; it is named once it has been parsed.
unfoldable pub parse_clients_list : List ℕ → TaskSpec → Operations → String → Result (List Element)
unfolding parse_task
parse_clients_list [] spec ops name = ok []
parse_clients_list (num_clients ∷ numbers) spec ops name = do
  task ← parse_task (record spec { clients = some num_clients }) ops no_defaults
  elements ← parse_clients_list numbers spec ops name
  ok (single (record task { name = clients_name name num_clients }) ∷ elements)

abbrev pub as_single : Result Task → Result (List Element)
as_single (raise failure) = raise failure
as_single (ok task) = ok (single task ∷ [])

abbrev pub as_element : Result Element → Result (List Element)
as_element (raise failure) = raise failure
as_element (ok element) = ok (element ∷ [])

unfoldable pub parse_element : ElementSpec → Operations → String → Result (List Element)
unfolding parse_clients_list parse_parallel
parse_element (task_spec spec) ops name = as_single (parse_task spec ops no_defaults)
parse_element (clients_list numbers spec) ops name = parse_clients_list numbers spec ops name
parse_element (parallel_spec spec) ops name = as_element (parse_parallel spec ops)

-- Two lists of elements of a schedule, the second behind the first, as `schedule.append` makes them.
abbrev pub joined : List Element → List Element → List Element
joined [] later = later
joined (element ∷ elements) later = element ∷ joined elements later

unfoldable pub parse_schedule : List ElementSpec → Operations → String → Result (List Element)
unfolding parse_element
parse_schedule [] ops name = ok []
parse_schedule (spec ∷ specs) ops name = do
  elements ← parse_element spec ops name
  later ← parse_schedule specs ops name
  ok (joined elements later)

-- name in names
pub is_known : String → List String → Bool
is_known name [] = false
is_known name (other ∷ names) = if str_eq name other then true else is_known name names

-- known_task_names: a name that is known is refused.
unfoldable pub add_names : List Task → List String → Result (List String)
unfolding is_known
add_names [] names = ok names
add_names (task ∷ tasks) names =
    raise_if (is_known task.name names) workload_syntax_error >> add_names tasks (task.name ∷ names)

unfoldable pub check_names : List Element → List String → Result (List String)
unfolding add_names
check_names [] names = ok names
check_names (element ∷ elements) names =
    add_names (sub_tasks element) names >>= check_names elements
