-- ===== src/Allocator.antt =====
-- osbenchmark/worker_coordinator/worker_coordinator.py: `JoinPoint`, `TaskAllocation`, `Allocator`.
pub mod Rows
pub mod Layout
pub mod Plan
pub mod Coverage
pub mod Home
mod Tests
use solr_benchmark.Prelude.{
  ℕ, zero, suc, ◌+◌, ◌-◌, ◌%◌, max, Bool, true, false, List, [], ◌∷◌, ◌++◌, map, ltb, length,
  replicate, if◌then◌else◌,
}
use solr_benchmark.Workload.{Task, Element, sub_tasks, clients_of}

pub record JoinPoint : Type 0 where
  pub id : ℕ
  pub clients_executing_completing_task : List ℕ

-- `preceding_task_completes_parent`
abbrev pub preceding_task_completes_parent : JoinPoint → Bool
preceding_task_completes_parent j = ltb 0 (length j.clients_executing_completing_task)

pub record TaskAllocation : Type 0 where
  pub task : Task
  pub client_index_in_task : ℕ
  pub global_client_index : ℕ
  pub total_clients : ℕ

-- An entry of the allocation matrix; `idle` is the `None` that keeps the matrix rectangular.
pub data Entry : Type 0 where
  work : TaskAllocation → Entry
  join : JoinPoint → Entry
  idle : Entry

abbrev pub is_join : Entry → Bool
is_join (join j) = true
is_join _ = false

abbrev pub Matrix : Type 0
Matrix = List (List Entry)

-- allocations[i].append(e)
pub append_at : ℕ → Entry → Matrix → Matrix
append_at i e [] = []
append_at zero e (row ∷ rows) = (row ++ e ∷ []) ∷ rows
append_at (suc i) e (row ∷ rows) = row ∷ append_at i e rows

-- The loop that appends one join point to every client.
pub append_all : Entry → Matrix → Matrix
append_all e rows = map (λ row. row ++ e ∷ []) rows

-- What the loops over the sub-tasks of one element change.
pub record Placement : Type 0 where
  pub rows : Matrix
  pub completing : List ℕ

module _ (max_clients total_clients : ℕ) where
  -- The body of the innermost loop, for one client of `sub_task`.
  pub place_client : Task → ℕ → ℕ → Placement → Placement
  place_client sub_task start index p = record {
    rows =
        append_at (index % max_clients)
          (work (record {
            task = sub_task;
            client_index_in_task = index - start;
            global_client_index = index;
            total_clients = total_clients;
          }))
          p.rows;
    completing =
        if sub_task.completes_parent
        then p.completing ++ (index % max_clients) ∷ []
        else p.completing;
  }

  -- for client_index in range(index, index + n)
  pub place_clients : Task → ℕ → ℕ → ℕ → Placement → Placement
  place_clients sub_task start zero index p = p
  place_clients sub_task start (suc n) index p =
      place_clients sub_task start n (index + 1) (place_client sub_task start index p)

  -- for sub_task in task
  pub place_sub_tasks : List Task → ℕ → Placement → Placement
  place_sub_tasks [] start p = p
  place_sub_tasks (sub_task ∷ tasks) start p =
      place_sub_tasks tasks (start + sub_task.clients)
        (place_clients sub_task start sub_task.clients start p)

-- for client_index in range(i, i + n): allocations[client_index].append(None)
pub append_idle : ℕ → ℕ → Matrix → Matrix
append_idle i zero rows = rows
append_idle i (suc n) rows = append_idle (i + 1) n (append_at i idle rows)

-- `start_client_index` after the loop over the sub-tasks.
pub end_index : List Task → ℕ → ℕ
end_index [] start = start
end_index (sub_task ∷ tasks) start = end_index tasks (start + sub_task.clients)

-- Fill the clients that the last round of an uneven distribution left out.
pub pad : ℕ → ℕ → Matrix → Matrix
pad max_clients used rows =
    if ltb 0 (used % max_clients)
    then append_idle (used % max_clients) (max_clients - used % max_clients) rows
    else rows

-- The body of the loop over the schedule.
pub place_element : ℕ → Element → ℕ → Matrix → Matrix
place_element max_clients element join_point_id rows =
    let p =
      place_sub_tasks max_clients (clients_of element) (sub_tasks element) 0
        (record { rows = rows; completing = [] }) in
    append_all
      (join (record { id = join_point_id; clients_executing_completing_task = p.completing }))
      (pad max_clients (end_index (sub_tasks element) 0) p.rows)

pub place_schedule : ℕ → List Element → ℕ → Matrix → Matrix
place_schedule max_clients [] join_point_id rows = rows
place_schedule max_clients (element ∷ schedule) join_point_id rows =
    place_schedule max_clients schedule (join_point_id + 1)
      (place_element max_clients element join_point_id rows)

-- The loop of the property `clients`, which starts with 1.
pub max_clients_of : List Element → ℕ → ℕ
max_clients_of [] m = m
max_clients_of (element ∷ schedule) m = max_clients_of schedule (max m (clients_of element))

pub clients : List Element → ℕ
clients schedule = max_clients_of schedule 1

pub allocations : List Element → Matrix
allocations schedule = place_schedule (clients schedule) schedule 1 (
    append_all (join (record { id = 0; clients_executing_completing_task = [] }))
      (replicate (clients schedule) []))
