-- ===== src/Worker.antt =====
-- osbenchmark/worker_coordinator/worker_coordinator.py: `ClientAllocations` and the message handlers
-- of `Worker`. What a handler sends, submits or asks to be woken for is an effect. The thread that
-- runs the tasks is a future whose outcome is an argument of the handler that submits it.
pub mod Columns
pub mod Trip
pub mod Arrival
pub mod Stall
mod Tests
use solr_benchmark.Prelude.{
  ℕ, zero, suc, ◌+◌, Bool, true, false, not, ◌&&◌, Option, none, some, List, [], ◌∷◌, ◌++◌,
  if◌then◌else◌, length, get_elem?, all,
}
use solr_benchmark.Result.{Failure, Result, ok, raise, index_error, does_not_end, ◌>>=◌}
use solr_benchmark.Allocator.{Entry, idle, is_join}
use solr_benchmark.Coordinator.{Sample}

-- An element of `ClientAllocations.allocations`: a client and its row of the matrix.
pub record ClientTasks : Type 0 where
  pub client_id : ℕ
  pub tasks : List Entry

pub record ClientAllocation : Type 0 where
  pub client_id : ℕ
  pub task : Entry

abbrev pub is_idle : Entry → Bool
is_idle idle = true
is_idle _ = false

abbrev pub add : ℕ → List Entry → List ClientTasks → List ClientTasks
add client_id tasks allocations =
    allocations ++ record { client_id = client_id; tasks = tasks } ∷ []

-- One allocation, with the entry of its row at the index, and the result for those behind it.
abbrev pub keep_task :
    Bool
    → ClientTasks
    → Option Entry
    → Result (List ClientAllocation)
    → Result (List ClientAllocation)
keep_task remove_empty a none others = raise index_error
keep_task remove_empty a (some entry) others = do
  current_tasks ← others
  ok (
      if remove_empty && not (is_idle entry)
      then record { client_id = a.client_id; task = entry } ∷ current_tasks
      else current_tasks)

-- `ClientAllocations.tasks`
pub tasks : List ClientTasks → ℕ → Bool → Result (List ClientAllocation)
tasks [] task_index remove_empty = ok []
tasks (a ∷ allocations) task_index remove_empty =
    keep_task remove_empty a (get_elem? a.tasks task_index)
      (tasks allocations task_index remove_empty)

pub is_joinpoint : List ClientTasks → ℕ → Result Bool
unfolding tasks
is_joinpoint allocations task_index = do
  current ← tasks allocations task_index true
  ok (all (λ t. is_join t.task) current)

-- A submitted executor: whether it has ended, and the exception it ends with, if any.
pub record Future : Type 0 where
  pub is_done : Bool
  pub outcome : Option Failure

pub data WorkerEffect : Type 0 where
  send_update_samples : List Sample → List Sample → WorkerEffect
  send_join_point_reached : List ClientAllocation → WorkerEffect
  send_benchmark_cancelled : WorkerEffect
  send_benchmark_failure : Failure → WorkerEffect
  submit : List ClientAllocation → WorkerEffect
  wakeup_after : ℕ → WorkerEffect

pub record Worker : Type 0 where
  pub client_allocations : List ClientTasks
  pub current_task_index : ℕ
  pub next_task_index : ℕ
  pub cancel : Bool
  pub complete : Bool
  pub executor_future : Option Future
  pub sampler : Option (List Sample)
  pub profile_sampler : List Sample
  pub start_driving : Bool
  pub wakeup_interval : ℕ

abbrev pub Handled : Type 0
Handled = Result (Worker × List WorkerEffect)

pub current_tasks_and_advance : Worker → Result (Worker × List ClientAllocation)
unfolding tasks
current_tasks_and_advance w = do
  current ← tasks w.client_allocations w.next_task_index true
  ok (
    record w { current_task_index = w.next_task_index; next_task_index = w.next_task_index + 1 },
    current,
  )

abbrev pub send_of : Worker → Option (List Sample) → Worker × List WorkerEffect
send_of w none = (w, [])
send_of w (some []) = (w, [])
send_of w (some (s ∷ samples)) = (
  record w { sampler = some []; profile_sampler = [] },
  send_update_samples (s ∷ samples) w.profile_sampler ∷ [],
)

-- The queues of the samplers are emptied by reading them.
pub send_samples : Worker → Worker × List WorkerEffect
send_samples w = send_of w w.sampler

abbrev pub tasks_or :
    List ClientAllocation
    → Worker
    → Result (Worker × List ClientAllocation)
    → Result (Worker × List ClientAllocation)
tasks_or [] w others = others
tasks_or (t ∷ task_allocations) w others = ok (w, t ∷ task_allocations)

-- The first lines of `drive`: on to the first index with tasks. The fuel counts the turns.
pub skip_non_tasks : ℕ → Worker → Result (Worker × List ClientAllocation)
unfolding current_tasks_and_advance
skip_non_tasks zero w = raise does_not_end
skip_non_tasks (suc fuel) w = do
  (next, task_allocations) ← current_tasks_and_advance w
  tasks_or task_allocations next (skip_non_tasks fuel next)

-- executor_future.result()
abbrev pub wait : Option Future → Result (Unit {0})
wait none = ok tt
wait (some f) = elim f.outcome [ none ↦ ok tt | some failure ↦ raise failure ]

pub reach_join_point : Worker → List ClientAllocation → Handled
unfolding send_samples
reach_join_point w task_allocations = do
  _ ← wait w.executor_future
  let (sent, effects) = send_samples w
  ok (
    record sent { cancel = false; complete = false; executor_future = none; sampler = none },
    effects ++ send_join_point_reached task_allocations ∷ [],
  )

pub execute : Option Failure → Worker → List ClientAllocation → Worker × List WorkerEffect
execute outcome w task_allocations = if w.complete then (w, []) else (
  record w {
    sampler = some [];
    profile_sampler = [];
    executor_future = some (record { is_done = false; outcome = outcome });
  },
  submit task_allocations ∷ wakeup_after w.wakeup_interval ∷ [],
)

-- `outcome` is that of the executor, if one is submitted.
pub drive_with : ℕ → Option Failure → Worker → Handled
unfolding skip_non_tasks reach_join_point execute is_joinpoint
drive_with fuel outcome w = do
  (next, task_allocations) ← skip_non_tasks fuel w
  at_joinpoint ← is_joinpoint next.client_allocations next.current_task_index
  if at_joinpoint
      then reach_join_point next task_allocations
      else ok (execute outcome next task_allocations)

-- The number of columns of the matrix.
abbrev pub columns : List ClientTasks → ℕ
columns [] = 0
columns (a ∷ allocations) = length a.tasks

pub drive : Option Failure → Worker → Handled
unfolding drive_with
drive outcome w = drive_with (columns w.client_allocations + 1) outcome w

unfoldable pub receive_drive : ℕ → Worker → Handled
receive_drive sleep_time w = ok (record w { start_driving = true }, wakeup_after sleep_time ∷ [])

pub receive_complete_current_task : Worker → Handled
unfolding is_joinpoint
receive_complete_current_task w = do
  at_joinpoint ← is_joinpoint w.client_allocations w.current_task_index
  ok (if at_joinpoint then w else record w { complete = true }, [])

-- The last branches of the wakeup's handler, by the executor and the exception it ended with.
abbrev pub check_outcome : Option Failure → Worker → Option Failure → Handled
check_outcome outcome w (some failure) = do
  _ ← tasks w.client_allocations w.current_task_index true
  ok (w, send_benchmark_failure failure ∷ [])
check_outcome outcome w none = drive outcome (record w { executor_future = none })

abbrev pub check_executor : Option Failure → Worker → Option Future → Handled
check_executor outcome w none = ok (w, wakeup_after w.wakeup_interval ∷ [])
check_executor outcome w (some f) =
    if f.is_done
    then check_outcome outcome w f.outcome
    else ok (w, wakeup_after w.wakeup_interval ∷ [])

pub receive_wakeup : Option Failure → Worker → Handled
unfolding drive send_samples
receive_wakeup outcome w =
    if w.start_driving then drive outcome (record w { start_driving = false }) else do
      let (sent, sending) = send_samples w
      (next, effects) ←
          if sent.cancel
          then ok (sent, send_benchmark_cancelled ∷ [])
          else check_executor outcome sent sent.executor_future
      ok (next, sending ++ effects)

abbrev pub cancel_if_running : Worker → Option Future → Worker
cancel_if_running w none = w
cancel_if_running w (some f) = if f.is_done then w else record w { cancel = true }

-- `running` of a future of the pool, whose one thread has nothing else to run, is that it has not ended.
unfoldable pub receive_actor_exit_request : Worker → Worker
receive_actor_exit_request w = cancel_if_running w w.executor_future
