-- ===== src/Worker/Trip.antt =====
-- A worker between two join points, when its tasks end well.
use solr_benchmark.Prelude.{
  ℕ, suc, ◌+◌, ◌≡◌, refl, Bool, true, false, none, some, List, [], ◌∷◌, ◌++◌, length, flatten,
  if◌then◌else◌,
}
use solr_benchmark.Result.{ok, ◌>>=◌}
use solr_benchmark.Coordinator.{Sample}
use solr_benchmark.Worker.{
  ClientAllocation, tasks, WorkerEffect, submit, send_join_point_reached, send_update_samples,
  wakeup_after, Worker, Handled, is_joinpoint, drive_with, reach_join_point, execute, send_samples,
  receive_wakeup,
}
use solr_benchmark.Worker.Columns.{AreJoins, HaveTask, at_index, skip-tasks}

-- The executor leaves samples and ends without an exception.
abbrev pub finish : List Sample → Worker → Worker
finish samples w = record w {
  executor_future = some (record { is_done = true; outcome = none });
  sampler = some samples;
}

-- For each list of samples the executor ends once and the worker wakes up.
unfoldable pub wake : List (List Sample) → Worker → Handled
wake [] w = ok (w, [])
wake (samples ∷ more_samples) w = do
  (next, effects) ← receive_wakeup none (finish samples w)
  (last, more) ← wake more_samples next
  ok (last, effects ++ more)

-- Drive, and then wake up as often.
abbrev pub go : ℕ → List (List Sample) → Worker → Handled
go fuel samples w = do
  (next, effects) ← drive_with fuel none w
  (last, more) ← wake samples next
  ok (last, effects ++ more)

-- What the worker submits, what it tells the coordinator, and the samples that it sends, in order.
abbrev pub submitted : List WorkerEffect → List (List ClientAllocation)
submitted [] = []
submitted (submit column ∷ effects) = column ∷ submitted effects
submitted (_ ∷ effects) = submitted effects

abbrev pub reached : List WorkerEffect → List (List ClientAllocation)
reached [] = []
reached (send_join_point_reached column ∷ effects) = column ∷ reached effects
reached (_ ∷ effects) = reached effects

abbrev pub sent_samples : List WorkerEffect → List Sample
sent_samples [] = []
sent_samples (send_update_samples samples profile_samples ∷ effects) =
    samples ++ sent_samples effects
sent_samples (_ ∷ effects) = sent_samples effects

-- The columns with a task.
abbrev pub busy : List (List ClientAllocation) → List (List ClientAllocation)
busy [] = []
busy ([] ∷ before) = busy before
busy ((t ∷ column) ∷ before) = (t ∷ column) ∷ busy before

abbrev pub HaveTasks : List (List ClientAllocation) → Type 0
HaveTasks [] = Unit
HaveTasks (column ∷ before) = HaveTask column × HaveTasks before

-- Nothing runs, no sample waits and nobody asked the worker to stop.
abbrev pub free : Bool → Worker → Worker
free b w = record w {
  executor_future = none;
  cancel = false;
  complete = false;
  start_driving = false;
  sampler = if b then some [] else none;
}

-- The worker has run the columns before the join point, has sent the samples, and waits there.
abbrev pub Arrives :
    Worker
    → List (List ClientAllocation)
    → List ClientAllocation
    → List (List Sample)
    → Handled
    → Type 0
Arrives w before join_column samples r =
    (last : Worker) × (effects : List WorkerEffect) × (r ≡ ok (free false last, effects))
    × (submitted effects ≡ busy before)
    × (reached effects ≡ join_column ∷ [])
    × (sent_samples effects ≡ flatten samples)
    × (last.current_task_index ≡ w.next_task_index + length before)
    × (last.next_task_index ≡ last.current_task_index + 1)
    × (last.client_allocations ≡ w.client_allocations)

pub go-join :
    (fuel : ℕ) (b : Bool) (w : Worker) (t : ClientAllocation) (column : List ClientAllocation)
    → tasks w.client_allocations w.next_task_index true ≡ ok (t ∷ column)
    → AreJoins (t ∷ column)
    → drive_with (suc fuel) none (free b w)
      ≡ ok (free false (at_index w w.next_task_index), send_join_point_reached (t ∷ column) ∷ [])
unfolding drive_with is_joinpoint reach_join_point send_samples
go-join fuel true w t column e joins = rw (skip-tasks fuel (free true w) t column e, e, joins) refl
go-join fuel false w t column e joins =
    rw (skip-tasks fuel (free false w) t column e, e, joins) refl

-- The worker when the tasks of its next column have ended, and while they run.
abbrev pub released : Worker → Worker
released w = free true (record (at_index w w.next_task_index) { profile_sampler = [] })

abbrev pub running : Worker → Worker
running w = record (released w) {
  executor_future = some (record { is_done = false; outcome = none });
}

pub go-tasks :
    (fuel : ℕ) (b : Bool) (w : Worker) (t : ClientAllocation) (column : List ClientAllocation)
    → tasks w.client_allocations w.next_task_index true ≡ ok (t ∷ column)
    → HaveTask (t ∷ column)
    → drive_with (suc fuel) none (free b w)
      ≡ ok (running w, submit (t ∷ column) ∷ wakeup_after w.wakeup_interval ∷ [])
unfolding drive_with is_joinpoint execute
go-tasks fuel b w t column e tasked = rw (skip-tasks fuel (free b w) t column e, e, tasked) refl
