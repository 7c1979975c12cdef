-- ===== src/Worker/Stall.antt =====
-- A worker that was told to complete its current task, with more tasks before the next join point.
use solr_benchmark.Prelude.{ℕ, suc, ◌+◌, ◌≡◌, refl, true, false, none, some, List, [], ◌∷◌, arith}
use solr_benchmark.Result.{ok}
use solr_benchmark.Coordinator.{Sample}
use solr_benchmark.Worker.{
  ClientAllocation, tasks, WorkerEffect, wakeup_after, send_update_samples, Worker, Handled,
  columns, is_joinpoint, drive_with, drive, execute, send_samples, receive_wakeup,
  receive_complete_current_task,
}
use solr_benchmark.Worker.Columns.{HaveTask, at_index, skip-tasks}
use solr_benchmark.Worker.Trip.{finish, submitted, reached}

abbrev pub wakeups : List WorkerEffect → List ℕ
wakeups [] = []
wakeups (wakeup_after t ∷ effects) = t ∷ wakeups effects
wakeups (_ ∷ effects) = wakeups effects

-- The worker was told to complete and not to cancel.
abbrev pub told : Worker → Worker
told w = record w { cancel = false; complete = true; start_driving = false }

-- Nothing runs and nothing will wake the worker up, nor does it ask for the next task.
abbrev pub IsStuck : Worker → Handled → Type 0
IsStuck w r =
    (next : Worker) × (effects : List WorkerEffect) × (r ≡ ok (next, effects))
    × (submitted effects ≡ [])
    × (reached effects ≡ [])
    × (wakeups effects ≡ [])
    × (next.executor_future ≡ none)
    × (next.current_task_index ≡ w.next_task_index)
    × (receive_complete_current_task next ≡ ok (next, []))

drive-told :
    (fuel : ℕ) (w : Worker) (t : ClientAllocation) (column : List ClientAllocation)
    → w.complete ≡ true
    → tasks w.client_allocations w.next_task_index true ≡ ok (t ∷ column)
    → HaveTask (t ∷ column)
    → drive_with (suc fuel) none w ≡ ok (at_index w w.next_task_index, [])
unfolding drive_with is_joinpoint execute
drive-told fuel w t column complete e tasked =
    rw (skip-tasks fuel w t column e, e, tasked) (simp complete)

-- If the tasks of a worker that was told to complete end without an exception and the next column
-- has a task, then at the next wakeup the worker skips that column and stops: it submits nothing, does
-- not tell the coordinator of a join point and asks for no further wakeup, and a further message to
-- complete does nothing.
pub receive_wakeup-told :
    (samples : List Sample) (w : Worker) (t : ClientAllocation) (column : List ClientAllocation)
    → tasks w.client_allocations w.next_task_index true ≡ ok (t ∷ column)
    → HaveTask (t ∷ column)
    → IsStuck w (receive_wakeup none (finish samples (told w)))
unfolding receive_wakeup send_samples drive receive_complete_current_task is_joinpoint
receive_wakeup-told [] w t column e tasked =
    let stopped = record (told w) { sampler = some []; executor_future = none } in
    let fuel : columns w.client_allocations + 1 ≡ suc (columns w.client_allocations) =
      omega arith in
    (
      at_index stopped w.next_task_index,
      [],
      rw (fuel, drive-told (columns w.client_allocations) stopped t column refl e tasked) refl,
      refl,
      refl,
      refl,
      refl,
      refl,
      rw (e, tasked) refl,
    )
receive_wakeup-told (s ∷ samples) w t column e tasked =
    let stopped = record (told w) {
      sampler = some [];
      profile_sampler = [];
      executor_future = none;
    } in
    let fuel : columns w.client_allocations + 1 ≡ suc (columns w.client_allocations) =
      omega arith in
    (
      at_index stopped w.next_task_index,
      send_update_samples (s ∷ samples) w.profile_sampler ∷ [],
      rw (fuel, drive-told (columns w.client_allocations) stopped t column refl e tasked) refl,
      refl,
      refl,
      refl,
      refl,
      refl,
      rw (e, tasked) refl,
    )
