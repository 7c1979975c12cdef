-- ===== src/Coordinator/Steps.antt =====
-- osbenchmark/worker_coordinator/worker_coordinator.py: the methods of `WorkerCoordinator` that react to a join point.
use solr_benchmark.Prelude.{
  ℕ, zero, suc, ◌+◌, ◌-◌, true, false, Option, none, some, List, [], ◌∷◌, ◌++◌, ◌==◌, if◌then◌else◌,
  filterb,
}
use solr_benchmark.Prelude.Dict.{Dict, get, put, has, nat_key}
use solr_benchmark.Result.{Result, ok, raise, key_error, ◌>>=◌}
use solr_benchmark.Allocator.{JoinPoint, preceding_task_completes_parent}
use solr_benchmark.Coordinator.{
  Coordinator, Effect, Options, Reached, Step, complete_current_task, disable_feedback_scaling,
  drive_at, enable_feedback_scaling, finished, on_benchmark_complete, on_benchmark_stop,
  on_task_finished, post_process_samples, update_progress_message,
}

-- One worker, with what the dictionary has for it and the messages to the workers behind it.
abbrev pub drive_worker : ℕ → ℕ → Option Reached → Result (List Effect) → Result (List Effect)
drive_worker start_next_task worker_id none others = raise key_error
drive_worker start_next_task worker_id (some r) others = do
  effects ← others
  ok (
      drive_at worker_id (r.worker_ended_task_at + start_next_task - r.master_received_msg_at)
      ∷ effects)

-- for worker_id, worker in enumerate(self.workers), from `worker_id` on
unfoldable pub drive_workers : ℕ → Dict ℕ Reached → ℕ → ℕ → Result (List Effect)
drive_workers start_next_task reached worker_id zero = ok []
drive_workers start_next_task reached worker_id (suc n) =
    drive_worker start_next_task worker_id (get worker_id reached)
      (drive_workers start_next_task reached (worker_id + 1) n)

-- `now` is the clock's value when the method reads it.
unfoldable pub move_to_next_task : Options → ℕ → Dict ℕ Reached → Coordinator → Result (List Effect)
unfolding drive_workers
move_to_next_task o now workers_curr_step c =
    let waiting_period = if o.test_mode_enabled then 0 else o.second in
    do
      driven ← drive_workers (now + waiting_period) workers_curr_step 0 c.workers
      ok (on_task_finished waiting_period ∷ driven)

-- One client of the join point, with what the dictionary has for it and the clients behind it.
abbrev pub note_client : Coordinator → ℕ → Option ℕ → Result (List ℕ) → Result (List ℕ)
note_client c client_id none others = raise key_error
note_client c client_id (some worker_id) others = do
  pending ← others
  ok (if has worker_id c.workers_completed_current_step then pending else client_id ∷ pending)

-- The clients of a join point whose worker has not reached it.
unfoldable pub pending_client_ids : List ℕ → Coordinator → Result (List ℕ)
pending_client_ids [] c = ok []
pending_client_ids (client_id ∷ clients) c =
    note_client c client_id (get client_id c.clients_per_worker) (pending_client_ids clients c)

-- complete_current_task for every worker, from `worker_id` on
unfoldable pub complete_workers : ℕ → ℕ → List Effect
complete_workers worker_id zero = []
complete_workers worker_id (suc n) =
    complete_current_task worker_id ∷ complete_workers (worker_id + 1) n

abbrev pub notify_if_done : List ℕ → Coordinator → Coordinator × List Effect
notify_if_done [] c = (record c { complete_current_task_sent = true }, complete_workers 0 c.workers)
notify_if_done (client_id ∷ pending) c = (c, [])

abbrev pub complete_first : List JoinPoint → Coordinator → Step
complete_first [] c = ok (c, [])
complete_first (current_join_point ∷ others) c =
    if c.complete_current_task_sent then ok (c, []) else do
      pending ← pending_client_ids current_join_point.clients_executing_completing_task c
      ok (notify_if_done pending c)

-- The task allocations at a join point are join points, one for each client of the worker.
unfoldable pub may_complete_current_task : List JoinPoint → Coordinator → Step
unfolding pending_client_ids complete_workers
may_complete_current_task task_allocations c =
    complete_first (filterb preceding_task_completes_parent task_allocations) c

-- The branch of `joinpoint_reached` for the last worker. `now` is the clock's value for
-- `move_to_next_task`.
unfoldable pub all_workers_reached : Options → ℕ → Coordinator → Step
unfolding finished post_process_samples update_progress_message move_to_next_task
all_workers_reached o now c =
    let cleared = record c {
      currently_completed = 0;
      complete_current_task_sent = false;
      workers_completed_current_step = [];
    } in
    do
      progress ← update_progress_message o true cleared
      let (processed, post) = post_process_samples (record cleared {
        most_recent_sample_per_client = [];
        join_points_passed = c.join_points_passed + 1;
      })
      if finished processed
          then ok (
            record processed { metrics_store_open = false },
            progress ++ post ++ on_benchmark_stop ∷ on_benchmark_complete ∷ [],
          )
          else do
            moved ← move_to_next_task o now c.workers_completed_current_step processed
            ok (
              processed,
              progress
                  ++ post
                  ++ moved
                  ++ (if o.redline_test then enable_feedback_scaling ∷ [] else []),
            )

-- `received_at` is the clock's value on receipt of the message.
unfoldable pub joinpoint_reached : Options → ℕ → ℕ → ℕ → ℕ → List JoinPoint → Coordinator → Step
unfolding all_workers_reached may_complete_current_task
joinpoint_reached o received_at now worker_id worker_local_timestamp task_allocations c =
    let counted = record c {
      currently_completed = c.currently_completed + 1;
      workers_completed_current_step =
          put worker_id
            (record {
              worker_ended_task_at = worker_local_timestamp;
              master_received_msg_at = received_at;
            })
            c.workers_completed_current_step;
    } in
    let paused = if o.redline_test then disable_feedback_scaling ∷ [] else [] in
    do
      (next, effects) ←
          if counted.currently_completed == c.workers
          then all_workers_reached o now counted
          else may_complete_current_task task_allocations counted
      ok (next, paused ++ effects)
