-- ===== src/Executor/Turns.antt =====
-- osbenchmark/worker_coordinator/worker_coordinator.py: what a turn with an answer makes of the scheduler.
use solr_benchmark.Prelude.{
  ℕ, String, ◌≡◌, refl, sym, ap, ◌∙◌, Bool, true, false, ◌+◌, if◌then◌else◌,
}
use solr_benchmark.Prelude.Text.{codes}
use solr_benchmark.Result.{Result, ok, raise}
use solr_benchmark.Executor.{Executed, pair, succeeded, skipped_execution, execute_single}
use solr_benchmark.Executor.Request.{waited_for, timed_out_execution}
use solr_benchmark.Executor.Loop.{
  Setting, Turn, Executor, Ending, is_profiled, processed, make_turn, after_turn,
}
use solr_benchmark.Scheduler.UnitAware.{UnitAwareScheduler, after_request}
use solr_benchmark.Executor.Answered.{
  schedule_handle, Answers, answered, late, paused, IsGoing, GoesOn, handle-either, GoesOn-answered,
  GoesOn-late, GoesOn-paused,
}

module _ (setting : Setting) (total_start : ℕ) where
  -- What a turn executes, by its answer.
  executed_in : Turn → Result Executed
  executed_in turn =
      waited_for turn.timed_out
        (execute_single turn.outcome setting.on_error setting.redline_enabled turn.client_enabled)

  executed-late : (turn : Turn) → turn.timed_out ≡ true → executed_in turn ≡ ok timed_out_execution
  unfolding executed_in
  executed-late turn is_late =
      ap
        (λ b. waited_for b (
          execute_single turn.outcome setting.on_error setting.redline_enabled turn.client_enabled))
        is_late

  executed-in_time :
      (turn : Turn)
      → turn.timed_out ≡ false
      → executed_in turn
        ≡ execute_single turn.outcome setting.on_error setting.redline_enabled turn.client_enabled
  unfolding executed_in
  executed-in_time turn in_time =
      ap
        (λ b. waited_for b (
          execute_single turn.outcome setting.on_error setting.redline_enabled turn.client_enabled))
        in_time

  executed-paused :
      (turn : Turn)
      → turn.timed_out ≡ false
      → turn.client_enabled ≡ false
      → executed_in turn ≡ ok skipped_execution
  unfolding execute_single
  executed-paused turn in_time rests =
      executed-in_time turn in_time
      ∙ ap (execute_single turn.outcome setting.on_error setting.redline_enabled) rests

  executed-answered :
      (unit : String) (turn : Turn) (weight : ℕ)
      → turn.timed_out ≡ false
      → turn.client_enabled ≡ true
      → turn.outcome ≡ pair weight unit
      → executed_in turn ≡ ok (succeeded weight unit)
  unfolding execute_single
  executed-answered unit turn weight in_time active outcome =
      executed-in_time turn in_time
      ∙ ap (execute_single turn.outcome setting.on_error setting.redline_enabled) active
      ∙ ap (λ o. execute_single o setting.on_error setting.redline_enabled true) outcome

  GoesOn-executed :
      (unit : String) (profiled : Bool) (turn : Turn) (weight : ℕ) (e : Executor schedule_handle)
      (s : UnitAwareScheduler)
      → Answers unit turn weight
      → IsGoing turn
      → after_request weight (codes unit) e.handle ≡ ok s
      → GoesOn (processed schedule_handle setting total_start profiled turn (executed_in turn) e) s
  unfolding after_request
  GoesOn-executed unit profiled turn weight e s (answered in_time active outcome) going a =
      rw (executed-answered unit turn weight in_time active outcome)
        (GoesOn-answered setting total_start profiled turn weight unit e s going a)
  GoesOn-executed unit profiled turn weight e s (late is_late nothing) going a =
      let same : e.handle ≡ s = cc (rw nothing at a) in
      rw (executed-late turn is_late, sym same)
        (GoesOn-late setting total_start profiled turn e going)
  GoesOn-executed unit profiled turn weight e s (paused in_time rests nothing) going a =
      let same : e.handle ≡ s = cc (rw nothing at a) in
      rw (executed-paused turn in_time rests, sym same)
        (GoesOn-paused setting total_start profiled turn e going)

  pub GoesOn-make_turn :
      (unit : String) (turn : Turn) (weight : ℕ) (e : Executor schedule_handle)
      (s : UnitAwareScheduler)
      → Answers unit turn weight
      → IsGoing turn
      → after_request weight (codes unit) e.handle ≡ ok s
      → GoesOn (make_turn schedule_handle setting total_start turn e) s
  unfolding make_turn executed_in
  GoesOn-make_turn unit turn weight e s answer going a =
      let profiled = is_profiled turn.profile_metrics_sample_size e.profile_metrics_sample_count in
      let counted = record e {
        profile_metrics_sample_count = e.profile_metrics_sample_count + 1;
      } in
      let started = if profiled then counted else e in
      GoesOn-executed unit profiled turn weight (record started { handle = started.handle }) s
        answer going
        (ap (after_request weight (codes unit)) (handle-either profiled counted e refl) ∙ a)

  pub after_turn-GoesOn :
      (more : Executor schedule_handle → Executor schedule_handle × Ending)
      (r : Executor schedule_handle × Result Bool)
      → r.1 ≡ ok false
      → after_turn more r ≡ more r.0
  after_turn-GoesOn more (e, raise failure) c = cc c
  after_turn-GoesOn more (e, ok true) c = cc c
  after_turn-GoesOn more (e, ok false) c = refl
