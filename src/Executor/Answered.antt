-- ===== src/Executor/Answered.antt =====
-- osbenchmark/worker_coordinator/worker_coordinator.py: what the executor makes of the answer in a turn,
-- with the scheduler of a task as its schedule handle.
use solr_benchmark.Prelude.{
  ℕ, String, ◌≡◌, refl, ap, ◌∙◌, Bool, true, false, if◌then◌else◌, Bool-cases, inl, inr,
}
use solr_benchmark.Prelude.Text.{codes}
use solr_benchmark.Result.{Result, ok, raise}
use solr_benchmark.Executor.{pair, succeeded, skipped_execution}
use solr_benchmark.Executor.Request.{ResultData, result_data, is_reported, timed_out_execution}
use solr_benchmark.Executor.Loop.{
  Handle, Setting, Turn, Executor, is_completed, add_to, handled, process_results, reported,
  processed, report_error,
}
use solr_benchmark.Scheduler.UnitAware.{UnitAwareScheduler, after_request}

-- A schedule handle passes what it is told on to its scheduler, which ignores the start of a request.
abbrev pub schedule_handle : Handle
schedule_handle = record {
  State = UnitAwareScheduler;
  before_request = λ now s. s;
  after_request = λ now weight unit meta_data s. after_request weight (codes unit) s;
}

-- The weight of the answer in a turn: that of the runner, which measures in one unit, and 0 for a request
-- that times out and for one of a paused client.
pub data Answers (unit : String) : Turn → ℕ → Type 0 where
  answered :
      {turn : Turn} {weight : ℕ}
      → turn.timed_out ≡ false
      → turn.client_enabled ≡ true
      → turn.outcome ≡ pair weight unit
      → Answers unit turn weight
  late : {turn : Turn} {weight : ℕ} → turn.timed_out ≡ true → weight ≡ 0 → Answers unit turn weight
  paused :
      {turn : Turn} {weight : ℕ}
      → turn.timed_out ≡ false
      → turn.client_enabled ≡ false
      → weight ≡ 0
      → Answers unit turn weight

-- The loop goes on behind the turn.
abbrev pub IsGoing : Turn → Type 0
IsGoing turn =
    (turn.cancel_is_set ≡ false) × (turn.complete_is_set ≡ false) × (turn.runner_completed ≡ false)

abbrev pub GoesOn : Executor schedule_handle × Result Bool → UnitAwareScheduler → Type 0
GoesOn r s = (r.0.handle ≡ s) × (r.1 ≡ ok false)

pub handle-either :
    (b : Bool) (x y : Executor schedule_handle)
    → x.handle ≡ y.handle
    → (if b then x else y).handle ≡ y.handle
handle-either true x y e = e
handle-either false x y e = refl

module _ (setting : Setting) (total_start : ℕ) where
  handle-add_to :
      (profiled : Bool) (turn : Turn) (r : ResultData) (e : Executor schedule_handle)
      → (add_to schedule_handle setting total_start profiled turn r e).handle ≡ e.handle
  handle-add_to profiled turn r e = elim (Bool-cases turn.client_enabled) [
    | inl active ↦ elim (Bool-cases profiled) [
      | inl p ↦ rw (active, p) refl
      | inr p ↦ rw (active, p) refl
    ]
    | inr rests ↦ rw rests refl
  ]

  handle-reported :
      (turn : Turn) (r : ResultData) (e : Executor schedule_handle)
      → (reported schedule_handle setting total_start turn r e).handle ≡ e.handle
  handle-reported turn r e =
      handle-either (is_reported turn.readings r.request_meta_data)
        (record e { error_queue = report_error r.request_meta_data e.error_queue }) e refl

  GoesOn-handled :
      (e : Executor schedule_handle) (answer : Result UnitAwareScheduler)
      (record_it : Executor schedule_handle → Executor schedule_handle) (completed : Bool)
      (s : UnitAwareScheduler)
      → answer ≡ ok s
      → completed ≡ false
      → ((x : Executor schedule_handle) → (record_it x).handle ≡ x.handle)
      → GoesOn (handled schedule_handle setting total_start e answer record_it completed) s
  GoesOn-handled e (raise failure) record_it completed s a c same = cc a
  GoesOn-handled e (ok t) record_it completed s a c same =
      (same (record e { handle = t }) ∙ cc a, ap ok c)

  not_completed : (turn : Turn) → IsGoing turn → is_completed setting turn ≡ false
  not_completed turn going = elim (Bool-cases setting.completes_parent) [
    | inl completes ↦ rw completes going.2
    | inr plain ↦ rw (plain, going.1) going.2
  ]

  -- An answer that is not skipped, by what the scheduler makes of it.
  pub GoesOn-answered :
      (profiled : Bool) (turn : Turn) (ops : ℕ) (unit : String) (e : Executor schedule_handle)
      (s : UnitAwareScheduler)
      → IsGoing turn
      → after_request ops (codes unit) e.handle ≡ ok s
      → GoesOn
          (processed schedule_handle setting total_start profiled turn (ok (succeeded ops unit)) e)
          s
  unfolding process_results
  GoesOn-answered profiled turn ops unit e s going a =
      let r = result_data turn.expected_scheduled_time turn.readings (succeeded ops unit) in
      let noted = reported schedule_handle setting total_start turn r e in
      GoesOn-handled noted (after_request ops (codes unit) noted.handle)
        (add_to schedule_handle setting total_start profiled turn r) (is_completed setting turn) s
        (ap (after_request ops (codes unit)) (handle-reported turn r e) ∙ a)
        (not_completed turn going) (handle-add_to profiled turn r)

  pub GoesOn-late :
      (profiled : Bool) (turn : Turn) (e : Executor schedule_handle)
      → IsGoing turn
      → GoesOn
          (processed schedule_handle setting total_start profiled turn (ok timed_out_execution) e)
          e.handle
  unfolding process_results after_request
  GoesOn-late profiled turn e going =
      let r = result_data turn.expected_scheduled_time turn.readings timed_out_execution in
      let noted = reported schedule_handle setting total_start turn r e in
      GoesOn-handled noted (ok noted.handle)
        (add_to schedule_handle setting total_start profiled turn r) (is_completed setting turn)
        e.handle (ap ok (handle-reported turn r e)) (not_completed turn going)
        (handle-add_to profiled turn r)

  pub GoesOn-paused :
      (profiled : Bool) (turn : Turn) (e : Executor schedule_handle)
      → IsGoing turn
      → GoesOn
          (processed schedule_handle setting total_start profiled turn (ok skipped_execution) e)
          e.handle
  unfolding process_results after_request
  GoesOn-paused profiled turn e going =
      let r = result_data turn.expected_scheduled_time turn.readings skipped_execution in
      let noted = reported schedule_handle setting total_start turn r e in
      GoesOn-handled noted (ok noted.handle) (λ x. x) turn.complete_is_set e.handle
        (ap ok (handle-reported turn r e)) going.1 (λ x. refl)
