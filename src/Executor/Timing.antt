-- ===== src/Executor/Timing.antt =====
-- osbenchmark/worker_coordinator/worker_coordinator.py: the times of the samples that a task leaves.
use solr_benchmark.Prelude.{
  ℕ, ◌+◌, ◌-◌, ◌≤◌, Bool, true, false, List, [], ◌∷◌, ltb, if◌then◌else◌, All, All-append,
  Bool-cases, inl, inr, arith,
}
use solr_benchmark.Result.{Result, ok, raise}
use solr_benchmark.Executor.{Executed}
use solr_benchmark.Executor.Sampler.{DefaultSample, Sampler, add_sample, has_room}
use solr_benchmark.Executor.Request.{rest_of, or_time, result_data, is_reported}
use solr_benchmark.Executor.Loop.{
  Handle, Setting, Turn, Executor, is_profiled, latency_of, service_time_of, default_sample_of,
  is_completed, add_to, handled, process_results, reported, processed, make_turn, Ending,
  after_turn, run, call,
}

-- The times of a sample: its service time is part of its latency, of its processing time and of the time
-- since the start of the task, and the client's own time fits beside it in the processing time.
abbrev pub IsTimed : DefaultSample → Type 0
IsTimed s =
    (s.service_time ≤ s.latency)
    × (s.service_time ≤ s.processing_time)
    × (s.client_processing_time + s.service_time ≤ s.processing_time)
    × (s.service_time ≤ s.sample.time_period)

-- The readings of a clock that does not go back, in a turn that slept for its rest.
abbrev pub IsOrdered : ℕ → Turn → Type 0
IsOrdered total_start turn =
    let r = turn.readings in
    let start = or_time r.request_start r.processing_start in
    let end = or_time r.request_end r.fallback_end in
    (total_start ≤ r.now)
    × (r.now + rest_of turn.expected_scheduled_time total_start r.now ≤ r.processing_start)
    × (r.processing_start ≤ start)
    × (start ≤ end)
    × (end ≤ r.processing_end)
    × (r.processing_start ≤ or_time r.client_request_start r.processing_start)
    × (or_time r.client_request_end r.fallback_end ≤ r.processing_end)

-- Whatever was run, the sample of an ordered turn is timed.
IsTimed-default_sample_of :
    (setting : Setting) (total_start : ℕ) (turn : Turn) (executed : Executed) (task_start : ℕ)
    → IsOrdered total_start turn
    → IsTimed (
        default_sample_of setting total_start turn
          (result_data turn.expected_scheduled_time turn.readings executed)
          task_start)
unfolding rest_of
IsTimed-default_sample_of setting total_start turn executed task_start h =
    (late, omega (arith, h), omega (arith, h), omega (arith, h))
  where
    late :
        service_time_of (result_data turn.expected_scheduled_time turn.readings executed)
        ≤ latency_of total_start turn
            (result_data turn.expected_scheduled_time turn.readings executed)
    late = elim (Bool-cases (ltb 0 turn.expected_scheduled_time)) [
      | inr free ↦ rw free (omega arith)
      | inl throttled ↦
          let waited : turn.readings.now
                + (total_start + turn.expected_scheduled_time - turn.readings.now)
              ≤ turn.readings.processing_start =
            rw throttled at h.1 in
          rw throttled (omega (arith, waited, h.2, h.3))
    ]

All-add_sample :
    (P : DefaultSample → Type 0) (s : DefaultSample) (sampler : Sampler DefaultSample)
    → P s
    → All P sampler.q
    → All P (add_sample s sampler).q
unfolding add_sample
All-add_sample P s sampler p h = elim (Bool-cases (has_room sampler)) [
  | inl room ↦ rw room (All-append P sampler.q (s ∷ []) h (p, tt))
  | inr full ↦ rw full h
]

module _ (h : Handle) (setting : Setting) (total_start : ℕ) where
  abbrev pub AreTimed : Executor h → Type 0
  AreTimed e = All IsTimed e.sampler.q

  AreTimed-handled :
      (e : Executor h) (answer : Result h.State) (record_it : Executor h → Executor h)
      (completed : Bool)
      → ((x : Executor h) → AreTimed x → AreTimed (record_it x))
      → AreTimed e
      → AreTimed (handled h setting total_start e answer record_it completed).0
  AreTimed-handled e (raise failure) record_it completed kept t = t
  AreTimed-handled e (ok handle) record_it completed kept t = kept (record e { handle = handle }) t

  AreTimed-add_to :
      (profiled : Bool) (turn : Turn) (executed : Executed) (e : Executor h)
      → IsOrdered total_start turn
      → AreTimed e
      → AreTimed (
          add_to h setting total_start profiled turn
            (result_data turn.expected_scheduled_time turn.readings executed)
            e)
  AreTimed-add_to profiled turn executed e o t = elim (Bool-cases turn.client_enabled) [
    | inr paused ↦ rw paused t
    | inl active ↦ elim (Bool-cases profiled) [
      | inl p ↦ rw (active, p) t
      | inr p ↦
          rw (active, p)
            (All-add_sample IsTimed _ e.sampler
              (IsTimed-default_sample_of setting total_start turn executed e.sampler.start_timestamp
                o)
              t)
    ]
  ]

  AreTimed-either :
      (b : Bool) (x y : Executor h × Result Bool)
      → AreTimed x.0
      → AreTimed y.0
      → AreTimed (if b then x else y).0
  AreTimed-either true x y t u = t
  AreTimed-either false x y t u = u

  AreTimed-kept :
      (b : Bool) (x y : Executor h) → AreTimed x → AreTimed y → AreTimed (if b then x else y)
  AreTimed-kept true x y t u = t
  AreTimed-kept false x y t u = u

  AreTimed-after_turn :
      (more : Executor h → Executor h × Ending)
      → ((x : Executor h) → AreTimed x → AreTimed (more x).0)
      → (made : Executor h × Result Bool) → AreTimed made.0
      → AreTimed (after_turn more made).0
  AreTimed-after_turn more kept (x, raise failure) t = t
  AreTimed-after_turn more kept (x, ok true) t = t
  AreTimed-after_turn more kept (x, ok false) t = kept x t

  AreTimed-process_results :
      (profiled : Bool) (turn : Turn) (executed : Executed) (e : Executor h)
      → IsOrdered total_start turn
      → AreTimed e
      → AreTimed
          (process_results h setting total_start profiled turn
            (result_data turn.expected_scheduled_time turn.readings executed)
            e).0
  unfolding process_results
  AreTimed-process_results profiled turn executed e o t =
      let r = result_data turn.expected_scheduled_time turn.readings executed in
      AreTimed-either executed.request_meta_data.skipped_request _ _
        (AreTimed-handled e _ (λ x. x) turn.complete_is_set (λ x u. u) t)
        (AreTimed-handled e _ (add_to h setting total_start profiled turn r)
          (is_completed setting turn) (λ x u. AreTimed-add_to profiled turn executed x o u) t)

  AreTimed-processed :
      (profiled : Bool) (turn : Turn) (executed : Result Executed) (e : Executor h)
      → IsOrdered total_start turn
      → AreTimed e
      → AreTimed (processed h setting total_start profiled turn executed e).0
  AreTimed-processed profiled turn (raise failure) e o t = t
  AreTimed-processed profiled turn (ok executed) e o t =
      let r = result_data turn.expected_scheduled_time turn.readings executed in
      AreTimed-process_results profiled turn executed (reported h setting total_start turn r e) o
        (AreTimed-kept (is_reported turn.readings executed.request_meta_data) _ e t t)

  AreTimed-make_turn :
      (turn : Turn) (e : Executor h)
      → IsOrdered total_start turn
      → AreTimed e
      → AreTimed (make_turn h setting total_start turn e).0
  unfolding make_turn
  AreTimed-make_turn turn e o t =
      let profiled = is_profiled turn.profile_metrics_sample_size e.profile_metrics_sample_count in
      AreTimed-processed profiled turn _ _ o (AreTimed-kept profiled _ e t t)

  AreTimed-run :
      (turns : List Turn) (e : Executor h)
      → All (IsOrdered total_start) turns
      → AreTimed e
      → AreTimed (run h setting total_start turns e).0
  unfolding run
  AreTimed-run [] e o t = t
  AreTimed-run (turn ∷ turns) e o t = elim (Bool-cases turn.cancel_is_set) [
    | inl cancelled ↦ rw cancelled t
    | inr going ↦ rw going (
        AreTimed-after_turn (run h setting total_start turns) (λ x u. AreTimed-run turns x o.1 u)
          (make_turn h setting total_start turn e) (AreTimed-make_turn turn e o.0 t))
  ]

  -- Every sample of a task's client is timed, on a clock that does not go back and sleeps that last:
  -- however its requests and its loop end, its service time is within its latency, its processing time
  -- and the time of the task, and the client's own time is beside it in the processing time.
  pub IsTimed-call :
      (turns : List Turn) (e : Executor h)
      → All (IsOrdered total_start) turns
      → All IsTimed e.sampler.q
      → All IsTimed (call h setting total_start turns e).0.sampler.q
  unfolding call
  IsTimed-call turns e o t = AreTimed-run turns e o t
