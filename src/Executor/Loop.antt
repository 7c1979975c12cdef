-- ===== src/Executor/Loop.antt =====
-- osbenchmark/worker_coordinator/worker_coordinator.py: `AsyncExecutor._process_results` and the loop of
-- `AsyncExecutor.__call__`, over the turns that the schedule gives. A turn has what the outside does in it.
use solr_benchmark.Prelude.{
  ℕ, ◌+◌, ◌-◌, String, Bool, true, false, ◌||◌, Option, none, some, List, [], ◌∷◌, ◌++◌, ◌==◌, ltb,
  if◌then◌else◌, length,
}
use solr_benchmark.Result.{Result, ok, raise, Failure, benchmark_error}
use solr_benchmark.Schedule.{SampleType}
use solr_benchmark.Executor.{MetaData, no_meta_data, Outcome, Executed, execute_single}
use solr_benchmark.Executor.Sampler.{TaskProgress, TakenSample, DefaultSample, Sampler, add_sample}
use solr_benchmark.Executor.Request.{Readings, ResultData, waited_for, result_data, is_reported}

-- The schedule handle: its state, and what it does with the time of a request and with its result.
pub record Handle : Type 1 where
  pub State : Type 0
  pub before_request : ℕ → State → State
  pub after_request : ℕ → ℕ → String → MetaData → State → Result State

-- What an executor is made with.
pub record Setting : Type 0 where
  pub client_id : ℕ
  pub task : String
  pub completes_parent : Bool
  pub on_error : String
  pub redline_enabled : Bool

-- An invocation of the schedule and what happens in it.
pub record Turn : Type 0 where
  pub expected_scheduled_time : ℕ
  pub sample_type : SampleType
  pub task_progress : TaskProgress
  pub profile_metrics_sample_size : Option ℕ
  pub cancel_is_set : Bool
  pub client_enabled : Bool
  pub complete_is_set : Bool
  pub runner_completed : Bool
  pub runner_task_progress : Option (ℕ × ℕ)
  pub timed_out : Bool
  pub outcome : Outcome
  pub readings : Readings

-- The error queue has a size and the details of the errors.
abbrev pub ErrorQueue : Type 0
ErrorQueue = Option (ℕ × List MetaData)

unfoldable pub report_error : MetaData → ErrorQueue → ErrorQueue
report_error details none = none
report_error details (some (size, errors)) =
    if size == 0 || ltb (length errors) size
    then some (size, errors ++ (details ∷ []))
    else some (size, errors)

module _ (h : Handle) where
  pub record Executor : Type 0 where
    pub handle : h.State
    pub sampler : Sampler DefaultSample
    pub profile_sampler : Sampler TakenSample
    pub error_queue : ErrorQueue
    pub profile_metrics_sample_count : ℕ
    pub complete : Bool

-- `profile_metrics_sample_size and profile_metrics_sample_count < profile_metrics_sample_size`
abbrev pub is_profiled : Option ℕ → ℕ → Bool
is_profiled none count = false
is_profiled (some size) count = ltb count size

abbrev pub is_completed : Setting → Turn → Bool
is_completed setting turn =
    if setting.completes_parent
    then turn.runner_completed
    else turn.complete_is_set || turn.runner_completed

abbrev pub progress_or : Option (ℕ × ℕ) → TaskProgress → TaskProgress
progress_or none task_progress = task_progress
progress_or (some progress) task_progress = some progress

abbrev pub reached_progress : Setting → Turn → TaskProgress
reached_progress setting turn =
    if is_completed setting turn
    then some (1, 1)
    else progress_or turn.runner_task_progress turn.task_progress

abbrev pub service_time_of : ResultData → ℕ
service_time_of r = r.request_end - r.request_start

-- A throttled request is late from the time that it was to start.
abbrev pub latency_of : ℕ → Turn → ResultData → ℕ
latency_of total_start turn r =
    if r.throughput_throttled
    then r.request_end - (total_start + turn.expected_scheduled_time)
    else service_time_of r

-- The meta data of a sample, without what is popped from it.
abbrev pub kept_meta_data : MetaData → MetaData
kept_meta_data meta_data = record meta_data { throughput = none; dependent_timing = none }

abbrev pub sample_of : Setting → ℕ → Turn → ResultData → ℕ → TakenSample
sample_of setting total_start turn r task_start = record {
  client_id = setting.client_id;
  absolute_time = r.absolute_processing_start;
  request_start = r.request_start;
  task_start = task_start;
  task = setting.task;
  sample_type = turn.sample_type;
  request_meta_data = kept_meta_data r.request_meta_data;
  time_period = r.request_end - total_start;
  task_progress = reached_progress setting turn;
  dependent_timing = r.request_meta_data.dependent_timing;
}

abbrev pub default_sample_of : Setting → ℕ → Turn → ResultData → ℕ → DefaultSample
default_sample_of setting total_start turn r task_start = record {
  sample = sample_of setting total_start turn r task_start;
  latency = latency_of total_start turn r;
  service_time = service_time_of r;
  client_processing_time = (r.client_request_end - r.client_request_start) - service_time_of r;
  processing_time = r.processing_end - r.processing_start;
  throughput = r.request_meta_data.throughput;
  total_ops = r.total_ops;
  total_ops_unit = r.total_ops_unit;
}

module _ (h : Handle) (setting : Setting) (total_start : ℕ) where
  -- The sample of a client that is not paused goes to one of the samplers.
  abbrev pub add_to : Bool → Turn → ResultData → Executor h → Executor h
  add_to profiled turn r e =
      if turn.client_enabled
      then if profiled
        then record e {
          profile_sampler =
              add_sample (sample_of setting total_start turn r e.profile_sampler.start_timestamp)
                e.profile_sampler;
        }
        else record e {
          sampler =
              add_sample (default_sample_of setting total_start turn r e.sampler.start_timestamp)
                e.sampler;
        }
      else e

  abbrev pub handled :
      Executor h → Result h.State → (Executor h → Executor h) → Bool → Executor h × Result Bool
  handled e (raise failure) record_it completed = (e, raise failure)
  handled e (ok handle) record_it completed =
      (record_it (record e { handle = handle }), ok completed)

  -- _process_results
  unfoldable pub process_results : Bool → Turn → ResultData → Executor h → Executor h × Result Bool
  process_results profiled turn r e =
      if r.request_meta_data.skipped_request
      then handled e
          (h.after_request r.processing_end 0 "ops"
            (record no_meta_data { success = some false; skipped = true }) e.handle)
          (λ x. x) turn.complete_is_set
      else handled e
          (h.after_request r.processing_end r.total_ops r.total_ops_unit r.request_meta_data
            e.handle)
          (add_to profiled turn r) (is_completed setting turn)

  abbrev pub reported : Turn → ResultData → Executor h → Executor h
  reported turn r e =
      if is_reported turn.readings r.request_meta_data
      then record e { error_queue = report_error r.request_meta_data e.error_queue }
      else e

  abbrev pub processed : Bool → Turn → Result Executed → Executor h → Executor h × Result Bool
  processed profiled turn (raise failure) e = (e, raise failure)
  processed profiled turn (ok executed) e =
      let r = result_data turn.expected_scheduled_time turn.readings executed in
      process_results profiled turn r (reported turn r e)

  -- The body of the loop: a failure, or whether the task is completed.
  unfoldable pub make_turn : Turn → Executor h → Executor h × Result Bool
  unfolding process_results
  make_turn turn e =
      let profiled = is_profiled turn.profile_metrics_sample_size e.profile_metrics_sample_count in
      let counted =
        if profiled
        then record e { profile_metrics_sample_count = e.profile_metrics_sample_count + 1 }
        else e in
      let started = record counted {
        handle = h.before_request turn.readings.processing_start counted.handle;
      } in
      processed profiled turn
        (waited_for turn.timed_out (
          execute_single turn.outcome setting.on_error setting.redline_enabled turn.client_enabled))
        started

-- How the loop ended.
pub data Ending : Type 0 where
  exhausted cancelled completed : Ending
  failed : Failure → Ending

abbrev pub after_turn {ℓ} : {E : Type ℓ} → (E → E × Ending) → E × Result Bool → E × Ending
after_turn more (e, raise failure) = (e, failed failure)
after_turn more (e, ok true) = (e, completed)
after_turn more (e, ok false) = more e

abbrev pub ended : Ending → Result (Unit {0})
ended exhausted = ok tt
ended cancelled = ok tt
ended completed = ok tt
ended (failed failure) = raise benchmark_error

module _ (h : Handle) (setting : Setting) (total_start : ℕ) where
  -- The loop over the schedule.
  unfoldable pub run : List Turn → Executor h → Executor h × Ending
  unfolding make_turn
  run [] e = (e, exhausted)
  run (turn ∷ turns) e =
      let go_on = after_turn (run turns) (make_turn h setting total_start turn e) in
      if turn.cancel_is_set then (e, cancelled) else go_on

  -- `__call__`: a task that completes its parent says so however it ends.
  unfoldable pub call : List Turn → Executor h → Executor h × Result (Unit {0})
  unfolding run
  call turns e =
      let finished = run turns e in
      (
        record finished.0 { complete = setting.completes_parent || finished.0.complete },
        ended finished.1,
      )
