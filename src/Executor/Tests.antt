-- ===== src/Executor/Tests.antt =====
-- A client whose schedule handle takes every result, in three turns: an answer, a request that times
-- out, and one while the client is paused.
use solr_benchmark.Prelude.{ℕ, ◌≡◌, refl, true, false, none, some, [], ◌∷◌, arith, All, length}
use solr_benchmark.Result.{ok, raise, unbound_local_error}
use solr_benchmark.Schedule.{normal}
use solr_benchmark.Executor.{pair, missing_key, transport_error, TransportError, execute_single}
use solr_benchmark.Executor.Sampler.{add_sample}
use solr_benchmark.Executor.Request.{rest_of}
use solr_benchmark.Executor.Loop.{Handle, Setting, Turn, Executor, call, report_error}
use solr_benchmark.Executor.Failing.{IsExecuted, execute_single_lem}
use solr_benchmark.Executor.Answered.{schedule_handle}
use solr_benchmark.Scheduler.Driven.{made}
use solr_benchmark.Prelude.Text.{codes}
use solr_benchmark.Scheduler.Target.{Target}
use solr_benchmark.Scheduler.UnitAware.{rescheduled, deterministic, after_request}
use solr_benchmark.Executor.Timing.{IsTimed, IsTimed-call}

abbrev counting : Handle
counting = record {
  State = ℕ;
  before_request = λ now s. s;
  after_request = λ now ops unit meta_data s. ok s;
}

abbrev setting : Setting
setting = record {
  client_id = 0;
  task = "search";
  completes_parent = true;
  on_error = "continue";
  redline_enabled = false;
}

abbrev executor : Executor counting
executor = record {
  handle = 0;
  sampler = record { start_timestamp = 100; buffer_size = 16384; q = [] };
  profile_sampler = record { start_timestamp = 100; buffer_size = 16384; q = [] };
  error_queue = some (2, []);
  profile_metrics_sample_count = 0;
  complete = false;
}

abbrev answered_turn : Turn
answered_turn = record {
  expected_scheduled_time = 10;
  sample_type = normal;
  task_progress = some (1, 3);
  profile_metrics_sample_size = none;
  cancel_is_set = false;
  client_enabled = true;
  complete_is_set = true;
  runner_completed = false;
  runner_task_progress = none;
  timed_out = false;
  outcome = pair 5 "docs";
  readings = record {
    now = 102;
    absolute_processing_start = 5110;
    processing_start = 111;
    request_start = some 112;
    request_end = some 118;
    client_request_start = some 111;
    client_request_end = some 119;
    fallback_end = 120;
    processing_end = 120;
  };
}

abbrev timed_out_turn : Turn
timed_out_turn = record answered_turn { timed_out = true; expected_scheduled_time = 0 }

abbrev paused_turn : Turn
paused_turn = record answered_turn { client_enabled = false }

-- The answer and the timeout are sampled, the timeout is reported, and the event is ignored by a task
-- that completes its parent until its own runner is done.
three_turns :
    let finished = call counting setting 100 (answered_turn ∷ timed_out_turn ∷ []) executor in
    (length finished.0.sampler.q ≡ 2) × (finished.0.complete ≡ true) × (finished.1 ≡ ok tt)
unfolding call execute_single add_sample report_error
three_turns = (refl, refl, refl)

abbrev refused : TransportError
refused = record {
  is_connection_error = true;
  is_connection_timeout = false;
  status_code = none;
  description = "refused";
}

-- In a redline test a missing key is not passed over: the meta data were never assigned.
missing_key_in_redline : execute_single missing_key "continue" true true ≡ raise unbound_local_error
unfolding execute_single
missing_key_in_redline = refl

execute_single_lem_example :
    IsExecuted true false (execute_single (transport_error refused) "continue" false true)
execute_single_lem_example = execute_single_lem (transport_error refused) "continue" false true

IsTimed-call_example :
    All IsTimed
      (call counting setting 100
        (answered_turn ∷ timed_out_turn ∷ paused_turn ∷ [])
        executor).0.sampler.q
IsTimed-call_example =
    IsTimed-call counting setting 100 (answered_turn ∷ timed_out_turn ∷ paused_turn ∷ []) executor
      (unfold rest_of in
        (
          (
            omega arith,
            omega arith,
            omega arith,
            omega arith,
            omega arith,
            omega arith,
            omega arith,
          ),
          (
            (
              omega arith,
              omega arith,
              omega arith,
              omega arith,
              omega arith,
              omega arith,
              omega arith,
            ),
            (
              (
                omega arith,
                omega arith,
                omega arith,
                omega arith,
                omega arith,
                omega arith,
                omega arith,
              ),
              tt,
            ),
          ),
        ))
      tt

-- 1000 documents a second, by 4 clients.
abbrev target : Target
target = record { numerator = 1000; denominator = 1; target_unit = codes "docs/s" }

abbrev throttled_executor : Executor schedule_handle
throttled_executor = record {
  handle = made target 4;
  sampler = record { start_timestamp = 100; buffer_size = 16384; q = [] };
  profile_sampler = record { start_timestamp = 100; buffer_size = 16384; q = [] };
  error_queue = none;
  profile_metrics_sample_count = 0;
  complete = false;
}

-- A response of 5 documents: each client waits 20 thousandths of a second.
waits_for_five :
    (call schedule_handle setting 100 (answered_turn ∷ []) throttled_executor).0.handle
    ≡ rescheduled (made target 4) 5 (deterministic (20, 1000))
unfolding call execute_single add_sample report_error after_request
waits_for_five = refl

abbrev going : Turn → Turn
going turn = record turn { complete_is_set = false }
