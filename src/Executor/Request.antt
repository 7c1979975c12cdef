-- ===== src/Executor/Request.antt =====
-- osbenchmark/worker_coordinator/worker_coordinator.py: `AsyncExecutor._execute_request`. The readings of the
-- clocks, the times of the request's context when it is left, and whether the request timed out are given.
use solr_benchmark.Prelude.{
  ℕ, ◌+◌, ◌-◌, String, Bool, false, not, ◌&&◌, ◌||◌, Option, none, some, ltb, if◌then◌else◌,
  is_some,
}
use solr_benchmark.Result.{Result, ok}
use solr_benchmark.Executor.{MetaData, no_meta_data, Executed, is_success}

pub record Readings : Type 0 where
  -- The clock before the request waits for its time.
  pub now : ℕ
  pub absolute_processing_start : ℕ
  pub processing_start : ℕ
  pub request_start : Option ℕ
  pub request_end : Option ℕ
  pub client_request_start : Option ℕ
  pub client_request_end : Option ℕ
  -- The clock where times are missing.
  pub fallback_end : ℕ
  pub processing_end : ℕ

pub record ResultData : Type 0 where
  pub absolute_processing_start : ℕ
  pub processing_start : ℕ
  pub processing_end : ℕ
  pub request_start : ℕ
  pub request_end : ℕ
  pub client_request_start : ℕ
  pub client_request_end : ℕ
  pub total_ops : ℕ
  pub total_ops_unit : String
  pub request_meta_data : MetaData
  pub throughput_throttled : Bool

-- How long the request waits: until its time where it is throttled, if that is still to come.
unfoldable pub rest_of : ℕ → ℕ → ℕ → ℕ
rest_of expected_scheduled_time total_start now =
    if ltb 0 expected_scheduled_time then (total_start + expected_scheduled_time) - now else 0

abbrev pub timed_out_execution : Executed
timed_out_execution = record {
  total_ops = 0;
  total_ops_unit = "ops";
  request_meta_data = record no_meta_data { success = some false; error_type = some "timeout" };
}

-- asyncio.wait_for(execute_single(...), timeout=...)
abbrev pub waited_for : Bool → Result Executed → Result Executed
waited_for timed_out executed = if timed_out then ok timed_out_execution else executed

abbrev pub or_time : Option ℕ → ℕ → ℕ
or_time none fallback = fallback
or_time (some time) fallback = time

abbrev pub has_times : Readings → Bool
has_times r =
    is_some r.request_start
    && (is_some r.request_end && (is_some r.client_request_start && is_some r.client_request_end))

abbrev pub result_data : ℕ → Readings → Executed → ResultData
result_data expected_scheduled_time r executed = record {
  absolute_processing_start = r.absolute_processing_start;
  processing_start = r.processing_start;
  processing_end = r.processing_end;
  request_start = or_time r.request_start r.processing_start;
  request_end = or_time r.request_end r.fallback_end;
  client_request_start = or_time r.client_request_start r.processing_start;
  client_request_end = or_time r.client_request_end r.fallback_end;
  total_ops = executed.total_ops;
  total_ops_unit = executed.total_ops_unit;
  request_meta_data = executed.request_meta_data;
  throughput_throttled = ltb 0 expected_scheduled_time;
}

-- A request that failed, or whose times are missing, is reported.
abbrev pub is_reported : Readings → MetaData → Bool
is_reported r meta_data = (not (is_success meta_data) || not (has_times r)) && not meta_data.skipped
