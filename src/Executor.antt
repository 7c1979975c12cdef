-- ===== src/Executor.antt =====
-- osbenchmark/worker_coordinator/worker_coordinator.py: `execute_single`, and what it makes of a runner.
-- A runner is what its call comes to. Of the meta data of a request the entries are modelled that are
-- read. What is written to the console and the log is not.
pub mod Sampler
pub mod Request
pub mod Loop
pub mod Failing
pub mod Timing
pub mod Answered
pub mod Turns
pub mod Pacing
mod Tests
use text.Mathlib.Text.{◌==◌ as str_eq}
use solr_benchmark.Prelude.{
  ℕ, ◌≡◌, refl, String, Bool, true, false, not, ◌&&◌, ◌||◌, Option, none, some, List, [], ◌∷◌,
  if◌then◌else◌,
}
use solr_benchmark.Result.{
  Result, ok, raise, Failure, system_setup_error, assertion_error, unbound_local_error,
}

-- An entry of `dependent_timing`.
pub record Dependent : Type 0 where
  pub absolute_time : ℕ
  pub request_start : ℕ
  pub service_time : ℕ

pub record MetaData : Type 0 where
  pub success : Option Bool
  pub skipped_request : Bool
  pub skipped : Bool
  pub error_type : Option String
  pub http_status : Option ℕ
  pub error_description : Option String
  pub throughput : Option (ℕ × ℕ)
  pub dependent_timing : Option (List Dependent)

abbrev pub no_meta_data : MetaData
no_meta_data = record {
  success = none;
  skipped_request = false;
  skipped = false;
  error_type = none;
  http_status = none;
  error_description = none;
  throughput = none;
  dependent_timing = none;
}

-- A `BenchmarkTransportError`; the description is made of its error and info, or its text.
pub record TransportError : Type 0 where
  pub is_connection_error : Bool
  pub is_connection_timeout : Bool
  pub status_code : Option ℕ
  pub description : String

-- What a call of a runner returns or raises.
pub data Outcome : Type 0 where
  pair : ℕ → String → Outcome
  dict : Option ℕ → Option String → MetaData → Outcome
  other_value : Outcome
  missing_key : Outcome
  transport_error : TransportError → Outcome
  raised : Failure → Outcome

-- The triple that is returned.
pub record Executed : Type 0 where
  pub total_ops : ℕ
  pub total_ops_unit : String
  pub request_meta_data : MetaData

abbrev pub ops_or_one : Option ℕ → ℕ
ops_or_one none = 1
ops_or_one (some weight) = weight

abbrev pub unit_or_ops : Option String → String
unit_or_ops none = "ops"
unit_or_ops (some unit) = unit

abbrev pub success_or_true : Option Bool → Option Bool
success_or_true none = some true
success_or_true (some success) = some success

abbrev pub succeeded : ℕ → String → Executed
succeeded ops unit = record {
  total_ops = ops;
  total_ops_unit = unit;
  request_meta_data = record no_meta_data { success = some true };
}

abbrev pub description_of : TransportError → String
description_of e = if e.is_connection_timeout then "network connection timed out" else e.description

abbrev pub transport_failed : TransportError → Executed
transport_failed e = record {
  total_ops = 0;
  total_ops_unit = "ops";
  request_meta_data = record no_meta_data {
    success = some false;
    error_type = some "transport";
    http_status = e.status_code;
    error_description = some (description_of e);
  };
}

-- A missing key is an error of the set-up; in a redline test it is passed over, and the next line reads
-- meta data that was never assigned.
abbrev pub on_missing_key : Bool → Result (Executed × Bool)
on_missing_key redline_enabled =
    if redline_enabled then raise unbound_local_error else raise system_setup_error

-- The `try` of `execute_single`: the triple, and whether the error is fatal.
pub attempt : Outcome → Bool → Result (Executed × Bool)
attempt (pair ops unit) redline_enabled = ok (succeeded ops unit, false)
attempt (dict weight unit meta_data) redline_enabled = ok (
  record {
    total_ops = ops_or_one weight;
    total_ops_unit = unit_or_ops unit;
    request_meta_data = record meta_data { success = success_or_true meta_data.success };
  },
  false,
)
attempt other_value redline_enabled = ok (succeeded 1 "ops", false)
attempt missing_key redline_enabled = on_missing_key redline_enabled
attempt (transport_error e) redline_enabled = ok (transport_failed e, e.is_connection_error)
attempt (raised failure) redline_enabled = raise failure

-- request_meta_data["success"]
abbrev pub is_success : MetaData → Bool
is_success meta_data = elim meta_data.success [ none ↦ false | some success ↦ success ]

abbrev pub is_abort : String → Bool
is_abort on_error = str_eq on_error "abort"

-- A failed request ends the benchmark when it is to, or is fatal, but not in a redline test.
abbrev pub checked : String → Bool → Executed × Bool → Result Executed
checked on_error redline_enabled attempted =
    if not (is_success attempted.0.request_meta_data)
      && ((is_abort on_error || attempted.1) && not redline_enabled)
    then raise assertion_error
    else ok attempted.0

-- The result for a client that is paused.
abbrev pub skipped_execution : Executed
skipped_execution = record {
  total_ops = 0;
  total_ops_unit = "ops";
  request_meta_data = record no_meta_data { success = some true; skipped_request = true };
}

abbrev pub check_attempt : String → Bool → Result (Executed × Bool) → Result Executed
check_attempt on_error redline_enabled (raise failure) = raise failure
check_attempt on_error redline_enabled (ok attempted) = checked on_error redline_enabled attempted

pub execute_single : Outcome → String → Bool → Bool → Result Executed
unfolding attempt
execute_single outcome on_error redline_enabled client_enabled =
    if client_enabled
    then check_attempt on_error redline_enabled (attempt outcome redline_enabled)
    else ok skipped_execution
