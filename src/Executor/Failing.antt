-- ===== src/Executor/Failing.antt =====
-- osbenchmark/worker_coordinator/worker_coordinator.py: when `execute_single` raises.
use solr_benchmark.Prelude.{
  ℕ, ◌≡◌, refl, sym, ap, String, Bool, true, false, not, ◌&&◌, ◌||◌, Option, none, some,
  if◌then◌else◌, ◌⊎◌, inl, inr,
}
use mathlib.Core.Path.{subst}
use solr_benchmark.Result.{
  Result, ok, raise, Failure, system_setup_error, assertion_error, unbound_local_error,
}
use solr_benchmark.Executor.{
  MetaData, Outcome, pair, dict, other_value, missing_key, transport_error, raised, Executed,
  is_success, is_abort, skipped_execution, execute_single, checked, attempt,
}

-- The request was answered, but not with success, or not at all.
abbrev pub is_failed : Outcome → Bool
is_failed (pair ops unit) = false
is_failed (dict weight unit meta_data) = elim meta_data.success [
  | none ↦ false
  | some success ↦ not success
]
is_failed other_value = false
is_failed missing_key = true
is_failed (transport_error e) = true
is_failed (raised failure) = true

abbrev pub is_fatal : Outcome → Bool
is_fatal (transport_error e) = e.is_connection_error
is_fatal (pair ops unit) = false
is_fatal (dict weight unit meta_data) = false
is_fatal other_value = false
is_fatal missing_key = false
is_fatal (raised failure) = false

-- The outcomes that stop the task: those that are not the request's own failure, a missing key even in
-- a redline test, and outside of one a failure that is fatal or that the benchmark is to abort on.
abbrev pub stops : Outcome → String → Bool → Bool
stops (raised failure) on_error redline_enabled = true
stops missing_key on_error redline_enabled = true
stops outcome on_error redline_enabled =
    is_failed outcome && ((is_abort on_error || is_fatal outcome) && not redline_enabled)

abbrev pub IsExecuted : Bool → Bool → Result Executed → Type 0
IsExecuted stopped success result =
    ((stopped ≡ true) × (failure : Failure) × (result ≡ raise failure))
    ⊎ ((stopped ≡ false)
        × (executed : Executed) × (result ≡ ok executed)
        × (executed.request_meta_data.success ≡ some success))

IsExecuted-either :
    (success stop : Bool) (executed : Executed)
    → executed.request_meta_data.success ≡ some success
    → IsExecuted
        (not success && stop)
        success
        (if not success && stop then raise assertion_error else ok executed)
IsExecuted-either true stop executed e = inr (refl, executed, refl, e)
IsExecuted-either false true executed e = inl (refl, assertion_error, refl)
IsExecuted-either false false executed e = inr (refl, executed, refl, e)

-- The check of an attempt whose success is known.
IsExecuted-checked :
    (on_error : String) (redline_enabled fatal success : Bool) (executed : Executed)
    → executed.request_meta_data.success ≡ some success
    → IsExecuted
        (not success && ((is_abort on_error || fatal) && not redline_enabled))
        success
        (checked on_error redline_enabled (executed, fatal))
IsExecuted-checked on_error redline_enabled fatal success executed e =
    let stop = (is_abort on_error || fatal) && not redline_enabled in
    let known : is_success executed.request_meta_data ≡ success =
      ap (λ s. elim s [ none ↦ false | some b ↦ b ]) e in
    subst
      (λ s.
        IsExecuted (not success && stop) success
          (if not s && stop then raise assertion_error else ok executed))
      (sym known) (IsExecuted-either success stop executed e)

IsExecuted-dict :
    (weight : Option ℕ) (unit : Option String) (meta_data : MetaData) (on_error : String)
    (redline : Bool)
    → (success : Option Bool)
    → let answered = dict weight unit (record meta_data { success = success }) in
      IsExecuted
        (stops answered on_error redline)
        (not (is_failed answered))
        (execute_single answered on_error redline true)
unfolding execute_single attempt
IsExecuted-dict weight unit meta_data on_error redline none =
    IsExecuted-checked on_error redline false true _ refl
IsExecuted-dict weight unit meta_data on_error redline (some true) =
    IsExecuted-checked on_error redline false true _ refl
IsExecuted-dict weight unit meta_data on_error redline (some false) =
    IsExecuted-checked on_error redline false false _ refl

-- `execute_single` raises exactly when the client is active and the outcome stops the task: an error
-- that is not the request's own, a missing key, and, outside of a redline test, a failed request that
-- is fatal or is to abort the benchmark. Otherwise it returns, and its meta data say whether the
-- request succeeded; a paused client's request counts as a success.
pub execute_single_lem :
    (outcome : Outcome) (on_error : String) (redline_enabled client_enabled : Bool)
    → IsExecuted
        (client_enabled && stops outcome on_error redline_enabled)
        (not (client_enabled && is_failed outcome))
        (execute_single outcome on_error redline_enabled client_enabled)
unfolding execute_single attempt
execute_single_lem outcome on_error redline false = inr (refl, skipped_execution, refl, refl)
execute_single_lem (pair ops unit) on_error redline true =
    IsExecuted-checked on_error redline false true _ refl
execute_single_lem other_value on_error redline true =
    IsExecuted-checked on_error redline false true _ refl
execute_single_lem (raised failure) on_error redline true = inl (refl, failure, refl)
execute_single_lem missing_key on_error true true = inl (refl, unbound_local_error, refl)
execute_single_lem missing_key on_error false true = inl (refl, system_setup_error, refl)
execute_single_lem (transport_error e) on_error redline true =
    IsExecuted-checked on_error redline e.is_connection_error false _ refl
execute_single_lem (dict weight unit meta_data) on_error redline true =
    IsExecuted-dict weight unit meta_data on_error redline meta_data.success
