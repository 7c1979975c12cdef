-- ===== src/Scheduler.antt =====
-- osbenchmark/worker_coordinator/scheduler.py: the registry of schedulers and the choice of a task's
-- scheduler. A class is what `inspect` tells of it: the parameters of its constructor, its methods.
pub mod Target
pub mod UnitAware
pub mod Paced
pub mod Driven
pub mod Due
mod Tests
use text.Mathlib.Text.{◌==◌ as str_eq}
use solr_benchmark.Prelude.{
  ℕ, ◌≡◌, refl, String, Bool, true, false, not, ◌&&◌, ◌||◌, Option, none, some, List, [], ◌∷◌, leb,
  if◌then◌else◌, all, any, length, is_some,
}
use solr_benchmark.Prelude.Dict.{Dict, get, put, has, string_key}
use solr_benchmark.Result.{Result, ok, raise, ◌>>=◌, system_setup_error, benchmark_error, key_error}

pub record SchedulerClass : Type 0 where
  pub class_name : String
  pub constructor_params : List String
  pub methods : List String

pub data Registered : Type 0 where
  class : SchedulerClass → Registered
  -- `lambda _: DelegatingScheduler(scheduler)` for a function.
  delegating : Registered

-- __SCHEDULERS
abbrev pub Registry : Type 0
Registry = Dict String Registered

-- x in names
abbrev pub is_among : String → List String → Bool
is_among name names = any (str_eq name) names

-- What the signature of a function's `__init__` shows: a slot of any arguments.
abbrev pub params_of : Registered → List String
params_of (class c) = c.constructor_params
params_of delegating = "self" ∷ "args" ∷ "kwargs" ∷ []

abbrev pub methods_of : Registered → List String
methods_of (class c) = c.methods
methods_of delegating = []

pub is_legacy_scheduler : Registered → Bool
is_legacy_scheduler scheduler_class =
    leb 2 (length (params_of scheduler_class)) && is_among "params" (params_of scheduler_class)

pub is_simple_scheduler : Registered → Bool
is_simple_scheduler scheduler_class = not (
    all (λ scheduler_method. is_among scheduler_method (methods_of scheduler_class))
      ("before_request" ∷ "after_request" ∷ "next" ∷ []))

-- A function, and every other object.
pub data Candidate : Type 0 where
  function : Candidate
  object : SchedulerClass → Candidate

abbrev pub entry_of : Candidate → Registered
entry_of function = delegating
entry_of (object c) = class c

pub register_scheduler : String → Candidate → Registry → Result Registry
register_scheduler name scheduler schedulers =
    if has name schedulers
    then raise system_setup_error
    else ok (put name (entry_of scheduler) schedulers)

-- del __SCHEDULERS[name]
abbrev pub without : String → Registry → Registry
without name [] = []
without name ((other, scheduler) ∷ schedulers) =
    let rest = without name schedulers in
    if str_eq other name then rest else (other, scheduler) ∷ rest

unfoldable pub remove_scheduler : String → Registry → Result Registry
remove_scheduler name schedulers =
    if has name schedulers then ok (without name schedulers) else raise key_error

abbrev pub deterministic_class : SchedulerClass
deterministic_class = record {
  class_name = "deterministic";
  constructor_params = "self" ∷ "task" ∷ "target_throughput" ∷ [];
  methods = "__init__" ∷ "__str__" ∷ "next" ∷ [];
}

abbrev pub poisson_class : SchedulerClass
poisson_class = record {
  class_name = "poisson";
  constructor_params = "self" ∷ "task" ∷ "target_throughput" ∷ [];
  methods = "__init__" ∷ "__str__" ∷ "next" ∷ [];
}

-- The registry once the module is loaded.
abbrev pub built_in : Result Registry
built_in = do
  schedulers ← register_scheduler "deterministic" (object deterministic_class) []
  register_scheduler "poisson" (object poisson_class) schedulers

-- `task.schedule in [None, PoissonScheduler.name, DeterministicScheduler.name]`
abbrev pub is_built_in : Option String → Bool
is_built_in none = true
is_built_in (some schedule) = is_among schedule ("poisson" ∷ "deterministic" ∷ [])

pub run_unthrottled : Bool → Option String → Bool
run_unthrottled has_target schedule = not has_target && is_built_in schedule

-- `task.schedule or DeterministicScheduler.name`
abbrev pub schedule_name : Option String → String
schedule_name none = "deterministic"
schedule_name (some schedule) = if str_eq schedule "" then "deterministic" else schedule

-- The scheduler that is made.
pub data Chosen : Type 0 where
  unthrottled : Chosen
  legacy_wrapping unit_aware : Registered → Chosen
  regular : Registered → Chosen

abbrev pub choice_for : Registered → Chosen
choice_for scheduler_class =
    if is_legacy_scheduler scheduler_class
    then legacy_wrapping scheduler_class
    else if is_simple_scheduler scheduler_class
    then unit_aware scheduler_class
    else regular scheduler_class

abbrev pub found_scheduler : Option Registered → Result Chosen
found_scheduler none = raise benchmark_error
found_scheduler (some scheduler_class) = ok (choice_for scheduler_class)
