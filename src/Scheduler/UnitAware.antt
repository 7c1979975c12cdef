-- ===== src/Scheduler/UnitAware.antt =====
-- osbenchmark/worker_coordinator/scheduler.py: `scheduler_for`, the built-in schedulers and
-- `UnitAwareScheduler`. A time is a fraction. What a scheduler of the user does, and the random
-- number that the Poisson scheduler draws for a rate, are arguments.
use solr_benchmark.Prelude.{
  ℕ, ◌+◌, ◌*◌, String, Bool, true, false, not, ◌&&◌, ◌||◌, Option, none, some, ◌++◌, ◌==◌, ltb,
  if◌then◌else◌, is_some,
}
use text.Mathlib.Text.{◌==◌ as str_eq}
use solr_benchmark.Prelude.Dict.{get, string_key}
use solr_benchmark.Prelude.Text.{Text, codes, equal_texts}
use solr_benchmark.Result.{
  Result, ok, raise, ◌>>=◌, zero_division, type_error, attribute_error, assertion_error,
}
use solr_benchmark.Scheduler.{
  SchedulerClass, Registered, class, delegating, Registry, Chosen, unthrottled, found_scheduler,
  schedule_name, run_unthrottled,
}
use solr_benchmark.Scheduler.Target.{Param, Target, target_throughput, ops_per_second}

abbrev pub choose : Registry → Option String → Option Target → Result Chosen
choose schedulers schedule target =
    if run_unthrottled (is_some target) schedule
    then ok unthrottled
    else found_scheduler (get (schedule_name schedule) schedulers)

-- `scheduler_for` of a task with this interval, throughput and schedule.
unfoldable pub scheduler_for : Registry → Param → Param → Option String → Result Chosen
unfolding run_unthrottled
scheduler_for schedulers interval throughput schedule = do
  target ← target_throughput interval throughput
  choose schedulers schedule target

-- A time or a rate: a numerator and a denominator.
abbrev pub Fraction : Type 0
Fraction = ℕ × ℕ

abbrev pub plus : Fraction → Fraction → Fraction
plus p q = (p.0 * q.1 + q.0 * p.1, p.1 * q.1)

-- The scheduler that a `UnitAwareScheduler` delegates to; the last two keep the rate.
pub data Inner : Type 0 where
  free : Inner
  deterministic : Fraction → Inner
  poisson : Fraction → Inner
  custom : SchedulerClass → Fraction → Inner

-- `self.scheduler_class(self.task, target_throughput)`. A wait is one over the rate; a function that
-- wraps a function takes one argument and is given two.
abbrev pub instance_of : Registered → Fraction → Result Inner
instance_of delegating rate = raise type_error
instance_of (class c) rate =
    if str_eq c.class_name "deterministic"
    then (if rate.0 == 0 then raise zero_division else ok (deterministic (rate.1, rate.0)))
    else if str_eq c.class_name "poisson"
    then ok (poisson rate)
    else ok (custom c rate)

pub record UnitAwareScheduler : Type 0 where
  -- Of the task.
  pub target : Option Target
  pub task_clients : ℕ
  pub first_request : Bool
  pub current_weight : Option ℕ
  pub scheduler_class : Registered
  pub scheduler : Inner

abbrev pub new_unit_aware : Option Target → ℕ → Registered → UnitAwareScheduler
new_unit_aware target task_clients scheduler_class = record {
  target = target;
  task_clients = task_clients;
  first_request = true;
  current_weight = none;
  scheduler_class = scheduler_class;
  scheduler = free;
}

abbrev pub is_weight : ℕ → Option ℕ → Bool
is_weight weight none = false
is_weight weight (some current) = current == weight

-- The weight that throttles: 1 for a target in operations whatever the unit of the response is.
abbrev pub throttled_weight : Text → ℕ → Text → Result ℕ
throttled_weight expected_unit weight actual_unit =
    if equal_texts actual_unit expected_unit
    then ok weight
    else if equal_texts expected_unit ops_per_second
    then ok 1
    else raise assertion_error

-- self.task.target_throughput.value / self.task.clients / self.current_weight
abbrev pub rate_of : Target → ℕ → ℕ → Result Fraction
rate_of target task_clients weight =
    if task_clients == 0
    then raise zero_division
    else ok (target.numerator, target.denominator * task_clients * weight)

abbrev pub rescheduled : UnitAwareScheduler → ℕ → Inner → UnitAwareScheduler
rescheduled s weight inner = record s {
  first_request = false;
  current_weight = some weight;
  scheduler = inner;
}

abbrev pub adjust : UnitAwareScheduler → Option Target → ℕ → Text → Result UnitAwareScheduler
adjust s none weight actual_unit = raise attribute_error
adjust s (some target) weight actual_unit = do
  throttled ← throttled_weight target.target_unit weight actual_unit
  rate ← rate_of target s.task_clients throttled
  inner ← instance_of s.scheduler_class rate
  ok (rescheduled s throttled inner)

unfoldable pub after_request : ℕ → Text → UnitAwareScheduler → Result UnitAwareScheduler
after_request weight unit s =
    if ltb 0 weight && (s.first_request || not (is_weight weight s.current_weight))
    then adjust s s.target weight (unit ++ codes "/s")
    else ok s

module _ (expovariate : Fraction → Fraction)
    (custom_next : SchedulerClass → Fraction → Fraction → Fraction) where
  unfoldable pub next_of : Inner → Fraction → Fraction
  next_of free current = (0, 1)
  next_of (deterministic wait_time) current = plus current wait_time
  next_of (poisson rate) current = plus current (expovariate rate)
  next_of (custom c rate) current = custom_next c rate current

  -- next
  unfoldable pub next_time : UnitAwareScheduler → Fraction → Fraction
  unfolding next_of
  next_time s current = next_of s.scheduler current
