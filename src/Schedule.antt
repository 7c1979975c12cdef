-- ===== src/Schedule.antt =====
-- osbenchmark/worker_coordinator/worker_coordinator.py: `schedule_for`, `ScheduleHandle` and the two
-- loop controls. The scheduler and the parameter source are arguments. Time is in whole ticks; a
-- second is one tick of the task's periods.
pub mod Iterations
pub mod Periods
pub mod Ramp
pub mod Choice
mod Tests
use solr_benchmark.Prelude.{
  ℕ, zero, suc, ◌+◌, ◌-◌, ◌*◌, Bool, true, false, not, ◌&&◌, ◌||◌, Option, none, some, List, [],
  ◌∷◌, ◌==◌, ltb, leb, if◌then◌else◌, is_some,
}
use solr_benchmark.Result.{Result, ok, raise, benchmark_error}
use solr_benchmark.Workload.{Task}
use solr_benchmark.Allocator.{TaskAllocation}

pub data SampleType : Type 0 where
  warmup normal : SampleType

-- `duration` is a fraction; the source's may be negative where this one is 0, and both are over at
-- once. The warm-up that `schedule_for` passes is never `None`.
pub record TimePeriodBased : Type 0 where
  pub warmup_time_period : ℕ
  pub time_period : Option ℕ
  pub duration : Option (ℕ × ℕ)
  pub start_time : ℕ
  pub now : ℕ

pub record IterationBased : Type 0 where
  pub warmup_iterations : ℕ
  pub iterations : Option ℕ
  pub total_iterations : Option ℕ
  pub it : ℕ

pub data LoopControl : Type 0 where
  time_period_based : TimePeriodBased → LoopControl
  iteration_based : IterationBased → LoopControl

-- The duration of a client, over the number of clients: the last clients stop last.
pub client_duration : ℕ → ℕ → ℕ → ℕ → ℕ × ℕ
client_duration base_duration ramp_down_time_period client_index total_clients =
    if ltb 0 ramp_down_time_period
    then (
      base_duration * total_clients - ramp_down_time_period * (total_clients - 1 - client_index),
      total_clients,
    )
    else (base_duration, 1)

abbrev pub duration_of : ℕ → Option ℕ → ℕ → ℕ → ℕ → Option (ℕ × ℕ)
duration_of warmup_period none ramp_down client_index total_clients = none
duration_of warmup_period (some period) ramp_down client_index total_clients =
    some (client_duration (warmup_period + period) ramp_down client_index total_clients)

-- `TimePeriodBased.__init__`; the clock is read by `start`.
pub new_time_period_based : ℕ → Option ℕ → ℕ → ℕ → ℕ → TimePeriodBased
new_time_period_based warmup_period time_period ramp_down client_index total_clients = record {
  warmup_time_period = warmup_period;
  time_period = time_period;
  duration = duration_of warmup_period time_period ramp_down client_index total_clients;
  start_time = 0;
  now = 0;
}

-- `IterationBased.__init__`; the counter is set by `start`.
pub new_iteration_based : ℕ → Option ℕ → Result IterationBased
new_iteration_based warmup_count none = ok (record {
  warmup_iterations = warmup_count;
  iterations = none;
  total_iterations = none;
  it = 0;
})
new_iteration_based warmup_count (some n) =
    if warmup_count + n == 0
    then raise benchmark_error
    else ok (record {
      warmup_iterations = warmup_count;
      iterations = some n;
      total_iterations = some (warmup_count + n);
      it = 0;
    })

-- The methods and properties of both controls. `t` is the clock's value where the source reads it.
pub start : ℕ → LoopControl → LoopControl
start t (time_period_based c) = time_period_based (record c { start_time = t; now = t })
start t (iteration_based c) = iteration_based (record c { it = 0 })

pub sample_type : LoopControl → SampleType
sample_type (time_period_based c) =
    if ltb (c.now - c.start_time) c.warmup_time_period then warmup else normal
sample_type (iteration_based c) = if ltb c.it c.warmup_iterations then warmup else normal

pub infinite : LoopControl → Bool
infinite (time_period_based c) = not (is_some c.time_period)
infinite (iteration_based c) = not (is_some c.iterations)

-- The progress, as a fraction; it is only read when the control has an end.
abbrev pub elapsed_of : ℕ → Option (ℕ × ℕ) → Option (ℕ × ℕ)
elapsed_of elapsed none = none
elapsed_of elapsed (some (over, clients)) = some (elapsed * clients, over)

abbrev pub counted_of : ℕ → Option ℕ → Option (ℕ × ℕ)
counted_of it none = none
counted_of it (some total) = some (it + 1, total)

pub task_progress : LoopControl → Option (ℕ × ℕ)
task_progress (time_period_based c) = elapsed_of (c.now - c.start_time) c.duration
task_progress (iteration_based c) = counted_of c.it c.total_iterations

abbrev pub is_over : ℕ → Option (ℕ × ℕ) → Bool
is_over elapsed none = false
is_over elapsed (some (over, clients)) = leb over (elapsed * clients)

abbrev pub is_counted : ℕ → Option ℕ → Bool
is_counted it none = false
is_counted it (some total) = leb total it

pub completed : LoopControl → Bool
completed (time_period_based c) = is_over (c.now - c.start_time) c.duration
completed (iteration_based c) = is_counted c.it c.total_iterations

unfoldable pub next : ℕ → LoopControl → LoopControl
next t (time_period_based c) = time_period_based (record c { now = t })
next t (iteration_based c) = iteration_based (record c { it = c.it + 1 })

-- A parameter source with state `σ`: `none` is `StopIteration`.
pub record ParamSource (σ P : Type 0) : Type 0 where
  pub params : σ → Option (P × σ)
  pub is_infinite : Bool
  pub source_progress : σ → Option (ℕ × ℕ)

pub record Scheduler (S : Type 0) : Type 0 where
  pub next_point : S → ℕ → ℕ × S

pub requires_time_period_schedule : Task → Bool → Bool → Bool
requires_time_period_schedule task runner_completes source_infinite =
    if is_some task.warmup_time_period || is_some task.time_period
    then true
    else if is_some task.warmup_iterations || is_some task.iterations
    then false
    else if runner_completes
    then true
    else not source_infinite

-- `n if n else 0`
abbrev pub or_zero : Option ℕ → ℕ
or_zero none = 0
or_zero (some n) = n

abbrev pub iterations_or : Bool → Option ℕ → Option ℕ
iterations_or source_infinite none = if source_infinite then some 1 else none
iterations_or source_infinite (some zero) = if source_infinite then some 1 else none
iterations_or source_infinite (some (suc n)) = some (suc n)

abbrev pub as_loop : Result IterationBased → Result LoopControl
as_loop (raise failure) = raise failure
as_loop (ok c) = ok (iteration_based c)

-- The loop control of `schedule_for`. Whether the runner tells its completion and whether the client's
-- parameter source is infinite are arguments.
pub loop_control_for : TaskAllocation → Bool → Bool → Result LoopControl
unfolding requires_time_period_schedule new_time_period_based new_iteration_based
loop_control_for allocation runner_completes source_infinite =
    let task = allocation.task in
    if requires_time_period_schedule task runner_completes source_infinite
    then ok (
        time_period_based (
          new_time_period_based (or_zero task.warmup_time_period) task.time_period
            (or_zero task.ramp_down_time_period) allocation.client_index_in_task task.clients))
    else as_loop (
        new_iteration_based (or_zero task.warmup_iterations)
          (iterations_or source_infinite task.iterations))

abbrev pub ramp_up_of : Option ℕ → ℕ → ℕ → ℕ × ℕ
ramp_up_of none index total = (0, 1)
ramp_up_of (some zero) index total = (0, 1)
ramp_up_of (some (suc n)) index total = (suc n * index, total)

-- A fraction of a second.
pub ramp_up_wait_time : TaskAllocation → ℕ × ℕ
ramp_up_wait_time a = ramp_up_of a.task.ramp_up_time_period a.global_client_index a.total_clients

pub record Invocation (P : Type 0) : Type 0 where
  pub next_scheduled : ℕ
  pub type : SampleType
  pub progress : Option (ℕ × ℕ)
  pub params : P

module _ {σ P S : Type 0} (source : ParamSource σ P) (sched : Scheduler S) where
  -- The local variables of `ScheduleHandle.__call__`, with the states behind its objects.
  pub record Running : Type 0 where
    pub next_scheduled : ℕ
    pub control : LoopControl
    pub source_state : σ
    pub sched_state : S

  abbrev pub yield_with : Running → ℕ × S → Option (P × σ) → Option (Invocation P × Running)
  yield_with r (point, sched_state) none = none
  yield_with r (point, sched_state) (some (p, source_state)) = some (
    record {
      next_scheduled = point;
      type = sample_type r.control;
      progress =
          if infinite r.control
          then source.source_progress r.source_state
          else task_progress r.control;
      params = p;
    },
    record r { next_scheduled = point; source_state = source_state; sched_state = sched_state },
  )

  -- From the head of the loop to its `yield`; `none` is the end of the generator.
  pub yield_next : Running → Option (Invocation P × Running)
  unfolding infinite completed sample_type task_progress
  yield_next r =
      if not (infinite r.control) && completed r.control
      then none
      else yield_with r (sched.next_point r.sched_state r.next_scheduled)
          (source.params r.source_state)

  abbrev pub follow :
      Option (Invocation P × Running) → (Running → List (Invocation P)) → List (Invocation P)
  follow none rest = []
  follow (some (i, r)) rest = i ∷ rest r

  -- The invocations up to the point where the generator ends or is not resumed any more. Each time
  -- it is resumed, the loop control's `next` finds the clock's next reading.
  pub invocations : List ℕ → Running → List (Invocation P)
  unfolding yield_next next
  invocations [] r = follow (yield_next r) (λ _. [])
  invocations (t ∷ readings) r =
      follow (yield_next r) (λ q. invocations readings (record q { control = next t q.control }))
