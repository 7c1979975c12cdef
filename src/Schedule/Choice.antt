-- ===== src/Schedule/Choice.antt =====
-- Which loop control `schedule_for` chooses.
use solr_benchmark.Prelude.{
  ℕ, zero, suc, ◌+◌, ◌==◌, ◌≡◌, refl, Bool, true, false, not, ◌&&◌, Option, none, some, is_some,
  Bool-cases, inl, inr,
}
use solr_benchmark.Result.{ok}
use solr_benchmark.Allocator.{TaskAllocation}
use solr_benchmark.Schedule.{
  LoopControl, iteration_based, time_period_based, loop_control_for, requires_time_period_schedule,
  new_time_period_based, new_iteration_based, as_loop, iterations_or, or_zero, infinite,
}

finite_count :
    (w n : ℕ) (c : LoopControl)
    → as_loop (new_iteration_based w (some n)) ≡ ok c
    → infinite c ≡ false
unfolding new_iteration_based infinite
finite_count w n c e = elim (Bool-cases (w + n == 0)) [
  | inl none_at_all ↦ cc (rw none_at_all at e)
  | inr some_left ↦
      let counter = iteration_based (record {
        warmup_iterations = w;
        iterations = some n;
        total_iterations = some (w + n);
        it = 0;
      }) in
      let made : ok counter ≡ ok c = rw some_left at e in
      let same : counter ≡ c = cc made in rw (← same) refl
]

finite_iterations :
    (w : ℕ) (n : Option ℕ) (c : LoopControl)
    → as_loop (new_iteration_based w (iterations_or true n)) ≡ ok c
    → infinite c ≡ false
finite_iterations w none = finite_count w 1
finite_iterations w (some zero) = finite_count w 1
finite_iterations w (some (suc n)) = finite_count w (suc n)

-- With an endless parameter source, the schedule ends by itself unless the task, or a runner that
-- tells its completion, asks for a schedule by time and the task has no time period.
pub loop_control_for_lem :
    (a : TaskAllocation) (runner_completes : Bool) (c : LoopControl)
    → loop_control_for a runner_completes true ≡ ok c
    → infinite c ≡ (
        requires_time_period_schedule a.task runner_completes true
        && not (is_some a.task.time_period))
unfolding loop_control_for infinite new_time_period_based
loop_control_for_lem a runner_completes c e =
    elim (Bool-cases (requires_time_period_schedule a.task runner_completes true)) [
      | inl by_time ↦
          let control = time_period_based (
            new_time_period_based (or_zero a.task.warmup_time_period) a.task.time_period
              (or_zero a.task.ramp_down_time_period) a.client_index_in_task a.task.clients) in
          let made : ok control ≡ ok c = rw by_time at e in
          let same : control ≡ c = cc made in rw (by_time, ← same) refl
      | inr by_count ↦ rw by_count (
          finite_iterations (or_zero a.task.warmup_iterations) a.task.iterations c
            (rw by_count at e))
    ]
