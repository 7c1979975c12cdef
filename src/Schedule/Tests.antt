-- ===== src/Schedule/Tests.antt =====
-- The schedules of a constant parameter source with a steady scheduler.
use solr_benchmark.Prelude.{
  ℕ, ◌+◌, ◌-◌, ◌*◌, ◌≤◌, ◌<◌, ◌≡◌, refl, true, false, not, ◌&&◌, none, some, [], ◌∷◌, map, leb,
  arith, is_some,
}
use solr_benchmark.Workload.{Task}
use solr_benchmark.Allocator.{TaskAllocation}
use solr_benchmark.Schedule.{
  warmup, normal, IterationBased, iteration_based, time_period_based, ParamSource, Scheduler,
  invocations, start, new_iteration_based, new_time_period_based, client_duration, is_over,
  ramp_up_wait_time, loop_control_for, requires_time_period_schedule, infinite, LoopControl,
}
use solr_benchmark.Schedule.Iterations.{marks, running_at, iteration_marks, marks-invocations}
use solr_benchmark.Schedule.Periods.{types, type_at, take_while, is_early, types-invocations}
use solr_benchmark.Schedule.Ramp.{client_duration_lem, ramp_up_wait_time_lem}
use solr_benchmark.Schedule.Choice.{loop_control_for_lem}

abbrev source : ParamSource ℕ ℕ
source = record { params = λ s. some (s, s + 1); is_infinite = true; source_progress = λ _. none }

abbrev steady : Scheduler ℕ
steady = record { next_point = λ q point. (point + 2, q) }

abbrev control : IterationBased
control = record { warmup_iterations = 1; iterations = some 2; total_iterations = some 3; it = 0 }

marks-invocations_example :
    marks source steady (
      invocations source steady
        (7 ∷ 8 ∷ 9 ∷ [])
        (running_at source steady 0 (start 5 (iteration_based control)) 0 0))
    ≡ iteration_marks 1 2
unfolding new_iteration_based
marks-invocations_example =
    marks-invocations source steady (λ s. (s, s + 1, refl)) 1 2 control 5 (7 ∷ 8 ∷ 9 ∷ []) 0 0 refl
      (omega arith)

types-invocations_example :
    types (
      invocations source steady (14 ∷ 18 ∷ 21 ∷ []) (
        running_at source steady 0
          (start 10 (time_period_based (new_time_period_based 5 (some 6) 2 0 2)))
          0
          0))
    ≡ map
        (type_at 5 10)
        (take_while (is_early (client_duration (5 + 6) 2 0 2) 10) (10 ∷ 14 ∷ 18 ∷ 21 ∷ []))
types-invocations_example =
    types-invocations source steady (λ s. (s, s + 1, refl)) 5 6 2 0 2 10 (14 ∷ 18 ∷ 21 ∷ []) 0 0

-- One tick before its time the first of two clients stops, ten ticks after the start.
early_types :
    map
      (type_at 5 10)
      (take_while (is_early (client_duration (5 + 6) 2 0 2) 10) (10 ∷ 14 ∷ 18 ∷ 20 ∷ 21 ∷ []))
    ≡ warmup ∷ warmup ∷ normal ∷ []
unfolding client_duration
early_types = refl

duration_of_client :
    ((is_over 10 (some (client_duration 11 2 1 2)) ≡ true)
      → is_over 10 (some (client_duration 11 2 0 2)) ≡ true)
    × (is_over 10 (some (client_duration 11 2 (2 - 1) 2)) ≡ leb 11 10)
duration_of_client = client_duration_lem 11 2 2 0 1 10 (omega arith) (omega arith)

abbrev search : Task
search = record {
  name = "search";
  operation = record { name = "search"; op_type = "search" };
  tags = [];
  warmup_iterations = none;
  iterations = none;
  warmup_time_period = some 3;
  time_period = none;
  ramp_up_time_period = some 4;
  ramp_down_time_period = none;
  clients = 3;
  completes_parent = false;
  schedule = none;
}

abbrev of_client : ℕ → TaskAllocation
of_client i = record {
  task = search;
  client_index_in_task = i;
  global_client_index = i;
  total_clients = 3;
}

waits_in_order :
    ((ramp_up_wait_time (of_client 1)).0 ≤ (ramp_up_wait_time (of_client 2)).0)
    × ((ramp_up_wait_time (of_client 2)).0 < 4 * (ramp_up_wait_time (of_client 2)).1)
    × ((ramp_up_wait_time (of_client 1)).1 ≡ (ramp_up_wait_time (of_client 2)).1)
waits_in_order =
    ramp_up_wait_time_lem 3 (of_client 1) (of_client 2) refl refl refl (omega arith) (omega arith)

abbrev eternal : LoopControl
eternal = time_period_based (record {
  warmup_time_period = 3;
  time_period = none;
  duration = none;
  start_time = 0;
  now = 0;
})

ends_by_itself :
    infinite eternal
    ≡ (requires_time_period_schedule search false true && not (is_some search.time_period))
unfolding loop_control_for
ends_by_itself = loop_control_for_lem (of_client 0) false eternal refl
