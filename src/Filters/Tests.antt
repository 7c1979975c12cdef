-- ===== src/Filters/Tests.antt =====
-- Filters on a schedule of a task and a parallel element of two tasks.
use solr_benchmark.Prelude.{String, ◌≡◌, refl, true, false, none, some, List, [], ◌∷◌}
use solr_benchmark.Result.{ok}
use solr_benchmark.Workload.{Task, Element, single, parallel}
use solr_benchmark.Filters.{
  task_name_filter, task_tag_filter, same_task, same_element, filter_schedule,
  on_after_load_workload, filters_from_filtered_tasks, element_matches, matches,
}
use solr_benchmark.Filters.Leaves.{IsFiltered, IsFiltered-filter_schedule}

abbrev task : String → List String → Task
task name tags = record {
  name = name;
  operation = record { name = name; op_type = "search" };
  tags = tags;
  warmup_iterations = none;
  iterations = some 100;
  warmup_time_period = none;
  time_period = none;
  ramp_up_time_period = none;
  ramp_down_time_period = none;
  clients = 1;
  completes_parent = false;
  schedule = none;
}

abbrev schedule : List Element
schedule =
    single (task "index" [])
    ∷ parallel (task "term" ("slow" ∷ []) ∷ task "phrase" [] ∷ []) none
    ∷ []

IsFiltered-filter_schedule_example :
    IsFiltered true
      (task_tag_filter "slow" ∷ [])
      schedule
      (filter_schedule true (task_tag_filter "slow" ∷ []) schedule)
unfolding same_task same_element matches element_matches
IsFiltered-filter_schedule_example =
    IsFiltered-filter_schedule true (task_tag_filter "slow" ∷ []) schedule
      (tt, (((refl, tt), (tt, tt)), tt)) ((refl, tt), (tt, tt))

without_slow :
    on_after_load_workload true (task_tag_filter "slow" ∷ []) schedule
    ≡ ok (single (task "index" []) ∷ parallel (task "phrase" [] ∷ []) none ∷ [])
unfolding on_after_load_workload same_task same_element
without_slow = refl

only_term :
    on_after_load_workload false (task_name_filter "term" ∷ []) schedule
    ≡ ok (parallel (task "term" ("slow" ∷ []) ∷ []) none ∷ [])
unfolding on_after_load_workload same_task same_element
only_term = refl

filters :
    filters_from_filtered_tasks (("term" ∷ []) ∷ ("tag" ∷ "slow" ∷ []) ∷ [])
    ≡ ok (task_name_filter "term" ∷ task_tag_filter "slow" ∷ [])
unfolding filters_from_filtered_tasks
filters = refl
