-- ===== src/Throughput/Tasks.antt =====
-- osbenchmark/worker_coordinator/worker_coordinator.py: the samples of all tasks in `ThroughputCalculator`.
use solr_benchmark.Prelude.{ℕ, Option, none, some, List, [], ◌∷◌, ◌++◌, map, leb, if◌then◌else◌}
use solr_benchmark.Prelude.Dict.{Key, Dict, get, put}
use solr_benchmark.Throughput.{OpSample, TaskStats, ThroughputSample, calculate_task_throughput}

abbrev pub map_sample : OpSample → ThroughputSample
map_sample s = record {
  absolute_time = s.absolute_time;
  relative_time = s.relative_time;
  sample_type = s.sample_type;
  throughput = s.throughput;
  ops_unit = s.total_ops_unit;
}

pub map_task_throughput : List OpSample → List ThroughputSample
map_task_throughput current_samples = map map_sample current_samples

-- sorted(samples, key=lambda s: s.absolute_time), which is stable
pub insert_sample : OpSample → List OpSample → List OpSample
insert_sample s [] = s ∷ []
insert_sample s (t ∷ samples) =
    let rest = insert_sample s samples in
    if leb s.absolute_time t.absolute_time then s ∷ t ∷ samples else t ∷ rest

pub sort_samples : List OpSample → List OpSample
unfolding insert_sample
sort_samples [] = []
sort_samples (s ∷ samples) = insert_sample s (sort_samples samples)

abbrev pub list_or_empty : Option (List OpSample) → List OpSample
list_or_empty none = []
list_or_empty (some samples) = samples

abbrev pub unprocessed_of : Option TaskStats → List OpSample
unprocessed_of none = []
unprocessed_of (some stats) = stats.unprocessed

module _ {K : Type 0} ⦃key : Key K⦄ (second bucket_interval : ℕ) where
  -- The samples of each task, in the order of the samples.
  pub group_samples : List (K × OpSample) → Dict K (List OpSample) → Dict K (List OpSample)
  group_samples [] samples_per_task = samples_per_task
  group_samples ((k, s) ∷ samples) samples_per_task =
      group_samples samples
        (put k (list_or_empty (get k samples_per_task) ++ s ∷ []) samples_per_task)

  -- The body of the second loop of `calculate`, for the samples of one task in their order. No task
  -- has an empty list, for which the source would raise.
  abbrev pub calculate_sorted :
      K
      → List OpSample
      → Option TaskStats
      → Dict K TaskStats
      → Dict K TaskStats × List ThroughputSample
  calculate_sorted task [] known task_stats = (task_stats, [])
  calculate_sorted task (first_sample ∷ others) known task_stats = elim first_sample.throughput [
    | none ↦
        let (stats, result) =
          calculate_task_throughput second bucket_interval first_sample others known in
        (put task stats task_stats, result)
    | some _ ↦ (task_stats, map_task_throughput (first_sample ∷ others))
  ]

  pub calculate_groups :
      Dict K (List OpSample) → Dict K TaskStats → Dict K TaskStats × Dict K (List ThroughputSample)
  unfolding sort_samples calculate_task_throughput map_task_throughput
  calculate_groups [] task_stats = (task_stats, [])
  calculate_groups ((task, samples) ∷ groups) task_stats =
      let known = get task task_stats in
      let (next_stats, result) =
        calculate_sorted task (sort_samples (samples ++ unprocessed_of known)) known task_stats in
      let (last_stats, results) = calculate_groups groups next_stats in
      (last_stats, (task, result) ∷ results)

  -- The calculator's state is `task_stats`.
  unfoldable pub calculate :
      List (K × OpSample) → Dict K TaskStats → Dict K TaskStats × Dict K (List ThroughputSample)
  unfolding group_samples calculate_groups
  calculate samples task_stats = calculate_groups (group_samples samples []) task_stats
