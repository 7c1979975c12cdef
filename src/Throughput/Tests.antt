-- ===== src/Throughput/Tests.antt =====
-- The throughput of a few bulk requests.
use solr_benchmark.Prelude.{ℕ, String, ◌≡◌, refl, true, none, some, [], ◌∷◌, All}
use solr_benchmark.Prelude.Dict.{get, put, string_key}
use solr_benchmark.Schedule.{normal}
use solr_benchmark.Throughput.{OpSample, TaskStats, calculate_task_throughput, stats_or_new}
use solr_benchmark.Throughput.Tasks.{calculate}
use solr_benchmark.Throughput.Counts.{IsConserved, IsConserved-calculate_task_throughput, ops}
use solr_benchmark.Throughput.Measures.{IsMeasured, AreMeasured-calculate_task_throughput}

abbrev sample_at : ℕ → OpSample
sample_at t = record {
  absolute_time = t;
  relative_time = t;
  sample_type = normal;
  total_ops = 500;
  total_ops_unit = "docs";
  time_period = 10;
  throughput = none;
}

abbrev known_stats : TaskStats
known_stats = record {
  unprocessed = sample_at 2400 ∷ [];
  total_count = 1000;
  interval = 400;
  bucket_interval = 1000;
  bucket = 1000;
  sample_type = normal;
  has_samples_in_sample_type = true;
  start_time = 2000;
}

IsConserved-calculate_task_throughput_example :
    IsConserved 1000 known_stats (sample_at 2400 ∷ sample_at 3200 ∷ []) (
      calculate_task_throughput 1000 1000 (sample_at 2400) (sample_at 3200 ∷ []) (some known_stats))
IsConserved-calculate_task_throughput_example =
    IsConserved-calculate_task_throughput 1000 1000 (sample_at 2400) (sample_at 3200 ∷ [])
      known_stats

AreMeasured-calculate_task_throughput_example :
    All
      (IsMeasured
        (stats_or_new 1000 1000 (sample_at 2400) (some known_stats))
        (sample_at 2400 ∷ sample_at 3200 ∷ []))
      (calculate_task_throughput 1000 1000
        (sample_at 2400)
        (sample_at 3200 ∷ [])
        (some known_stats)).1
AreMeasured-calculate_task_throughput_example =
    AreMeasured-calculate_task_throughput 1000 1000 (sample_at 2400) (sample_at 3200 ∷ [])
      (some known_stats)

-- Two samples that no call finishes are held twice after the next call.
held_twice :
    ops
      (calculate_task_throughput 1000 1000
        (sample_at 2400)
        (sample_at 2500 ∷ [])
        (some known_stats)).0.unprocessed
    ≡ 1500
unfolding calculate_task_throughput
held_twice = refl

-- A run of `calculate` from nothing: the first sample is below the bucket interval and is final.
first_call :
    (calculate {K = String} 1000 1000
      (("index", sample_at 2200) ∷ ("index", sample_at 2100) ∷ [])
      []).1
    ≡ (
      "index",
      record {
        absolute_time = 2200;
        relative_time = 2200;
        sample_type = normal;
        throughput = some (1000, 110);
        ops_unit = "docs";
      }
          ∷ [],
    )
      ∷ []
unfolding calculate get put
first_call = refl
