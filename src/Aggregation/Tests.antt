-- ===== src/Aggregation/Tests.antt =====
-- osbenchmark/aggregator.py: test runs aggregated, and the theorems at one input each.
use solr_benchmark.Prelude.{
  ℕ, String, ◌*◌, ◌≡◌, ◌↔◌, refl, Option, none, some, List, [], ◌∷◌, map, length, sum, arith, All,
}
use solr_benchmark.Prelude.Dict.{Dict, string_key, get, put}
use solr_benchmark.Prelude.Sorting.{least, largest, IsBetween}
use solr_benchmark.Result.{ok, raise, attribute_error, value_error}
use solr_benchmark.Workload.{parallel}
use solr_benchmark.Aggregation.{
  Value, plain, stats, average, averages, count_iterations, average_metric, average_fields,
  average_field, average_items, field_values, weighted_sum, weighted_values, iterations_per_run,
  average_metrics, calculate_weighted_average,
}
use solr_benchmark.Aggregation.Averages.{average_metric-mean, repeated}
use solr_benchmark.Aggregation.Compatible.{
  Run, test_run_compatibility_check, test_run_compatibility_check_lem, check_runs, IsLike,
}

-- A parallel element of the schedule has no name.
parallel_test : count_iterations [] (parallel [] none ∷ []) [] ≡ raise attribute_error
unfolding count_iterations
parallel_test = refl

abbrev latencies : List Value
latencies =
    stats (("min", 2) ∷ ("max", 9) ∷ ("mean", 4) ∷ []) (some "ms")
    ∷ stats (("min", 1) ∷ ("mean", 8) ∷ []) (some "ms")
    ∷ []

fields_test :
    average_metric (1 ∷ 3 ∷ []) latencies
    ≡ ok (
        averages
          (("overall_min", (1, 1)) ∷ ("overall_max", (9, 1)) ∷ ("mean", (28, 4)) ∷ [])
          (some "ms"))
unfolding average_metric average_fields average_field average_items field_values weighted_sum get
    put
fields_test = refl

abbrev counts : Dict String (Dict String ℕ)
counts = ("first", ("search", 1) ∷ []) ∷ ("second", ("search", 3) ∷ []) ∷ []

-- Where the first of two test runs has no result of a task, the number of the second is weighted by the
-- iterations of the first, and divided by those of both.
missing_test :
    calculate_weighted_average counts
      ("first" ∷ "second" ∷ [])
      (("duration", plain 20 ∷ []) ∷ [])
      "search"
    ≡ ok (("duration", average (20, 4)) ∷ [])
unfolding calculate_weighted_average average_metrics average_metric weighted_values
    iterations_per_run get put
missing_test = refl

average_metric-mean_example :
    (average_metric (1 ∷ 3 ∷ []) (map plain (10 ∷ 30 ∷ []))
      ≡ ok (
          average (
            sum (repeated (10 ∷ 30 ∷ []) (1 ∷ 3 ∷ [])),
            length (repeated (10 ∷ 30 ∷ []) (1 ∷ 3 ∷ [])),
          )))
    × IsBetween
        (least 10 (30 ∷ []) * length (repeated (10 ∷ 30 ∷ []) (1 ∷ 3 ∷ [])))
        (largest 10 (30 ∷ []) * length (repeated (10 ∷ 30 ∷ []) (1 ∷ 3 ∷ [])))
        (sum (repeated (10 ∷ 30 ∷ []) (1 ∷ 3 ∷ [])))
average_metric-mean_example = average_metric-mean 10 (30 ∷ []) (1 ∷ 3 ∷ []) refl (omega arith)

abbrev runs : Dict String Run
runs =
    ("a", record { test_run_id = "a"; workload = "nyc"; test_procedure = "append" })
    ∷ ("b", record { test_run_id = "b"; workload = "nyc"; test_procedure = "append" })
    ∷ ("c", record { test_run_id = "c"; workload = "http"; test_procedure = "append" })
    ∷ []

abbrev find_run : String → Option Run
find_run id = get id runs

other_workload : test_run_compatibility_check find_run ("a" ∷ "c" ∷ []) ≡ raise value_error
unfolding test_run_compatibility_check check_runs get
other_workload = refl

test_run_compatibility_check_lem_example :
    (test_run_compatibility_check find_run ("a" ∷ "b" ∷ []) ≡ ok tt)
    ↔ ((first : Run) × (find_run "a" ≡ some first) × All (IsLike find_run first) ("b" ∷ []))
test_run_compatibility_check_lem_example = test_run_compatibility_check_lem find_run "a" ("b" ∷ [])
