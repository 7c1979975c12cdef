-- ===== src/Metrics/Tests.antt =====
-- Four service times in a store, of which one request failed.
use solr_benchmark.Prelude.{
  ℕ, ◌*◌, ◌≤◌, ◌<◌, ◌≡◌, refl, Bool, true, false, none, some, [], ◌∷◌, arith,
}
use solr_benchmark.Prelude.Sorting.{sorted}
use solr_benchmark.Result.{ok}
use solr_benchmark.Schedule.{warmup, normal}
use solr_benchmark.Metrics.{Doc, Store, Query, get_values, get_error_rate}
use solr_benchmark.Metrics.Percentiles.{
  percentile_value, get_percentiles, filter_percentiles_by_sample_size,
}
use solr_benchmark.Prelude.Sorting.{least, largest}
use solr_benchmark.Metrics.Between.{percentile_value-sorted}

abbrev service_time : ℕ → Bool → Doc
service_time value success = record {
  name = "service_time";
  task = "search";
  operation_type = "search";
  sample_type = normal;
  node_name = none;
  success = success;
  value = value;
  unit = "ms";
}

abbrev store : Store
store = record {
  docs =
      service_time 40 true
      ∷ service_time 10 true
      ∷ record (service_time 900 true) { sample_type = warmup }
      ∷ service_time 30 false
      ∷ service_time 20 true
      ∷ [];
  doc_count = 5;
  out_of_memory = false;
}

abbrev search_times : Query
search_times = record {
  name = "service_time";
  task = some "search";
  operation_type = none;
  sample_type = some normal;
  node_name = none;
}

values : get_values search_times store ≡ 40 ∷ 10 ∷ 30 ∷ 20 ∷ []
unfolding get_values
values = refl

one_of_four : get_error_rate "search" none (some normal) store ≡ (1, 4)
unfolding get_error_rate
one_of_four = refl

-- The median is between the two in the middle.
median :
    get_percentiles search_times store ((50, 1) ∷ (100, 1) ∷ [])
    ≡ ok (((50, 1), (2500, 100)) ∷ ((100, 1), (40, 1)) ∷ [])
unfolding get_percentiles sorted
median = refl

-- 99.9 needs a thousand samples.
filtered :
    filter_percentiles_by_sample_size 200 ((50, 1) ∷ (99, 1) ∷ (999, 10) ∷ [])
    ≡ ok ((50, 1) ∷ (99, 1) ∷ [])
unfolding filter_percentiles_by_sample_size
filtered = refl

percentile_value-sorted_example :
    (v : ℕ × ℕ) × (percentile_value (sorted (40 ∷ 10 ∷ 30 ∷ 20 ∷ [])) (999, 10) ≡ ok v)
    × (0 < v.1)
    × (least 40 (10 ∷ 30 ∷ 20 ∷ []) * v.1 ≤ v.0)
    × (v.0 ≤ largest 40 (10 ∷ 30 ∷ 20 ∷ []) * v.1)
percentile_value-sorted_example =
    percentile_value-sorted 40 (10 ∷ 30 ∷ 20 ∷ []) (999, 10) (omega arith) (omega arith)
