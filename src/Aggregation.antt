-- ===== src/Aggregation.antt =====
-- osbenchmark/aggregator.py: the results of several test runs as one. A test run's metrics are numbers,
-- dictionaries of numbers with a unit, or missing; a quotient is a numerator and a denominator; the
-- numbers among the workload parameters are read already.
pub mod Averages
pub mod Compatible
mod Tests
use Prim.Native.String.{◌++◌ as with_suffix}
use solr_benchmark.Prelude.{
  ℕ, String, ◌+◌, ◌*◌, ◌≡◌, refl, Bool, true, false, ◌&&◌, min, max, Option, none, some, List, [],
  ◌∷◌, ◌++◌, ◌==◌, if◌then◌else◌, sum,
}
use solr_benchmark.Prelude.Sorting.{least, largest}
use solr_benchmark.Prelude.Dict.{Key, string_key, Dict, get, put}
use solr_benchmark.Result.{
  Result, ok, raise, ◌>>=◌, ◌>>◌, raise_if, zero_division, key_error, index_error, type_error,
  attribute_error, value_error,
}
use solr_benchmark.Workload.{Element, Task, single, parallel}

pub data Value : Type 0 where
  absent : Value
  plain : ℕ → Value
  stats : Dict String ℕ → Option String → Value

abbrev pub or_number : Option ℕ → ℕ → ℕ
or_number none n = n
or_number (some m) n = m

-- self.metrics
abbrev pub metrics : List String
metrics =
    "throughput" ∷ "latency" ∷ "service_time" ∷ "client_processing_time" ∷ "processing_time"
    ∷ "error_rate" ∷ "duration" ∷ []

-- task.iterations or 1
abbrev pub iterations_or_one : Option ℕ → ℕ
iterations_or_one none = 1
iterations_or_one (some n) = if n == 0 then 1 else n

-- `count_iterations_for_each_op`, of one test run. A parallel element has no name.
pub count_iterations : Dict String ℕ → List Element → Dict String ℕ → Result (Dict String ℕ)
count_iterations params [] counts = ok counts
count_iterations params (single task ∷ schedule) counts = count_iterations params schedule (
    put task.name
      (or_number (get (with_suffix task.name "_iterations") params)
        (iterations_or_one task.iterations))
      counts)
count_iterations params (parallel tasks clients ∷ schedule) counts = raise attribute_error

pub record OpMetric : Type 0 where
  pub task : String
  pub values : Dict String Value

abbrev pub or_absent : Option Value → Value
or_absent none = absent
or_absent (some v) = v

abbrev pub or_empty {ℓ} : {A : Type ℓ} → Option (List A) → List A
or_empty none = []
or_empty (some xs) = xs

-- accumulated[metric].append(operation_metric.get(metric)), for each metric
unfoldable pub append_metrics :
    List String → Dict String Value → Dict String (List Value) → Dict String (List Value)
append_metrics [] values accumulated = accumulated
append_metrics (metric ∷ rest) values accumulated = append_metrics rest values (
    put metric (or_empty (get metric accumulated) ++ or_absent (get metric values) ∷ [])
      accumulated)

unfoldable pub accumulate_results :
    List OpMetric → Dict String (Dict String (List Value)) → Dict String (Dict String (List Value))
accumulate_results [] results = results
accumulate_results (op ∷ ops) results =
    accumulate_results ops
      (put op.task (append_metrics metrics op.values (or_empty (get op.task results))) results)

abbrev pub Quotient : Type 0
Quotient = ℕ × ℕ

pub data Averaged : Type 0 where
  average : Quotient → Averaged
  averages : Dict String Quotient → Option String → Averaged

-- sum(value * iterations for value, iterations in zip(values, iterations_per_run))
pub weighted_sum : List ℕ → List ℕ → ℕ
weighted_sum [] iterations = 0
weighted_sum (v ∷ values) [] = 0
weighted_sum (v ∷ values) (i ∷ iterations) = v * i + weighted_sum values iterations

-- The same of values that are numbers, or an error.
pub weighted_values : List Value → List ℕ → Result ℕ
weighted_values [] iterations = ok 0
weighted_values (v ∷ values) [] = ok 0
weighted_values (plain v ∷ values) (i ∷ iterations) =
    weighted_values values iterations >>= λ rest. ok (v * i + rest)
weighted_values (v ∷ values) (i ∷ iterations) = raise type_error

abbrev pub divided : ℕ → ℕ → Result Quotient
divided n total = raise_if (total == 0) zero_division >> ok (n, total)

-- [value.get(field, 0) for value in values]
pub field_values : String → List Value → Result (List ℕ)
field_values field [] = ok []
field_values field (stats d unit ∷ values) =
    field_values field values >>= λ rest. ok (or_number (get field d) 0 ∷ rest)
field_values field (v ∷ values) = raise attribute_error

-- min and max of an empty list are no values
abbrev pub extreme : (ℕ → List ℕ → ℕ) → List ℕ → Result Quotient
extreme choose [] = raise value_error
extreme choose (x ∷ xs) = ok (choose x xs, 1)

abbrev pub is_named : String → String → Bool
is_named name field = string_key.same field name

abbrev pub named : String → Quotient → Result (String × Quotient)
named name q = ok (name, q)

-- The key and the number for one field, from its numbers in the test runs.
pub average_items : List ℕ → String → List ℕ → Result (String × Quotient)
unfolding weighted_sum
average_items iterations field items =
    if is_named "min" field
    then extreme least items >>= named "overall_min"
    else if is_named "max" field
    then extreme largest items >>= named "overall_max"
    else divided (weighted_sum items iterations) (sum iterations) >>= named field

-- The key and the number for one field of a metric.
pub average_field : List ℕ → List Value → String → Result (String × Quotient)
unfolding average_items field_values
average_field iterations values field = field_values field values >>= average_items iterations field

pub average_fields :
    List ℕ → List Value → Dict String ℕ → Dict String Quotient → Result (Dict String Quotient)
unfolding average_field
average_fields iterations values [] done = ok done
average_fields iterations values ((field, v) ∷ fields) done =
    average_field iterations values field >>= λ entry.
    average_fields iterations values fields (put entry.0 entry.1 done)

-- One metric: the first value says which kind it is of.
pub average_metric : List ℕ → List Value → Result Averaged
unfolding average_fields weighted_values
average_metric iterations [] = raise index_error
average_metric iterations (stats d unit ∷ values) =
    average_fields iterations (stats d unit ∷ values) d [] >>= λ all. ok (averages all unit)
average_metric iterations (v ∷ values) = weighted_values (v ∷ values) iterations >>= λ n.
    divided n (sum iterations) >>= λ q. ok (average q)

-- A dictionary's value, whose key has to be there.
abbrev pub known {ℓ} : {A : Type ℓ} → Option A → Result A
known none = raise key_error
known (some a) = ok a

-- [accumulated_iterations[test_id][task_name] for test_id in test_runs]
pub iterations_per_run : Dict String (Dict String ℕ) → String → List String → Result (List ℕ)
iterations_per_run accumulated task [] = ok []
iterations_per_run accumulated task (id ∷ ids) = known (get id accumulated) >>= λ counts.
    known (get task counts) >>= λ n.
    iterations_per_run accumulated task ids >>= λ rest. ok (n ∷ rest)

pub average_metrics :
    List ℕ → Dict String (List Value) → Dict String Averaged → Result (Dict String Averaged)
unfolding average_metric
average_metrics iterations [] done = ok done
average_metrics iterations ((metric, values) ∷ rest) done =
    average_metric iterations values >>= λ averaged.
    average_metrics iterations rest (put metric averaged done)

pub calculate_weighted_average :
    Dict String (Dict String ℕ)
    → List String
    → Dict String (List Value)
    → String
    → Result (Dict String Averaged)
unfolding iterations_per_run average_metrics
calculate_weighted_average accumulated test_runs task_metrics task =
    iterations_per_run accumulated task test_runs >>= λ iterations.
    average_metrics iterations task_metrics []
