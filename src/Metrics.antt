-- ===== src/Metrics.antt =====
-- osbenchmark/metrics.py: the in-memory metrics store and what is read from it. A value is a natural
-- number, and a percentile and a mean are fractions; whether memory is short is an argument.
pub mod Percentiles
pub mod Between
mod Tests
use text.Mathlib.Text.{◌==◌ as str_eq}
use solr_benchmark.Prelude.{
  ℕ, zero, suc, ◌+◌, ◌-◌, ◌*◌, ◌/◌, ◌%◌, ◌≡◌, refl, String, Bool, true, false, not, ◌&&◌, ◌||◌,
  Option, none, some, List, [], ◌∷◌, ◌++◌, map, ◌==◌, if◌then◌else◌, length, filterb, get_elem?,
  sum,
}
use solr_benchmark.Prelude.Sorting.{sorted}
use solr_benchmark.Result.{Result, ok, raise, index_error}
use solr_benchmark.Schedule.{SampleType, warmup, normal}

-- The entries of a record that are read; `node_name` and `success` are of its meta data.
pub record Doc : Type 0 where
  pub name : String
  pub task : String
  pub operation_type : String
  pub sample_type : SampleType
  pub node_name : Option String
  pub success : Bool
  pub value : ℕ
  pub unit : String

pub record Store : Type 0 where
  pub docs : List Doc
  pub doc_count : ℕ
  pub out_of_memory : Bool

abbrev pub memory_check_frequency : ℕ
memory_check_frequency = 10000

-- _add
unfoldable pub add_doc : Bool → Doc → Store → Store
add_doc is_short doc store =
    if store.out_of_memory
    then store
    else if store.doc_count % memory_check_frequency == 0 && is_short
    then record store { out_of_memory = true }
    else record store { docs = store.docs ++ (doc ∷ []); doc_count = store.doc_count + 1 }

-- What a query asks for; `none` asks for all.
pub record Query : Type 0 where
  pub name : String
  pub task : Option String
  pub operation_type : Option String
  pub sample_type : Option SampleType
  pub node_name : Option String

abbrev pub is_asked : Option String → String → Bool
is_asked none entry = true
is_asked (some asked) entry = str_eq entry asked

abbrev pub is_same_type : SampleType → SampleType → Bool
is_same_type warmup warmup = true
is_same_type normal normal = true
is_same_type warmup normal = false
is_same_type normal warmup = false

abbrev pub is_asked_type : Option SampleType → SampleType → Bool
is_asked_type none entry = true
is_asked_type (some asked) entry = is_same_type entry asked

abbrev pub is_asked_node : Option String → Option String → Bool
is_asked_node none entry = true
is_asked_node (some asked) none = false
is_asked_node (some asked) (some entry) = str_eq entry asked

abbrev pub is_match : Query → Doc → Bool
is_match q doc =
    str_eq doc.name q.name
    && (is_asked q.task doc.task
        && (is_asked q.operation_type doc.operation_type
            && (is_asked_type q.sample_type doc.sample_type
                && is_asked_node q.node_name doc.node_name)))

-- `_get` with the mapper of `get`.
pub get_values : Query → Store → List ℕ
get_values q store = map (λ doc. doc.value) (filterb (is_match q) store.docs)

abbrev pub first_unit : List Doc → Option String
first_unit [] = none
first_unit (doc ∷ docs) = some doc.unit

-- get_unit: without a sample type.
unfoldable pub get_unit : Query → Store → Option String
get_unit q store = first_unit (filterb (is_match (record q { sample_type = none })) store.docs)

abbrev pub first_value : List Doc → Option ℕ
first_value [] = none
first_value (doc ∷ docs) = some doc.value

-- `get_one`, without a key to sort by.
unfoldable pub get_one : Query → Store → Option ℕ
get_one q store = first_value (filterb (is_match (record q { operation_type = none })) store.docs)

-- The loop of `get_error_rate`: the errors and all requests.
abbrev pub counted_doc : Query → Doc → ℕ × ℕ → ℕ × ℕ
counted_doc q doc counts =
    if is_match q doc
    then (if doc.success then (counts.0, counts.1 + 1) else (counts.0 + 1, counts.1 + 1))
    else counts

pub count_errors : Query → List Doc → ℕ × ℕ → ℕ × ℕ
count_errors q [] counts = counts
count_errors q (doc ∷ docs) counts = count_errors q docs (counted_doc q doc counts)

abbrev pub service_times : String → Option String → Option SampleType → Query
service_times task operation_type sample_type = record {
  name = "service_time";
  task = some task;
  operation_type = operation_type;
  sample_type = sample_type;
  node_name = none;
}

abbrev pub rate_or_zero : ℕ × ℕ → ℕ × ℕ
rate_or_zero counts = if counts.1 == 0 then (0, 1) else counts

-- The error rate as a fraction.
pub get_error_rate : String → Option String → Option SampleType → Store → ℕ × ℕ
unfolding count_errors
get_error_rate task operation_type sample_type store =
    rate_or_zero (count_errors (service_times task operation_type sample_type) store.docs (0, 0))

pub record Stats : Type 0 where
  pub count : ℕ
  pub min_value : ℕ
  pub max_value : ℕ
  -- The mean is the sum over the count.
  pub avg : ℕ × ℕ
  pub total : ℕ

abbrev pub last_value : ℕ → List ℕ → ℕ
last_value x [] = x
last_value x (y ∷ ys) = last_value y ys

abbrev pub stats_of : List ℕ → Option Stats
stats_of [] = none
stats_of (x ∷ xs) = some (record {
  count = length (x ∷ xs);
  min_value = x;
  max_value = last_value x xs;
  avg = (sum (x ∷ xs), length (x ∷ xs));
  total = sum (x ∷ xs);
})

unfoldable pub get_stats : Query → Store → Option Stats
unfolding get_values sorted
get_stats q store = stats_of (sorted (get_values q store))

abbrev pub entry_at : Option ℕ → Result ℕ
entry_at none = raise index_error
entry_at (some value) = ok value
