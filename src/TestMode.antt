-- ===== src/TestMode.antt =====
-- osbenchmark/workload/loader.py: `TestModeWorkloadProcessor`, what it changes of tasks and of the
-- numbers of a document set. The new file names and target throughputs are left out.
pub mod Limits
mod Tests
use solr_benchmark.Prelude.{
  ℕ, Bool, true, false, not, ◌||◌, Option, none, some, List, [], ◌∷◌, ltb, if◌then◌else◌,
}
use solr_benchmark.Result.{Result, ok, raise, benchmark_error, ◌>>=◌}
use solr_benchmark.Workload.{Task, Element, single, parallel}

-- `n is not None and n > limit`, and then `new` in its place
abbrev pub reset_above : ℕ → ℕ → Option ℕ → Option ℕ
reset_above limit new none = none
reset_above limit new (some n) = if ltb limit n then some new else some n

pub reduce_task : Task → Task
reduce_task t = record t {
  warmup_iterations = reset_above t.clients t.clients t.warmup_iterations;
  iterations = reset_above t.clients t.clients t.iterations;
  warmup_time_period = reset_above 0 0 t.warmup_time_period;
  time_period = reset_above 10 10 t.time_period;
}

pub reduce_tasks : List Task → List Task
unfolding reduce_task
reduce_tasks [] = []
reduce_tasks (t ∷ tasks) = reduce_task t ∷ reduce_tasks tasks

-- The loops over a schedule and the leaves of its elements.
pub reduce_schedule : List Element → List Element
unfolding reduce_tasks reduce_task
reduce_schedule [] = []
reduce_schedule (single t ∷ schedule) = single (reduce_task t) ∷ reduce_schedule schedule
reduce_schedule (parallel ts clients ∷ schedule) =
    parallel (reduce_tasks ts) clients ∷ reduce_schedule schedule

-- What the processor reads and sets of a document set.
pub record DocumentSet : Type 0 where
  pub is_bulk : Bool
  pub has_compressed_corpus : Bool
  pub has_uncompressed_corpus : Bool
  pub number_of_documents : ℕ
  pub compressed_size_in_bytes : Option ℕ
  pub uncompressed_size_in_bytes : Option ℕ

abbrev pub reduced_documents : DocumentSet → Result DocumentSet
reduced_documents d =
    if d.has_compressed_corpus || d.has_uncompressed_corpus
    then ok (record d {
      number_of_documents = 1000;
      compressed_size_in_bytes = none;
      uncompressed_size_in_bytes = none;
    })
    else raise benchmark_error

pub reduce_documents : List DocumentSet → Result (List DocumentSet)
reduce_documents [] = ok []
reduce_documents (d ∷ documents) = do
  reduced ← if d.is_bulk then reduced_documents d else ok d
  others ← reduce_documents documents
  ok (reduced ∷ others)
