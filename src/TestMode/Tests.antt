-- ===== src/TestMode/Tests.antt =====
-- Test mode on a schedule with a long task.
use solr_benchmark.Prelude.{◌≡◌, refl, true, false, none, some, List, [], ◌∷◌}
use solr_benchmark.Result.{raise, benchmark_error}
use solr_benchmark.Workload.{Task, Element, single, parallel}
use solr_benchmark.TestMode.{reduce_task, reduce_documents}

abbrev long : Task
long = record {
  name = "search";
  operation = record { name = "search"; op_type = "search" };
  tags = [];
  warmup_iterations = some 500;
  iterations = some 1000;
  warmup_time_period = some 120;
  time_period = some 600;
  ramp_up_time_period = none;
  ramp_down_time_period = none;
  clients = 2;
  completes_parent = false;
  schedule = none;
}

abbrev schedule : List Element
schedule = single long ∷ parallel (long ∷ []) none ∷ []

short_long : reduce_task long ≡ record long {
  warmup_iterations = some 2;
  iterations = some 2;
  warmup_time_period = some 0;
  time_period = some 10;
}
unfolding reduce_task
short_long = refl

no_corpus :
    reduce_documents (
      record {
        is_bulk = true;
        has_compressed_corpus = false;
        has_uncompressed_corpus = false;
        number_of_documents = 7;
        compressed_size_in_bytes = none;
        uncompressed_size_in_bytes = none;
      }
      ∷ [])
    ≡ raise benchmark_error
unfolding reduce_documents
no_corpus = refl
