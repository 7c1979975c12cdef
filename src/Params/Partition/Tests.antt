-- ===== src/Params/Partition/Tests.antt =====
-- A source for clients 1 and 2 of three, which is to ingest half of its four bulks.
use solr_benchmark.Prelude.{ℕ, ◌*◌, ◌≡◌, refl, true, false, some, [], ◌∷◌, arith, take, range_from}
use solr_benchmark.Prelude.Rounding.{ceil_div}
use solr_benchmark.Result.{ok, raise, benchmark_error}
use solr_benchmark.Params.Partition.{PartitionSource, BulkData, partition, drain}
use solr_benchmark.Prelude.Sorting.{sorted}
use solr_benchmark.Params.Partition.Draining.{starting, drain-starting}

abbrev source : PartitionSource ℕ
source = record {
  partitions = 2 ∷ 1 ∷ [];
  total_partitions = some 3;
  ingest_percentage = 50;
  looped = false;
  current_bulk = 0;
  total_bulks = 1;
  internal_params = [];
}

-- Two bulks for each client.
abbrev data_of_three : BulkData ℕ
data_of_three = record {
  bulks_of_range = λ total first last. range_from (first * 2) 4;
  number_of_range = λ total first last. ok 4;
}

drain-starting_example :
    drain data_of_three 5 (starting data_of_three source)
    ≡ take (ceil_div (4 * 50) 100) (2 ∷ 3 ∷ 4 ∷ 5 ∷ [])
unfolding sorted
drain-starting_example =
    drain-starting data_of_three 5 4 source 1 (2 ∷ []) (2 ∷ 3 ∷ 4 ∷ 5 ∷ []) refl refl refl refl
      (omega arith) (omega arith)

-- A looped source starts again.
looped : drain data_of_three 5 (record source { looped = true }) ≡ 2 ∷ 3 ∷ 2 ∷ 3 ∷ 2 ∷ []
unfolding drain
looped = refl

other_total : partition 0 4 source ≡ raise benchmark_error
unfolding partition
other_total = refl
