-- ===== src/Params/Partition.antt =====
-- osbenchmark/workload/params.py: `PartitionBulkIndexParamSource` without streaming ingestion. The
-- bulks of a range of clients, and how many they are, are arguments; the percentage is a whole number.
pub mod Draining
mod Tests
use solr_benchmark.Prelude.{
  ℕ, zero, suc, ◌+◌, ◌*◌, Bool, true, false, Option, none, some, List, [], ◌∷◌, ◌++◌, ◌==◌, leb,
  if◌then◌else◌,
}
use solr_benchmark.Prelude.Rounding.{ceil_div}
use solr_benchmark.Prelude.Sorting.{insert, sorted}
use solr_benchmark.Result.{Result, ok, raise, benchmark_error, index_error, stop_iteration, ◌>>=◌}

pub record PartitionSource (B : Type 0) : Type 0 where
  pub partitions : List ℕ
  pub total_partitions : Option ℕ
  pub ingest_percentage : ℕ
  pub looped : Bool
  pub current_bulk : ℕ
  pub total_bulks : ℕ
  pub internal_params : List B

abbrev pub last_index : ℕ → List ℕ → ℕ
last_index n [] = n
last_index n (m ∷ ms) = last_index m ms

-- The bulks that `bulk_data_based` yields for the clients of a range, by the number of partitions, and
-- `number_of_bulks` of these.
pub record BulkData (B : Type 0) : Type 0 where
  pub bulks_of_range : ℕ → ℕ → ℕ → List B
  pub number_of_range : ℕ → ℕ → ℕ → Result ℕ

-- The total is known where there is a partition.
abbrev pub total_or : Option ℕ → ℕ
total_or none = 0
total_or (some total) = total

module _ {B : Type 0} where
  abbrev pub partition_with : ℕ → ℕ → Option ℕ → PartitionSource B → Result (PartitionSource B)
  partition_with partition_index total none s = ok (record s {
    total_partitions = some total;
    partitions = s.partitions ++ partition_index ∷ [];
  })
  partition_with partition_index total (some known) s =
      if known == total
      then ok (record s { partitions = s.partitions ++ partition_index ∷ [] })
      else raise benchmark_error

  pub partition : ℕ → ℕ → PartitionSource B → Result (PartitionSource B)
  partition partition_index total s = partition_with partition_index total s.total_partitions s

  abbrev pub init_range : BulkData B → List ℕ → PartitionSource B → Result (PartitionSource B)
  init_range bulk_data [] s = raise index_error
  init_range bulk_data (start_index ∷ others) s = do
    all_bulks ←
        bulk_data.number_of_range (total_or s.total_partitions) start_index
          (last_index start_index others)
    ok (record s {
      partitions = start_index ∷ others;
      internal_params =
          bulk_data.bulks_of_range (total_or s.total_partitions) start_index
            (last_index start_index others);
      total_bulks = ceil_div (all_bulks * s.ingest_percentage) 100;
    })

  pub init_internal_params : BulkData B → PartitionSource B → Result (PartitionSource B)
  unfolding sorted
  init_internal_params bulk_data s = init_range bulk_data (sorted s.partitions) s

  abbrev pub next_bulk : PartitionSource B → List B → Result (B × PartitionSource B)
  next_bulk s [] = raise stop_iteration
  next_bulk s (b ∷ bulks) = ok (b, record s { internal_params = bulks })

  -- At the end of the bulks: again from the start, or the end of the source.
  abbrev pub restart : BulkData B → PartitionSource B → Result (PartitionSource B)
  restart bulk_data s =
      if s.looped
      then init_internal_params bulk_data (record s { current_bulk = 0 })
      else raise stop_iteration

  pub params : BulkData B → PartitionSource B → Result (B × PartitionSource B)
  unfolding init_internal_params
  params bulk_data s = do
    started ← if s.current_bulk == 0 then init_internal_params bulk_data s else ok s
    ready ←
        if started.current_bulk == started.total_bulks
        then restart bulk_data started
        else ok started
    next_bulk (record ready { current_bulk = ready.current_bulk + 1 }) ready.internal_params

  -- Calls of `params`, until one raises.
  abbrev pub collect : Result (B × PartitionSource B) → (PartitionSource B → List B) → List B
  collect (raise failure) rest = []
  collect (ok (b, s)) rest = b ∷ rest s

  pub drain : BulkData B → ℕ → PartitionSource B → List B
  unfolding params
  drain bulk_data zero s = []
  drain bulk_data (suc calls) s = collect (params bulk_data s) (drain bulk_data calls)
