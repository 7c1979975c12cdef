-- ===== src/Throughput.antt =====
-- osbenchmark/worker_coordinator/worker_coordinator.py: `ThroughputCalculator`. Time is in ticks, of
-- which a second has `second`; a throughput is a fraction, operations over ticks. Tasks are keys.
pub mod Tasks
pub mod Counts
pub mod Measures
mod Tests
use solr_benchmark.Prelude.{
  ℕ, zero, suc, ◌+◌, ◌-◌, ◌*◌, ◌/◌, max, String, Bool, true, false, not, ◌&&◌, Option, none, some,
  List, [], ◌∷◌, ◌++◌, map, ltb, leb, if◌then◌else◌,
}
use solr_benchmark.Prelude.Dict.{Key, Dict, get, put}
use solr_benchmark.Schedule.{SampleType, warmup, normal}

-- The attributes of a sample that the calculator reads, but for its task.
pub record OpSample : Type 0 where
  pub absolute_time : ℕ
  pub relative_time : ℕ
  pub sample_type : SampleType
  pub total_ops : ℕ
  pub total_ops_unit : String
  pub time_period : ℕ
  pub throughput : Option (ℕ × ℕ)

pub record TaskStats : Type 0 where
  pub unprocessed : List OpSample
  pub total_count : ℕ
  pub interval : ℕ
  pub bucket_interval : ℕ
  pub bucket : ℕ
  pub sample_type : SampleType
  pub has_samples_in_sample_type : Bool
  pub start_time : ℕ

-- An element of the result; the unit is that of the operations, per second.
pub record ThroughputSample : Type 0 where
  pub absolute_time : ℕ
  pub relative_time : ℕ
  pub sample_type : SampleType
  pub throughput : Option (ℕ × ℕ)
  pub ops_unit : String

-- `TaskStats.__init__`
abbrev pub new_task_stats : ℕ → SampleType → ℕ → TaskStats
new_task_stats bucket_interval sample_type start_time = record {
  unprocessed = [];
  total_count = 0;
  interval = 0;
  bucket_interval = bucket_interval;
  bucket = bucket_interval;
  sample_type = sample_type;
  has_samples_in_sample_type = false;
  start_time = start_time;
}

abbrev pub before : SampleType → SampleType → Bool
before warmup normal = true
before _ _ = false

abbrev pub maybe_update_sample_type : SampleType → TaskStats → TaskStats
maybe_update_sample_type current_sample_type stats =
    if before stats.sample_type current_sample_type
    then record stats { sample_type = current_sample_type; has_samples_in_sample_type = false }
    else stats

abbrev pub update_interval : ℕ → TaskStats → TaskStats
update_interval absolute_sample_time stats = record stats {
  interval = max (absolute_sample_time - stats.start_time) stats.interval;
}

abbrev pub can_calculate_throughput : TaskStats → Bool
can_calculate_throughput stats = ltb 0 stats.interval && leb stats.bucket stats.interval

abbrev pub can_add_final_throughput_sample : TaskStats → Bool
can_add_final_throughput_sample stats = ltb 0 stats.interval && not stats.has_samples_in_sample_type

module _ (second : ℕ) where
  -- int(interval) is in whole seconds.
  abbrev pub finish_bucket : ℕ → TaskStats → TaskStats
  finish_bucket new_total stats = record stats {
    unprocessed = [];
    total_count = new_total;
    has_samples_in_sample_type = true;
    bucket = stats.interval / second * second + stats.bucket_interval;
  }

  abbrev pub measured : OpSample → TaskStats → ThroughputSample
  measured sample stats = record {
    absolute_time = sample.absolute_time;
    relative_time = sample.relative_time;
    sample_type = stats.sample_type;
    throughput = some (stats.total_count, stats.interval);
    ops_unit = sample.total_ops_unit;
  }

  -- The local variables of the loop: the statistics, the running count and the result so far.
  pub record Counting : Type 0 where
    pub current : TaskStats
    pub count : ℕ
    pub task_throughput : List ThroughputSample

  -- The body of the loop over the samples, from the updated statistics on.
  abbrev pub count_in : OpSample → ℕ → TaskStats → List ThroughputSample → Counting
  count_in sample count current task_throughput =
      if can_calculate_throughput current
      then record {
        current = finish_bucket count current;
        count = count;
        task_throughput = task_throughput ++ measured sample (finish_bucket count current) ∷ [];
      }
      else record {
        current = record current { unprocessed = current.unprocessed ++ sample ∷ [] };
        count = count;
        task_throughput = task_throughput;
      }

  pub count_sample : OpSample → Counting → Counting
  count_sample sample c =
      count_in sample (c.count + sample.total_ops)
        (update_interval sample.absolute_time
          (maybe_update_sample_type sample.sample_type c.current))
        c.task_throughput

  pub count_samples : List OpSample → Counting → Counting
  unfolding count_sample
  count_samples [] c = c
  count_samples (sample ∷ samples) c = count_samples samples (count_sample sample c)

  -- The last sample is counted, too, if there is none of its type.
  abbrev pub add_final : OpSample → Counting → Counting
  add_final last_sample c =
      if can_add_final_throughput_sample c.current
      then record {
        current = finish_bucket c.count c.current;
        count = c.count;
        task_throughput =
            c.task_throughput ++ measured last_sample (finish_bucket c.count c.current) ∷ [];
      }
      else c

  abbrev pub last_of : OpSample → List OpSample → OpSample
  last_of s [] = s
  last_of s (t ∷ samples) = last_of t samples

  abbrev pub stats_or_new : ℕ → OpSample → Option TaskStats → TaskStats
  stats_or_new bucket_interval first_sample (some stats) = stats
  stats_or_new bucket_interval first_sample none =
      new_task_stats bucket_interval first_sample.sample_type
        (first_sample.absolute_time - first_sample.time_period)

  -- `calculate_task_throughput` of samples of which there is at least one, as its caller has them.
  pub calculate_task_throughput :
      ℕ → OpSample → List OpSample → Option TaskStats → TaskStats × List ThroughputSample
  unfolding count_samples
  calculate_task_throughput bucket_interval first_sample others known =
      let stats = stats_or_new bucket_interval first_sample known in
      let c = add_final (last_of first_sample others) (
        count_samples (first_sample ∷ others)
          (record { current = stats; count = stats.total_count; task_throughput = [] })) in
      (c.current, c.task_throughput)
