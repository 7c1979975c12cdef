-- ===== src/Executor/Sampler.antt =====
-- osbenchmark/worker_coordinator/worker_coordinator.py: the bounded queues of samples, with the two kinds
-- of samples. A task is known by its name here.
use solr_benchmark.Prelude.{
  ℕ, ◌-◌, String, Bool, Option, none, some, List, [], ◌∷◌, ◌++◌, ◌||◌, map, ◌==◌, ltb,
  if◌then◌else◌, length,
}
use solr_benchmark.Schedule.{SampleType}
use solr_benchmark.Executor.{MetaData, Dependent}

-- `None` for an eternal task.
abbrev pub TaskProgress : Type 0
TaskProgress = Option (ℕ × ℕ)

pub record TakenSample : Type 0 where
  pub client_id : ℕ
  pub absolute_time : ℕ
  pub request_start : ℕ
  pub task_start : ℕ
  pub task : String
  pub sample_type : SampleType
  pub request_meta_data : MetaData
  pub time_period : ℕ
  pub task_progress : TaskProgress
  pub dependent_timing : Option (List Dependent)

-- DefaultSample
pub record DefaultSample : Type 0 where
  pub sample : TakenSample
  pub latency : ℕ
  pub service_time : ℕ
  pub client_processing_time : ℕ
  pub processing_time : ℕ
  pub throughput : Option (ℕ × ℕ)
  pub total_ops : ℕ
  pub total_ops_unit : String

unfoldable pub relative_time : TakenSample → ℕ
relative_time s = s.request_start - s.task_start

abbrev pub dependents : Option (List Dependent) → List Dependent
dependents none = []
dependents (some timings) = timings

-- The sample of a request that was made on behalf of another.
abbrev pub dependent_sample : TakenSample → Dependent → TakenSample
dependent_sample s t = record s {
  absolute_time = t.absolute_time;
  request_start = t.request_start;
  dependent_timing = none;
}

abbrev pub dependent_default : DefaultSample → Dependent → DefaultSample
dependent_default s t = record s {
  sample = dependent_sample s.sample t;
  latency = 0;
  service_time = t.service_time;
  client_processing_time = 0;
  processing_time = 0;
  throughput = some (0, 1);
}

-- The two properties `dependent_timings`.
unfoldable pub dependent_timings : DefaultSample → List DefaultSample
dependent_timings s = map (dependent_default s) (dependents s.sample.dependent_timing)

unfoldable pub profile_timings : TakenSample → List TakenSample
profile_timings s = map (dependent_sample s) (dependents s.dependent_timing)

-- A sampler of samples of one kind; a size of 0 is no bound.
pub record Sampler (S : Type 0) : Type 0 where
  pub start_timestamp : ℕ
  pub buffer_size : ℕ
  pub q : List S

module _ {S : Type 0} where
  abbrev pub has_room : Sampler S → Bool
  has_room sampler = sampler.buffer_size == 0 || ltb (length sampler.q) sampler.buffer_size

  -- `put_nowait`; a sample that finds the queue full is dropped.
  unfoldable pub add_sample : S → Sampler S → Sampler S
  add_sample sample sampler =
      if has_room sampler then record sampler { q = sampler.q ++ (sample ∷ []) } else sampler

  -- The property `samples`, which empties the queue.
  unfoldable pub samples : Sampler S → List S × Sampler S
  samples sampler = (sampler.q, record sampler { q = [] })
