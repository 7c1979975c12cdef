-- ===== src/Throughput/Counts.antt =====
-- What `calculate_task_throughput` counts.
use solr_benchmark.Prelude.{
  ℕ, ◌+◌, ◌-◌, ◌≡◌, refl, ap, ◌∙◌, max, Bool, true, false, some, List, [], ◌∷◌, ◌++◌, map,
  if◌then◌else◌, Bool-cases, inl, inr, arith, sum, sum-append, map-append,
}
use solr_benchmark.Schedule.{SampleType}
use solr_benchmark.Throughput.{
  OpSample, TaskStats, ThroughputSample, Counting, before, maybe_update_sample_type,
  update_interval, count_sample, count_samples, count_in, add_final, calculate_task_throughput,
  can_calculate_throughput, can_add_final_throughput_sample, last_of,
}

abbrev pub ops : List OpSample → ℕ
ops samples = sum (map (λ s. s.total_ops) samples)

-- The longest time since the start, of the samples and what was known before them.
abbrev pub span : ℕ → ℕ → List OpSample → ℕ
span start_time interval [] = interval
span start_time interval (s ∷ samples) =
    span start_time (max (s.absolute_time - start_time) interval) samples

-- Nothing is in the result yet.
abbrev pub is_silent : List ThroughputSample → Bool
is_silent [] = true
is_silent (_ ∷ _) = false

is_silent-snoc :
    (rs : List ThroughputSample) (r : ThroughputSample) → is_silent (rs ++ r ∷ []) ≡ false
is_silent-snoc [] r = refl
is_silent-snoc (s ∷ rs) r = refl

pub ops-append : (xs ys : List OpSample) → ops (xs ++ ys) ≡ ops xs + ops ys
ops-append xs ys =
    rw map-append (sum-append (map (λ s. s.total_ops) xs) (map (λ s. s.total_ops) ys))

pub span-snoc :
    (start_time interval : ℕ) (samples : List OpSample) (s : OpSample)
    → span start_time interval (samples ++ s ∷ [])
      ≡ max (s.absolute_time - start_time) (span start_time interval samples)
span-snoc start_time interval [] s = refl
span-snoc start_time interval (t ∷ samples) s =
    span-snoc start_time (max (t.absolute_time - start_time) interval) samples s

module _ (second : ℕ) where
  -- The operations of the statistics are those counted, and once more those that were unprocessed
  -- before as long as there is no result.
  abbrev pub IsBalanced : ℕ → Counting second → Type 0
  IsBalanced u c =
      c.current.total_count + ops c.current.unprocessed
      ≡ c.count + (if is_silent c.task_throughput then u else 0)

  IsBalanced-count_in :
      (u : ℕ) (s : OpSample) (count : ℕ) (current : TaskStats) (rs : List ThroughputSample)
      → current.total_count + ops current.unprocessed + s.total_ops
        ≡ count + (if is_silent rs then u else 0)
      → IsBalanced u (count_in second s count current rs)
  IsBalanced-count_in u s count current rs e =
      elim (Bool-cases (can_calculate_throughput current)) [
        | inl finishes ↦ rw (finishes, is_silent-snoc) refl
        | inr waits ↦ rw waits (rw ops-append (omega (arith, e)))
      ]

  pub update-eq :
      (t : SampleType) (stats : TaskStats)
      → maybe_update_sample_type t stats ≡ record stats {
        sample_type = if before stats.sample_type t then t else stats.sample_type;
        has_samples_in_sample_type =
            if before stats.sample_type t then false else stats.has_samples_in_sample_type;
      }
  update-eq t stats = elim (Bool-cases (before stats.sample_type t)) [
    | inl new ↦ simp new refl
    | inr old ↦ simp old refl
  ]

  IsBalanced-count_sample :
      (u : ℕ) (s : OpSample) (c : Counting second)
      → IsBalanced u c
      → IsBalanced u (count_sample second s c)
  unfolding count_sample
  IsBalanced-count_sample u s c e =
      IsBalanced-count_in u s (c.count + s.total_ops)
        (update_interval s.absolute_time (maybe_update_sample_type s.sample_type c.current))
        c.task_throughput (rw update-eq (omega (arith, e)))

  IsBalanced-count_samples :
      (u : ℕ) (samples : List OpSample) (c : Counting second)
      → IsBalanced u c
      → IsBalanced u (count_samples second samples c)
  unfolding count_samples
  IsBalanced-count_samples u [] c e = e
  IsBalanced-count_samples u (s ∷ samples) c e =
      IsBalanced-count_samples u samples (count_sample second s c) (IsBalanced-count_sample u s c e)

  pub count-count_in :
      (s : OpSample) (count : ℕ) (current : TaskStats) (rs : List ThroughputSample)
      → (count_in second s count current rs).count ≡ count
  count-count_in s count current rs = elim (Bool-cases (can_calculate_throughput current)) [
    | inl f ↦ rw f refl
    | inr w ↦ rw w refl
  ]

  count-count_samples :
      (samples : List OpSample) (c : Counting second)
      → (count_samples second samples c).count ≡ c.count + ops samples
  unfolding count_samples count_sample
  count-count_samples [] c = omega arith
  count-count_samples (s ∷ samples) c =
      let here =
        count-count_in s (c.count + s.total_ops)
          (update_interval s.absolute_time (maybe_update_sample_type s.sample_type c.current))
          c.task_throughput in
      omega (arith, here, count-count_samples samples (count_sample second s c))

  IsBalanced-add_final :
      (u : ℕ) (s : OpSample) (c : Counting second)
      → IsBalanced u c
      → IsBalanced u (add_final second s c) × ((add_final second s c).count ≡ c.count)
  IsBalanced-add_final u s c e = elim (Bool-cases (can_add_final_throughput_sample c.current)) [
    | inl adds ↦ rw (adds, is_silent-snoc) (refl, refl)
    | inr leaves ↦ rw leaves (e, refl)
  ]

  -- The statistics are known and the result, if any, is that of one call.
  abbrev pub IsConserved : TaskStats → List OpSample → TaskStats × List ThroughputSample → Type 0
  IsConserved known samples r =
      r.0.total_count + ops r.0.unprocessed
      ≡ known.total_count + ops samples + (if is_silent r.1 then ops known.unprocessed else 0)

  -- No operation is lost: after a call, the total and the unprocessed samples together hold the
  -- total before and the operations of all samples that were passed. If the call has no result,
  -- they also hold those of the samples that were unprocessed before it, and as the caller
  -- passes these samples, too, they are then held twice.
  pub IsConserved-calculate_task_throughput :
      (bucket_interval : ℕ) (first_sample : OpSample) (others : List OpSample) (known : TaskStats)
      → IsConserved known
          (first_sample ∷ others)
          (calculate_task_throughput second bucket_interval first_sample others (some known))
  unfolding calculate_task_throughput
  IsConserved-calculate_task_throughput bucket_interval first_sample others known =
      let begin : Counting second = record {
        current = known;
        count = known.total_count;
        task_throughput = [];
      } in
      let counted = count_samples second (first_sample ∷ others) begin in
      let (balanced, kept) =
        IsBalanced-add_final (ops known.unprocessed) (last_of second first_sample others) counted
          (IsBalanced-count_samples (ops known.unprocessed) (first_sample ∷ others) begin refl) in
      balanced
      ∙ ap
          (λ n.
            n
            + (if is_silent
                  (add_final second (last_of second first_sample others) counted).task_throughput
                then ops known.unprocessed
                else 0))
          (kept ∙ count-count_samples (first_sample ∷ others) begin)
