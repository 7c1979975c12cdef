-- ===== src/Throughput/Measures.antt =====
-- What the throughput samples of `calculate_task_throughput` say.
use solr_benchmark.Prelude.{
  ℕ, ◌+◌, ◌<◌, ◌≡◌, refl, sym, ◌∙◌, Option, some, List, [], ◌∷◌, ◌++◌, append_assoc, append-nil,
  Bool-cases, inl, inr, arith, All, All-append,
}
use mathlib.Core.Path.{subst}
use solr_benchmark.Throughput.{
  OpSample, TaskStats, ThroughputSample, Counting, maybe_update_sample_type, update_interval,
  count_sample, count_samples, count_in, add_final, calculate_task_throughput, finish_bucket,
  measured, can_calculate_throughput, can_add_final_throughput_sample, last_of, stats_or_new,
}
use solr_benchmark.Throughput.Counts.{ops, span, ops-append, span-snoc, update-eq}

-- The sample tells the operations that were counted when the call began, and those of the first
-- samples of the call, over the longest time that is not zero.
abbrev pub IsMeasured : TaskStats → List OpSample → ThroughputSample → Type 0
IsMeasured known samples r =
    (done : List OpSample) × (rest : List OpSample) × (samples ≡ done ++ rest)
    × (r.throughput
        ≡ some (known.total_count + ops done, span known.start_time known.interval done))
    × (0 < span known.start_time known.interval done)

module _ (second : ℕ) (known : TaskStats) (samples : List OpSample) where
  -- After the samples `done`.
  pub record Measuring (done : List OpSample) (c : Counting second) : Type 0 where
    pub counted : c.count ≡ known.total_count + ops done
    pub spanned : c.current.interval ≡ span known.start_time known.interval done
    pub started : c.current.start_time ≡ known.start_time
    pub measured_all : All (IsMeasured known samples) c.task_throughput

  Measuring-count_in :
      (done rest : List OpSample) (s : OpSample) (count : ℕ) (current : TaskStats)
      (rs : List ThroughputSample)
      → samples ≡ done ++ rest
      → count ≡ known.total_count + ops done
      → current.interval ≡ span known.start_time known.interval done
      → current.start_time ≡ known.start_time
      → All (IsMeasured known samples) rs
      → Measuring done (count_in second s count current rs)
  Measuring-count_in done rest s count current rs e counted spanned started all =
      elim (Bool-cases (can_calculate_throughput current)) [
        | inl finishes ↦
            let long : 0 < span known.start_time known.interval done =
              ground (arith, finishes, spanned) in
            let here : IsMeasured known samples
                (measured second s (finish_bucket second count current)) =
              (done, rest, e, rw (counted, spanned) refl, long) in
            rw finishes (record {
              counted = counted;
              spanned = spanned;
              started = started;
              measured_all =
                  All-append (IsMeasured known samples) rs
                    (measured second s (finish_bucket second count current) ∷ []) all (here, tt);
            })
        | inr waits ↦
            rw waits (record {
              counted = counted;
              spanned = spanned;
              started = started;
              measured_all = all;
            })
      ]

  Measuring-count_sample :
      (done rest : List OpSample) (s : OpSample) (c : Counting second)
      → samples ≡ (done ++ s ∷ []) ++ rest
      → Measuring done c
      → Measuring (done ++ s ∷ []) (count_sample second s c)
  unfolding count_sample
  Measuring-count_sample done rest s c e m =
      let stats =
        update_interval s.absolute_time (maybe_update_sample_type s.sample_type c.current) in
      Measuring-count_in (done ++ s ∷ []) rest s (c.count + s.total_ops) stats c.task_throughput e
        (rw ops-append (omega (arith, m.counted)))
        (rw (update-eq, span-snoc, m.spanned, m.started) refl) (rw update-eq m.started)
        m.measured_all

  Measuring-count_samples :
      (rest done : List OpSample) (c : Counting second)
      → samples ≡ done ++ rest
      → Measuring done c
      → Measuring samples (count_samples second rest c)
  unfolding count_samples
  Measuring-count_samples [] done c e m = subst (λ l. Measuring l c) (sym (e ∙ append-nil done)) m
  Measuring-count_samples (s ∷ rest) done c e m =
      let e' : samples ≡ (done ++ s ∷ []) ++ rest = e ∙ sym (append_assoc done (s ∷ []) rest) in
      Measuring-count_samples rest (done ++ s ∷ []) (count_sample second s c) e'
        (Measuring-count_sample done rest s c e' m)

  Measuring-add_final :
      (s : OpSample) (c : Counting second)
      → Measuring samples c
      → All (IsMeasured known samples) (add_final second s c).task_throughput
  Measuring-add_final s c m = elim (Bool-cases (can_add_final_throughput_sample c.current)) [
    | inl adds ↦
        let long : 0 < span known.start_time known.interval samples =
          ground (arith, adds, m.spanned) in
        let here : IsMeasured known samples
            (measured second s (finish_bucket second c.count c.current)) =
          (samples, [], sym (append-nil samples), rw (m.counted, m.spanned) refl, long) in
        rw adds (
          All-append (IsMeasured known samples) c.task_throughput
            (measured second s (finish_bucket second c.count c.current) ∷ []) m.measured_all
            (here, tt))
    | inr leaves ↦ rw leaves m.measured_all
  ]

-- Every throughput sample of a call is the number of operations that the task had when the call
-- began, plus those of a first part of the samples of the call, over the longest time since the
-- task's start up to there; and this time is never zero.
pub AreMeasured-calculate_task_throughput :
    (second bucket_interval : ℕ) (first_sample : OpSample) (others : List OpSample)
    (known : Option TaskStats)
    → All
        (IsMeasured
          (stats_or_new second bucket_interval first_sample known)
          (first_sample ∷ others))
        (calculate_task_throughput second bucket_interval first_sample others known).1
unfolding calculate_task_throughput
AreMeasured-calculate_task_throughput second bucket_interval first_sample others known =
    let stats = stats_or_new second bucket_interval first_sample known in
    let begin : Counting second = record {
      current = stats;
      count = stats.total_count;
      task_throughput = [];
    } in
    Measuring-add_final second stats (first_sample ∷ others) (last_of second first_sample others)
      (count_samples second (first_sample ∷ others) begin)
      (Measuring-count_samples second stats (first_sample ∷ others) (first_sample ∷ others) [] begin
        refl (record { counted = omega arith; spanned = refl; started = refl; measured_all = tt }))
