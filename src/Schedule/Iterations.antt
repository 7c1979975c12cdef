-- ===== src/Schedule/Iterations.antt =====
-- A schedule by iterations over an endless parameter source.
use solr_benchmark.Prelude.{
  ℕ, zero, suc, ◌+◌, ◌≤◌, ◌<◌, ◌≡◌, refl, true, false, Option, some, List, [], ◌∷◌, map, ltb, leb,
  if◌then◌else◌, Bool-cases, inl, inr, ◌==◌, arith, length, range_from,
}
use solr_benchmark.Result.{ok}
use solr_benchmark.Schedule.{
  SampleType, warmup, normal, IterationBased, LoopControl, iteration_based, ParamSource, Scheduler,
  Invocation, Running, invocations, yield_next, next, new_iteration_based, start, infinite,
  completed, sample_type, task_progress,
}

-- Iteration `i` of so many, `warmup_iterations` of which come first.
abbrev pub iteration_of : ℕ → ℕ → ℕ → SampleType × Option (ℕ × ℕ)
iteration_of warmup_iterations total i =
    (if ltb i warmup_iterations then warmup else normal, some (i + 1, total))

abbrev pub counter : ℕ → ℕ → ℕ → LoopControl
counter warmup_iterations iterations it = iteration_based (record {
  warmup_iterations = warmup_iterations;
  iterations = some iterations;
  total_iterations = some (warmup_iterations + iterations);
  it = it;
})

abbrev pub iteration_marks : ℕ → ℕ → List (SampleType × Option (ℕ × ℕ))
iteration_marks w n = map (iteration_of w (w + n)) (range_from 0 (w + n))

module _ {σ P S : Type 0} (source : ParamSource σ P) (sched : Scheduler S) where
  -- The source never ends.
  abbrev pub IsEndless : Type 0
  IsEndless = (s : σ) → (p : P) × (s' : σ) × (source.params s ≡ some (p, s'))

  abbrev pub marks : List (Invocation P) → List (SampleType × Option (ℕ × ℕ))
  marks = map (λ i. (i.type, i.progress))

  abbrev pub running_at : ℕ → LoopControl → σ → S → Running source sched
  running_at point control s q = record {
    next_scheduled = point;
    control = control;
    source_state = s;
    sched_state = q;
  }

  module _ (endless : IsEndless) (w n : ℕ) where
    ends :
        (it : ℕ) (readings : List ℕ) (point : ℕ) (s : σ) (q : S)
        → w + n ≤ it
        → invocations source sched readings (running_at point (counter w n it) s q) ≡ []
    unfolding invocations yield_next infinite completed
    ends it [] point s q over = let t : leb (w + n) it ≡ true = ground arith in rw t refl
    ends it (_ ∷ readings) point s q over =
        let t : leb (w + n) it ≡ true = ground arith in rw t refl

    yields :
        (it point : ℕ) (s : σ) (q : S)
        → it < w + n
        → (i : Invocation P) × (s' : σ) × (yield_next source sched
              (running_at point (counter w n it) s q)
            ≡ some (
              i,
              running_at
                  (sched.next_point q point).0
                  (counter w n it)
                  s'
                  (sched.next_point q point).1,
            ))
          × ((i.type, i.progress) ≡ iteration_of w (w + n) it)
    unfolding yield_next infinite completed sample_type task_progress
    yields it point s q early =
        let (p, s', e) = endless s in
        let t : leb (w + n) it ≡ false = ground arith in
        (
          record {
            next_scheduled = (sched.next_point q point).0;
            type = if ltb it w then warmup else normal;
            progress = some (it + 1, w + n);
            params = p;
          },
          s',
          rw (t, e) refl,
          refl,
        )

    marks-from :
        (left it : ℕ) (readings : List ℕ) (point : ℕ) (s : σ) (q : S)
        → it + left ≡ w + n
        → left ≤ suc (length readings)
        → marks (invocations source sched readings (running_at point (counter w n it) s q))
          ≡ map (iteration_of w (w + n)) (range_from it left)
    unfolding invocations next
    marks-from zero it readings point s q fits enough =
        rw (ends it readings point s q (omega (arith, fits))) refl
    marks-from (suc left) it (t ∷ readings) point s q fits enough =
        let (i, s', e, m) = yields it point s q (omega (arith, fits)) in
        let rest =
          marks-from left (it + 1) readings (sched.next_point q point).0 s'
            (sched.next_point q point).1 (omega (arith, fits)) (omega (arith, enough)) in
        rw (e, m, rest) refl
    marks-from (suc left) it [] point s q fits enough =
        let (i, s', e, m) = yields it point s q (omega (arith, fits)) in
        let last : left ≡ 0 = omega (arith, enough) in rw (e, m, last) refl

    -- With an endless parameter source, and resumed at least until its end, a schedule with so many
    -- warm-up iterations and so many more yields exactly these: the warm-up first, then the others,
    -- each with its progress, which is one at the last. The constructor refuses no iterations at all.
    pub marks-invocations :
        (c : IterationBased) (t : ℕ) (readings : List ℕ) (s : σ) (q : S)
        → new_iteration_based w (some n) ≡ ok c
        → w + n ≤ suc (length readings)
        → marks (invocations source sched readings (running_at 0 (start t (iteration_based c)) s q))
          ≡ iteration_marks w n
    unfolding new_iteration_based start
    marks-invocations c t readings s q made enough = elim (Bool-cases (w + n == 0)) [
      | inl none_at_all ↦ cc (rw none_at_all at made)
      | inr some_left ↦
          let made' : ok (record {
            warmup_iterations = w;
            iterations = some n;
            total_iterations = some (w + n);
            it = 0;
          })
              ≡ ok c =
            rw some_left at made in
          let same : record {
            warmup_iterations = w;
            iterations = some n;
            total_iterations = some (w + n);
            it = 0;
          }
              ≡ c =
            cc made' in
          rw (← same) (marks-from (w + n) 0 readings 0 s q (omega arith) enough)
    ]
