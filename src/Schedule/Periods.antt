-- ===== src/Schedule/Periods.antt =====
-- A schedule by time over an endless parameter source.
use solr_benchmark.Prelude.{
  ℕ, ◌+◌, ◌-◌, ◌*◌, ◌≡◌, refl, Bool, true, false, not, some, List, [], ◌∷◌, map, ltb, leb,
  if◌then◌else◌, Bool-cases, inl, inr, arith,
}
use solr_benchmark.Schedule.{
  SampleType, warmup, normal, LoopControl, time_period_based, ParamSource, Scheduler, Invocation,
  invocations, yield_next, next, start, infinite, completed, sample_type, task_progress,
  new_time_period_based, client_duration,
}
use solr_benchmark.Schedule.Iterations.{IsEndless, running_at}

-- itertools.takewhile
abbrev pub take_while {ℓ} : {A : Type ℓ} → (A → Bool) → List A → List A
take_while p [] = []
take_while p (x ∷ xs) = let rest = take_while p xs in if p x then x ∷ rest else []

abbrev pub type_at : ℕ → ℕ → ℕ → SampleType
type_at warmup_period started t = if ltb (t - started) warmup_period then warmup else normal

-- The time since the start is less than the client's duration.
abbrev pub is_early : ℕ × ℕ → ℕ → ℕ → Bool
is_early (over, clients) started t = not (leb over ((t - started) * clients))

abbrev pub types : {P : Type 0} → List (Invocation P) → List SampleType
types = map (λ i. i.type)

module _ {σ P S : Type 0} (source : ParamSource σ P) (sched : Scheduler S)
    (endless : IsEndless source sched) where
  module _ (w n d clients started : ℕ) where
    abbrev pub timer : ℕ → LoopControl
    timer now = time_period_based (record {
      warmup_time_period = w;
      time_period = some n;
      duration = some (d, clients);
      start_time = started;
      now = now;
    })

    late :
        (t : ℕ) (readings : List ℕ) (point : ℕ) (s : σ) (q : S)
        → is_early (d, clients) started t ≡ false
        → invocations source sched readings (running_at source sched point (timer t) s q) ≡ []
    unfolding invocations yield_next infinite completed
    late t [] point s q over =
        let e : leb d ((t - started) * clients) ≡ true = ground (arith, over) in rw e refl
    late t (_ ∷ readings) point s q over =
        let e : leb d ((t - started) * clients) ≡ true = ground (arith, over) in rw e refl

    yields :
        (t point : ℕ) (s : σ) (q : S)
        → is_early (d, clients) started t ≡ true
        → (i : Invocation P) × (s' : σ) × (yield_next source sched
              (running_at source sched point (timer t) s q)
            ≡ some (
              i,
              running_at source sched
                  (sched.next_point q point).0
                  (timer t)
                  s'
                  (sched.next_point q point).1,
            ))
          × (i.type ≡ type_at w started t)
    unfolding yield_next infinite completed sample_type task_progress
    yields t point s q early =
        let (p, s', e) = endless s in
        let in_time : leb d ((t - started) * clients) ≡ false = ground (arith, early) in
        (
          record {
            next_scheduled = (sched.next_point q point).0;
            type = type_at w started t;
            progress = some ((t - started) * clients, d);
            params = p;
          },
          s',
          rw (in_time, e) refl,
          refl,
        )

    types-from :
        (readings : List ℕ) (t point : ℕ) (s : σ) (q : S)
        → types (invocations source sched readings (running_at source sched point (timer t) s q))
          ≡ map (type_at w started) (take_while (is_early (d, clients) started) (t ∷ readings))
    unfolding invocations next
    types-from [] t point s q = elim (Bool-cases (is_early (d, clients) started t)) [
      | inr over ↦ rw (late t [] point s q over, over) refl
      | inl early ↦ let (i, s', e, m) = yields t point s q early in rw (e, m, early) refl
    ]
    types-from (u ∷ readings) t point s q = elim (Bool-cases (is_early (d, clients) started t)) [
      | inr over ↦ rw (late t (u ∷ readings) point s q over, over) refl
      | inl early ↦
          let (i, s', e, m) = yields t point s q early in
          let rest =
            types-from readings u (sched.next_point q point).0 s' (sched.next_point q point).1 in
          rw (e, m, early, rest) refl
    ]

  -- With an endless parameter source, a schedule with a warm-up and a time period yields an
  -- invocation at its start and after each reading of the clock until the first that is not before the
  -- end of the client's duration, and none from there on; those in the warm-up period are warm-up.
  pub types-invocations :
      (w n ramp_down index total started : ℕ) (readings : List ℕ) (s : σ) (q : S)
      → types (
          invocations source sched readings (
            running_at source sched 0
              (start started
                (time_period_based (new_time_period_based w (some n) ramp_down index total)))
              s
              q))
        ≡ map (type_at w started) (
            take_while
              (is_early (client_duration (w + n) ramp_down index total) started)
              (started ∷ readings))
  unfolding new_time_period_based start
  types-invocations w n ramp_down index total started readings s q =
      let (d, clients) = client_duration (w + n) ramp_down index total in
      types-from w n d clients started readings started 0 s q
