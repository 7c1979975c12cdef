-- ===== src/Scheduler/Driven.antt =====
-- osbenchmark/worker_coordinator/scheduler.py and worker_coordinator.py: the times of the requests of a
-- client that asks its `UnitAwareScheduler` before each request and tells it the response.
use solr_benchmark.Prelude.{
  ℕ, zero, suc, ◌⊎◌, ◌+◌, ◌*◌, ◌<◌, min, ◌≡◌, refl, ap, true, false, some, List, [], ◌∷◌, ◌++◌,
  ◌==◌, ltb, if◌then◌else◌, Bool-cases, inl, inr, ==_iff, arith,
}
use solr_benchmark.Prelude.Text.{Text, codes, equal_texts}
use solr_benchmark.Result.{Result, ok, ◌>>=◌}
use solr_benchmark.Scheduler.{SchedulerClass, class, deterministic_class}
use solr_benchmark.Scheduler.Target.{Target}
use solr_benchmark.Scheduler.UnitAware.{
  Fraction, UnitAwareScheduler, new_unit_aware, Inner, deterministic, throttled_weight,
  after_request, adjust, next_time,
}

module _ (expovariate : Fraction → Fraction)
    (custom_next : SchedulerClass → Fraction → Fraction → Fraction) where
  -- The times that `ScheduleHandle.__call__` yields from `current` on, when the requests are answered with
  -- these weights in this unit; each answer comes before the next time is asked for.
  unfoldable pub request_times :
      Text → List ℕ → UnitAwareScheduler → Fraction → Result (List Fraction)
  unfolding next_time after_request
  request_times unit [] s current = ok (next_time expovariate custom_next s current ∷ [])
  request_times unit (weight ∷ weights) s current =
      let due = next_time expovariate custom_next s current in
      after_request weight unit s >>= λ t.
      request_times unit weights t due >>= λ later. ok (due ∷ later)

-- How much of a target an answer of this weight makes: its weight if the units are one, and one operation
-- if it is for operations.
pub data Counts (target_unit unit : Text) : (ℕ → ℕ) → Type 0 where
  in_its_unit :
      equal_texts (unit ++ codes "/s") target_unit ≡ true → Counts target_unit unit (λ w. w)
  in_operations :
      equal_texts (unit ++ codes "/s") target_unit ≡ false
      → equal_texts target_unit (codes "ops/s") ≡ true
      → Counts target_unit unit (λ w. min w 1)

ℕ-cases : (n : ℕ) → (n ≡ zero) ⊎ ((m : ℕ) × (n ≡ suc m))
ℕ-cases zero = inl refl
ℕ-cases (suc m) = inr (m, refl)

pub amount_of-zero :
    {target_unit unit : Text} {amount_of : ℕ → ℕ}
    → Counts target_unit unit amount_of
    → amount_of 0 ≡ 0
amount_of-zero (in_its_unit same) = refl
amount_of-zero (in_operations differs ops) = omega arith

module _ (target : Target) (task_clients : ℕ) where
  -- A request behind so much work, and `pace` of work since the answer before it, is due at the time in
  -- which the client's part of the target makes as much; then come the other answers.
  abbrev pub AreDue : ℕ → ℕ → List ℕ → List Fraction → Type 0
  AreDue work pace amounts [] = ⊥
  AreDue work pace [] (due ∷ later) =
      (0 < due.1)
      × (due.0 * target.numerator ≡ (work + pace) * (task_clients * target.denominator) * due.1)
      × (later ≡ [])
  AreDue work pace (amount ∷ amounts) (due ∷ later) =
      (0 < due.1)
      × (due.0 * target.numerator ≡ (work + pace) * (task_clients * target.denominator) * due.1)
      × AreDue (work + pace) (if amount == 0 then pace else amount) amounts later

  abbrev pub made : UnitAwareScheduler
  made = new_unit_aware (some target) task_clients (class deterministic_class)

  abbrev pub wait_of : ℕ → Inner
  wait_of pace = deterministic (target.denominator * task_clients * pace, target.numerator)

  -- The scheduler at a pace: as made at none.
  abbrev pub at_pace : ℕ → UnitAwareScheduler
  at_pace zero = made
  at_pace (suc n) = record made {
    first_request = false;
    current_weight = some (suc n);
    scheduler = wait_of (suc n);
  }

  module _ (unit : Text) (positive : 0 < target.numerator) (clients : 0 < task_clients) where
    adjust-at_pace :
        (pace weight n : ℕ)
        → throttled_weight target.target_unit weight (unit ++ codes "/s") ≡ ok (suc n)
        → adjust (at_pace pace) (some target) weight (unit ++ codes "/s") ≡ ok (at_pace (suc n))
    adjust-at_pace pace weight n throttled =
        let some_clients : (task_clients == 0) ≡ false = ground (arith, clients) in
        let some_target : (target.numerator == 0) ≡ false = ground (arith, positive) in
        elim (ℕ-cases pace) [
          | inl none_yet ↦ rw (none_yet, throttled, some_clients, some_target) refl
          | inr (p, paced) ↦ rw (paced, throttled, some_clients, some_target) refl
        ]

    -- An answer with some weight, which counts as `suc n`.
    heavy-at_pace :
        (pace w n : ℕ)
        → throttled_weight target.target_unit (suc w) (unit ++ codes "/s") ≡ ok (suc n)
        → (pace ≡ suc w → pace ≡ suc n)
        → after_request (suc w) unit (at_pace pace) ≡ ok (at_pace (suc n))
    unfolding after_request
    heavy-at_pace zero w n throttled known =
        let heavy : ltb 0 (suc w) ≡ true = ground arith in
        rw heavy (adjust-at_pace zero (suc w) n throttled)
    heavy-at_pace (suc p) w n throttled known =
        let heavy : ltb 0 (suc w) ≡ true = ground arith in
        elim (Bool-cases (suc p == suc w)) [
          | inr changed ↦ rw (heavy, changed) (adjust-at_pace (suc p) (suc w) n throttled)
          | inl kept ↦
              let same : suc p ≡ suc n = known ((==_iff (suc p) (suc w)).0 kept) in
              rw (heavy, kept) (ap (λ pace. ok (at_pace pace)) same)
        ]

    pub after_request-at_pace :
        {amount_of : ℕ → ℕ} (pace weight : ℕ)
        → Counts target.target_unit unit amount_of
        → amount_of pace ≡ pace
        → after_request weight unit (at_pace pace)
          ≡ ok (at_pace (if amount_of weight == 0 then pace else amount_of weight))
    unfolding after_request
    after_request-at_pace pace zero (in_its_unit same) fixed = refl
    after_request-at_pace pace zero (in_operations differs ops) fixed = refl
    after_request-at_pace pace (suc w) (in_its_unit same) fixed =
        let heavy : (suc w == 0) ≡ false = ground arith in
        rw heavy (heavy-at_pace pace w w (rw same refl) (λ e. e))
    after_request-at_pace pace (suc w) (in_operations differs ops) fixed =
        let one : min (suc w) 1 ≡ 1 = omega arith in
        rw one (heavy-at_pace pace w 0 (rw (differs, ops) refl) (λ e. omega (arith, e, fixed)))

    pub amount_of-next :
        {amount_of : ℕ → ℕ} (pace weight : ℕ)
        → Counts target.target_unit unit amount_of
        → amount_of pace ≡ pace
        → amount_of (if amount_of weight == 0 then pace else amount_of weight)
          ≡ (if amount_of weight == 0 then pace else amount_of weight)
    amount_of-next pace weight (in_its_unit same) fixed = refl
    amount_of-next pace weight (in_operations differs ops) fixed =
        elim (Bool-cases (min weight 1 == 0)) [
          | inl light ↦ rw light fixed
          | inr heavy ↦ rw heavy (omega arith)
        ]
