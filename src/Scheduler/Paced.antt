-- ===== src/Scheduler/Paced.antt =====
-- osbenchmark/worker_coordinator/scheduler.py: the rate of a `UnitAwareScheduler` after the responses of
-- one runner, which reports one unit.
use solr_benchmark.Prelude.{
  ℕ, ◌≡◌, refl, sym, Option, none, some, List, [], ◌∷◌, ◌++◌, ◌==◌, ltb, if◌then◌else◌, Bool-cases,
  inl, inr, ==_iff,
}
use solr_benchmark.Prelude.Text.{Text, codes, equal_texts}
use solr_benchmark.Result.{Result, ok, raise, assertion_error, ◌>>=◌, bind-eq-ok}
use solr_benchmark.Scheduler.{Registered}
use solr_benchmark.Scheduler.Target.{Target, ops_per_second}
use solr_benchmark.Scheduler.UnitAware.{
  Inner, instance_of, UnitAwareScheduler, new_unit_aware, throttled_weight, rate_of, rescheduled,
  adjust, after_request,
}

-- `after_request` of each response in turn.
unfoldable pub after_requests : List ℕ → Text → UnitAwareScheduler → Result UnitAwareScheduler
unfolding after_request
after_requests [] unit s = ok s
after_requests (weight ∷ weights) unit s =
    after_request weight unit s >>= after_requests weights unit

-- The last weight that is not 0, `last` when there is none.
abbrev pub last_weight : Option ℕ → List ℕ → Option ℕ
last_weight last [] = last
last_weight last (weight ∷ weights) =
    last_weight (if ltb 0 weight then some weight else last) weights

-- The weight that was throttled on is a fixed point.
throttled_twice :
    (expected actual : Text) (last : ℕ) {weight : ℕ}
    → throttled_weight expected last actual ≡ ok weight
    → throttled_weight expected weight actual ≡ ok weight
throttled_twice expected actual last {weight} e = elim (Bool-cases (equal_texts actual expected)) [
  | inl same ↦ rw same refl
  | inr differs ↦ elim (Bool-cases (equal_texts expected ops_per_second)) [
    | inl ops ↦ rw (differs, ops) (rw (differs, ops) at e)
    | inr docs ↦
        (let refused : raise assertion_error ≡ ok weight = rw (differs, docs) at e in cc refused)
  ]
]

module _ (target : Target) (task_clients : ℕ) (scheduler_class : Registered) (unit : Text) where
  abbrev pub actual_unit : Text
  actual_unit = unit ++ codes "/s"

  abbrev pub new_scheduler : UnitAwareScheduler
  new_scheduler = new_unit_aware (some target) task_clients scheduler_class

  -- Paced by the last weight: the wait or the rate is the target's over the clients and the weight.
  abbrev pub IsPaced : Option ℕ → UnitAwareScheduler → Type 0
  IsPaced none s = s ≡ new_scheduler
  IsPaced (some last) s =
      (weight : ℕ) × (inner : Inner) × (throttled_weight target.target_unit last actual_unit
        ≡ ok weight)
      × (rate_of target task_clients weight >>= instance_of scheduler_class ≡ ok inner)
      × (s ≡ rescheduled new_scheduler weight inner)

  adjusts :
      (last : ℕ) (t : UnitAwareScheduler)
      → adjust new_scheduler (some target) last actual_unit ≡ ok t
      → IsPaced (some last) t
  adjusts last t e =
      let (weight, throttled, e') =
        bind-eq-ok (throttled_weight target.target_unit last actual_unit) _ e in
      let (rate, rated, e'') = bind-eq-ok (rate_of target task_clients weight) _ e' in
      let (inner, made, done) = bind-eq-ok (instance_of scheduler_class rate) _ e'' in
      let whole : rate_of target task_clients weight >>= instance_of scheduler_class ≡ ok inner =
        rw (rated, made) refl in
      (weight, inner, throttled, whole, sym (cc done))

  first_request-IsPaced :
      (weight : ℕ) (t : UnitAwareScheduler)
      → after_request weight unit new_scheduler ≡ ok t
      → IsPaced (if ltb 0 weight then some weight else none) t
  unfolding after_request
  first_request-IsPaced weight t e = elim (Bool-cases (ltb 0 weight)) [
    | inl heavy ↦ rw heavy (adjusts weight t (rw heavy at e))
    | inr light ↦ let same : ok new_scheduler ≡ ok t = rw light at e in rw light (sym (cc same))
  ]

  later_request-IsPaced :
      (last used weight : ℕ) (inner : Inner) (t : UnitAwareScheduler)
      → throttled_weight target.target_unit last actual_unit ≡ ok used
      → rate_of target task_clients used >>= instance_of scheduler_class ≡ ok inner
      → after_request weight unit (rescheduled new_scheduler used inner) ≡ ok t
      → IsPaced (if ltb 0 weight then some weight else some last) t
  unfolding after_request
  later_request-IsPaced last used weight inner t one two e = elim (Bool-cases (ltb 0 weight)) [
    | inr light ↦
        let same : ok (rescheduled new_scheduler used inner) ≡ ok t = rw light at e in
        rw light (used, inner, one, two, sym (cc same))
    | inl heavy ↦ elim (Bool-cases (used == weight)) [
      | inr changed ↦ rw heavy (adjusts weight t (rw (heavy, changed) at e))
      | inl kept ↦
          let same : ok (rescheduled new_scheduler used inner) ≡ ok t = rw (heavy, kept) at e in
          let again : throttled_weight target.target_unit used actual_unit ≡ ok used =
            throttled_twice target.target_unit actual_unit last one in
          let equal : used ≡ weight = (==_iff used weight).0 kept in
          rw (heavy, sym equal) (used, inner, again, two, sym (cc same))
    ]
  ]

  after_request-IsPaced :
      (last : Option ℕ) (weight : ℕ) (s t : UnitAwareScheduler)
      → IsPaced last s
      → after_request weight unit s ≡ ok t
      → IsPaced (if ltb 0 weight then some weight else last) t
  after_request-IsPaced none weight s t h e = first_request-IsPaced weight t (rw h at e)
  after_request-IsPaced (some last) weight s t (used, inner, one, two, three) e =
      later_request-IsPaced last used weight inner t one two (rw three at e)

  after_requests-IsPaced :
      (last : Option ℕ) (weights : List ℕ) (s t : UnitAwareScheduler)
      → IsPaced last s
      → after_requests weights unit s ≡ ok t
      → IsPaced (last_weight last weights) t
  unfolding after_requests
  after_requests-IsPaced last [] s t h e = let same : s ≡ t = cc e in rw same at h
  after_requests-IsPaced last (weight ∷ weights) s t h e =
      let (middle, one, rest) = bind-eq-ok (after_request weight unit s) _ e in
      after_requests-IsPaced (if ltb 0 weight then some weight else last) weights middle t
        (after_request-IsPaced last weight s middle h one) rest

  -- After any responses of one unit a new scheduler that has not failed is paced by the last response
  -- whose weight is not 0, unthrottled before the first: its rate is the target over the clients and
  -- that weight, or over the clients alone when the target is in operations and the responses are not.
  pub IsPaced-after_requests :
      (weights : List ℕ) (s : UnitAwareScheduler)
      → after_requests weights unit new_scheduler ≡ ok s
      → IsPaced (last_weight none weights) s
  IsPaced-after_requests weights s e = after_requests-IsPaced none weights new_scheduler s refl e
