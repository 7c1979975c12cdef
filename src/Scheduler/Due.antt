-- ===== src/Scheduler/Due.antt =====
-- osbenchmark/worker_coordinator/scheduler.py: when the requests of a client are due.
use solr_benchmark.Prelude.{
  ℕ, zero, suc, ◌+◌, ◌*◌, ◌<◌, ◌≡◌, refl, ap, some, List, [], ◌∷◌, map, ◌==◌, if◌then◌else◌,
  Bool-cases, inl, inr, arith,
}
use solr_benchmark.Prelude.Text.{Text}
use solr_benchmark.Result.{ok}
use solr_benchmark.Scheduler.{SchedulerClass, class, deterministic_class}
use solr_benchmark.Scheduler.Target.{Target}
use solr_benchmark.Scheduler.UnitAware.{Fraction, new_unit_aware, next_of, next_time}
use solr_benchmark.Scheduler.Driven.{
  request_times, Counts, amount_of-zero, AreDue, at_pace, after_request-at_pace, amount_of-next,
}

step_product :
    (a b n d w c pace : ℕ)
    → a * n ≡ w * (c * d) * b
    → (a * n + d * c * pace * b) * n ≡ (w + pace) * (c * d) * (b * n)
step_product a b n d w c pace e =
    let scaled : a * n * n ≡ w * (c * d) * b * n = ap (λ (x : ℕ). x * n) e in omega (arith, scaled)

positive_product : (b n : ℕ) → 0 < b → 0 < n → 0 < b * n
positive_product b n below above = grind (arith, below, above)

-- No pace behind an answer: there was none before, and the answer makes nothing.
pace-zero :
    (amount pace work : ℕ)
    → (pace ≡ 0 → work ≡ 0)
    → (if amount == 0 then pace else amount) ≡ 0
    → work + pace ≡ 0
pace-zero amount pace work start e = elim (Bool-cases (amount == 0)) [
  | inl light ↦ let none_yet : pace ≡ 0 = rw light at e in omega (arith, none_yet, start none_yet)
  | inr heavy ↦ let nothing : amount ≡ 0 = rw heavy at e in absurd (ground (arith, heavy, nothing))
]

module _ (target : Target) (task_clients : ℕ) (expovariate : Fraction → Fraction)
    (custom_next : SchedulerClass → Fraction → Fraction → Fraction) (unit : Text)
    (positive : 0 < target.numerator) (clients : 0 < task_clients) where
  -- The time at which so much work is due.
  abbrev pub IsAt : ℕ → Fraction → Type 0
  IsAt work due =
      (0 < due.1) × (due.0 * target.numerator ≡ work * (task_clients * target.denominator) * due.1)

  IsAt-next_time :
      (pace work : ℕ) (current : Fraction)
      → (pace ≡ 0 → work ≡ 0)
      → IsAt work current
      → IsAt
          (work + pace)
          (next_time expovariate custom_next (at_pace target task_clients pace) current)
  unfolding next_time next_of
  IsAt-next_time zero work current start (below, at) =
      let begun : work ≡ 0 = start refl in (omega arith, rw begun (omega arith))
  IsAt-next_time (suc p) work (a, b) start (below, at) = (
    positive_product b target.numerator below positive,
    step_product a b target.numerator target.denominator work task_clients (suc p) at,
  )

  request_times-eq-ok :
      {amount_of : ℕ → ℕ} (weights : List ℕ) (pace work : ℕ) (current : Fraction)
      → Counts target.target_unit unit amount_of
      → amount_of pace ≡ pace
      → (pace ≡ 0 → work ≡ 0)
      → IsAt work current
      → (dues : List Fraction) × (request_times expovariate custom_next unit weights
            (at_pace target task_clients pace)
            current
          ≡ ok dues)
        × AreDue target task_clients work pace (map amount_of weights) dues
  unfolding request_times
  request_times-eq-ok [] pace work current counts fixed start at =
      let (below, due) = IsAt-next_time pace work current start at in (_, refl, (below, due, refl))
  request_times-eq-ok {amount_of} (weight ∷ weights) pace work current counts fixed start at =
      let due = next_time expovariate custom_next (at_pace target task_clients pace) current in
      let here = IsAt-next_time pace work current start at in
      let amount = amount_of weight in
      let next_pace = if amount == 0 then pace else amount in
      let answered =
        after_request-at_pace target task_clients unit positive clients pace weight counts fixed in
      let begun : next_pace ≡ 0 → work + pace ≡ 0 = λ e. pace-zero amount pace work start e in
      let (dues, e, rest) =
        request_times-eq-ok weights next_pace (work + pace) due counts
          (amount_of-next target task_clients unit positive clients pace weight counts fixed) begun
          here in
      let whole : request_times expovariate custom_next unit (weight ∷ weights)
            (at_pace target task_clients pace) current
          ≡ ok (due ∷ dues) =
        rw (answered, e) refl in
      (due ∷ dues, whole, (here.0, here.1, rest))

-- A client of a task with a deterministic schedule asks for the time of a request, gets its answer, and
-- asks for the next, from the start of the task on, whatever the weights of the answers are, in
-- one unit, which is the target's or any for a target in operations. No answer
-- fails, and a request is due when the target, over the clients, makes the work in front of it: each
-- request behind the first answer of positive weight adds the last such weight to it, or one operation
-- where the target is in operations and the answers are not. Before that answer requests are due at
-- once. The target and the number of clients are positive.
pub request_times-AreDue :
    (target : Target) (task_clients : ℕ) (expovariate : Fraction → Fraction)
    (custom_next : SchedulerClass → Fraction → Fraction → Fraction) (unit : Text)
    (amount_of : ℕ → ℕ) (weights : List ℕ)
    → 0 < target.numerator
    → 0 < task_clients
    → Counts target.target_unit unit amount_of
    → (dues : List Fraction) × (request_times expovariate custom_next unit weights
          (new_unit_aware (some target) task_clients (class deterministic_class))
          (0, 1)
        ≡ ok dues)
      × AreDue target task_clients 0 0 (map amount_of weights) dues
request_times-AreDue target task_clients expovariate custom_next unit amount_of weights positive
      clients counts =
    request_times-eq-ok target task_clients expovariate custom_next unit positive clients weights 0
      0 (0, 1) counts (amount_of-zero counts) (λ e. refl) (omega arith, omega arith)
