-- ===== src/Metrics/Between.antt =====
-- osbenchmark/metrics.py: a percentile is found, and lies between the least and the largest value.
use solr_benchmark.Prelude.{
  ℕ, zero, suc, ◌+◌, ◌-◌, ◌*◌, ◌/◌, ◌%◌, ◌≤◌, ◌<◌, ◌≡◌, refl, some, List, [], ◌∷◌, ◌==◌, length,
  get_elem?, All, arith, Bool-cases, inl, inr,
}
use native.Mathlib.Nat.{mul-le-mul_left, mul-le-mul_right}
use solr_benchmark.Prelude.Sorting.{
  least, largest, IsBetween, All-IsBetween, sorted, All-sorted, length-sorted,
}
use solr_benchmark.Result.{ok}
use solr_benchmark.Metrics.Percentiles.{Percentile, hundred, interpolated, percentile_value}

index_in_range : (a n d : ℕ) → 0 < d → a ≤ d → (a * n) / d ≤ n
index_in_range a n d positive below = grind arith

next_in_range : (a n d : ℕ) → 0 < d → a ≤ d → 0 < (a * n) % d → (a * n) / d + 1 ≤ n
next_in_range a n d positive below part = grind arith

get_elem?-All {ℓ} :
    (P : ℕ → Type ℓ) (xs : List ℕ) (i : ℕ)
    → i < length xs
    → All P xs
    → (y : ℕ) × (get_elem? xs i ≡ some y) × P y
get_elem?-All P [] i inside h = absurd (omega (arith, inside))
get_elem?-All P (x ∷ xs) zero inside h = (x, refl, h.0)
get_elem?-All P (x ∷ xs) (suc i) inside h = get_elem?-All P xs i (omega (arith, inside)) h.1

interpolated_low : (low a b r d : ℕ) → low ≤ a → low * d ≤ a * d + (b - a) * r
interpolated_low low a b r d h = grind arith

product_high : (high a c r d : ℕ) → a + c ≤ high → r ≤ d → a * d + c * r ≤ high * d
product_high high a c r d fits hr =
    let one : c * r ≤ c * d = mul-le-mul_left c hr in
    let two : (a + c) * d ≤ high * d = mul-le-mul_right d fits in omega (arith, one, two)

interpolated_high :
    (high a b r d : ℕ) → a ≤ high → b ≤ high → r ≤ d → a * d + (b - a) * r ≤ high * d
interpolated_high high a b r d ha hb hr = product_high high a (b - a) r d (omega arith) hr

remainder_le : (a d : ℕ) → 0 < d → a % d ≤ d
remainder_le a d h = grind arith

-- Of values between two bounds, a percentile is found and lies between the bounds.
percentile_found :
    (low high : ℕ) (xs : List ℕ) (p : Percentile)
    → 0 < length xs
    → 0 < p.1
    → p.0 ≤ hundred p
    → All (IsBetween low high) xs
    → (v : ℕ × ℕ) × (percentile_value xs p ≡ ok v)
      × (0 < v.1)
      × (low * v.1 ≤ v.0)
      × (v.0 ≤ high * v.1)
unfolding percentile_value
percentile_found low high xs p full positive below h =
    let n = length xs - 1 in
    let rank = p.0 * n in
    let whole = hundred p in
    let at_lower : rank / whole ≤ n = index_in_range p.0 n whole (omega arith) below in
    let (lower, found, in_lower) =
      get_elem?-All (IsBetween low high) xs (rank / whole) (omega (arith, at_lower, full)) h in
    elim (Bool-cases (rank % whole == 0)) [
      | inl exact ↦ (
        (lower, 1),
        rw (exact, found) refl,
        omega arith,
        omega (arith, in_lower),
        omega (arith, in_lower),
      )
      | inr between ↦
          let part : 0 < rank % whole = ground (arith, between) in
          let at_higher : rank / whole + 1 ≤ n =
            next_in_range p.0 n whole (omega arith) below part in
          let (higher, next_found, in_higher) =
            get_elem?-All (IsBetween low high) xs (rank / whole + 1)
              (omega (arith, at_higher, full)) h in
          let small : rank % whole ≤ whole = remainder_le rank whole (omega arith) in
          (
            interpolated lower higher (rank % whole) whole,
            rw (between, found, next_found) refl,
            omega arith,
            interpolated_low low lower higher (rank % whole) whole in_lower.0,
            interpolated_high high lower higher (rank % whole) whole in_lower.1 in_higher.1 small,
          )
    ]

-- A percentile of at most 100 of one value or more is found, and lies between the least and the largest
-- of the values: the rank never leaves the list.
pub percentile_value-sorted :
    (x : ℕ) (xs : List ℕ) (p : Percentile)
    → 0 < p.1
    → p.0 ≤ hundred p
    → (v : ℕ × ℕ) × (percentile_value (sorted (x ∷ xs)) p ≡ ok v)
      × (0 < v.1)
      × (least x xs * v.1 ≤ v.0)
      × (v.0 ≤ largest x xs * v.1)
percentile_value-sorted x xs p positive below =
    let counted : length (sorted (x ∷ xs)) ≡ length (x ∷ xs) = length-sorted (x ∷ xs) in
    percentile_found (least x xs) (largest x xs) (sorted (x ∷ xs)) p (omega (arith, counted))
      positive below
      (All-sorted (IsBetween (least x xs) (largest x xs)) (x ∷ xs) (All-IsBetween x xs))
