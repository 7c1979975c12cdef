-- ===== src/Prelude/Rounding.antt =====
-- Python's `math.ceil` and `round` of a quotient of natural numbers, and how indices fall to the
-- classes modulo a number. Quotients are exact here, where Python divides in floating point.
use native.Mathlib.Nat.{
  mod-lt, div-add-mod', div-eq_of_lt-le, mul-div_left, mul-mod_left, le-div_iff_mul-le,
}
use native.Mathlib.Decide.{dec_lt}
use solr_benchmark.Prelude.{
  ℕ, ◌+◌, ◌-◌, ◌*◌, ◌/◌, ◌%◌, ◌≤◌, ◌<◌, ◌≡◌, ap, ◌⊎◌, inl, inr, ◌&&◌, arith, ltb, leb, ◌==◌,
  if◌then◌else◌,
}

-- math.ceil(a / b)
abbrev pub ceil_div : ℕ → ℕ → ℕ
ceil_div a b = a / b + (if a % b == 0 then 0 else 1)

pub le-ceil_div : (a b : ℕ) → 0 < b → a ≤ ceil_div a b * b
le-ceil_div a b h = ground (arith, div-add-mod' a b, mod-lt a h)

-- How many of the indices below `k` fall to client `r`.
abbrev pub share : ℕ → ℕ → ℕ → ℕ
share m k r = k / m + (if ltb r (k % m) then 1 else 0)

round-rest : (m k q : ℕ) → (k + 1) / m ≡ q → (k + 1) % m ≡ k + 1 - q * m
round-rest m k q e =
    let f : (k + 1) / m * m ≡ q * m = ap (λ (t : ℕ). t * m) e in
    omega (arith, div-add-mod' (k + 1) m)

-- A step stays in the round of `m` clients, or starts the next one.
round-suc :
    (m k : ℕ)
    → 0 < m
    → ((k % m + 1 < m) × ((k + 1) / m ≡ k / m) × ((k + 1) % m ≡ k % m + 1))
      ⊎ ((k % m + 1 ≡ m) × ((k + 1) / m ≡ k / m + 1) × ((k + 1) % m ≡ 0))
round-suc m k h = elim (dec_lt (k % m + 1) m) [
  | yes more ↦
      let same : (k + 1) / m ≡ k / m =
        div-eq_of_lt-le {k = k / m} m (omega (arith, div-add-mod' k m))
          (omega (arith, div-add-mod' k m)) in
      inl (more, same, omega (arith, round-rest m k (k / m) same, div-add-mod' k m))
  | no done ↦
      let full : k % m + 1 ≡ m = omega (arith, mod-lt k h) in
      let next : (k + 1) / m ≡ k / m + 1 =
        div-eq_of_lt-le {k = k / m + 1} m (omega (arith, div-add-mod' k m))
          (omega (arith, div-add-mod' k m)) in
      inr (full, next, omega (arith, round-rest m k (k / m + 1) next, div-add-mod' k m))
]

pub share-suc :
    (m k r : ℕ) → r < m → share m (k + 1) r ≡ share m k r + (if r == k % m then 1 else 0)
share-suc m k r h = ground (arith, round-suc m k (omega arith))

pub share-le-ceil :
    (m k r : ℕ)
    → r < m
    → ceil_div k m ≡ share m k r + (if ltb 0 (k % m) && leb (k % m) r then 1 else 0)
share-le-ceil m k r h = grind arith

-- round(a / b): to the nearest number, and a tie to the even one
abbrev pub round_div : ℕ → ℕ → ℕ
round_div a b =
    let q = a / b in
    let r = a % b in
    if ltb (2 * r) b then q else if ltb b (2 * r) then q + 1 else if q % 2 == 0 then q else q + 1

round_div_cases :
    (a b : ℕ)
    → ((round_div a b ≡ a / b) × (2 * (a % b) ≤ b))
      ⊎ ((round_div a b ≡ a / b + 1) × (b ≤ 2 * (a % b)))
round_div_cases a b = ground arith

-- A rounded quotient is off by a half at most.
pub round_div_near :
    (a b : ℕ)
    → 0 < b
    → (2 * (round_div a b * b) ≤ 2 * a + b) × (2 * a ≤ 2 * (round_div a b * b) + b)
round_div_near a b h = elim (round_div_cases a b) [
  | inl (down, small) ↦ rw down (omega (arith, div-add-mod' a b), omega (arith, div-add-mod' a b))
  | inr (up, large) ↦
      rw up (omega (arith, div-add-mod' a b, mod-lt a h), omega (arith, div-add-mod' a b))
]

pub round_div_mono : (a c b : ℕ) → 0 < b → a ≤ c → round_div a b ≤ round_div c b
round_div_mono a c b h le =
    let step : a / b ≤ c / b = (le-div_iff_mul-le h).1 (omega (arith, div-add-mod' a b)) in
    elim (dec_lt (a / b) (c / b)) [
      | yes apart ↦ ground (arith, round_div_cases a b, round_div_cases c b)
      | no close ↦
          let same : a / b ≡ c / b = omega arith in
          let scaled : a / b * b ≡ c / b * b = ap (λ (t : ℕ). t * b) same in
          let rest : a % b ≤ c % b = omega (arith, div-add-mod' a b, div-add-mod' c b) in
          ground arith
    ]

pub round_div-mul : (a b : ℕ) → 0 < b → round_div (a * b) b ≡ a
round_div-mul a b h = ground (arith, mul-div_left a {n = b} h, mul-mod_left a b)

-- The quotient rounded up is the least number whose product reaches.
pub ceil_div-least : (a b n : ℕ) → 0 < b → a ≤ n * b → ceil_div a b ≤ n
ceil_div-least a b n h reaches = elim (dec_lt n (a / b)) [
  | yes above ↦
      let over : (n + 1) * b ≤ a = (le-div_iff_mul-le h).0 (omega arith) in
      absurd (grind (arith, over, reaches))
  | no within ↦ elim (dec_lt (a / b) n) [
    | yes below ↦ ground arith
    | no same ↦
        let e : a / b ≡ n = omega arith in
        let scaled : a / b * b ≡ n * b = ap (λ (t : ℕ). t * b) e in
        let exact : a % b ≡ 0 = omega (arith, div-add-mod' a b, scaled, reaches) in
        rw (exact, e) (omega arith)
  ]
]
