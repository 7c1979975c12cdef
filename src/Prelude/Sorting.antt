-- ===== src/Prelude/Sorting.antt =====
-- Python's `sorted` on numbers, by insertion, `min` and `max`.
use solr_benchmark.Prelude.{
  ◌≤◌, min, max, arith, ◌≡◌, refl, length, suc, ℕ, List, [], ◌∷◌, leb, if◌then◌else◌, All,
  Bool-cases, inl, inr,
}

unfoldable pub insert : ℕ → List ℕ → List ℕ
insert n [] = n ∷ []
insert n (m ∷ ms) = let further = insert n ms in if leb n m then n ∷ m ∷ ms else m ∷ further

unfoldable pub sorted : List ℕ → List ℕ
unfolding insert
sorted [] = []
sorted (n ∷ ns) = insert n (sorted ns)

All-insert {ℓ} : (P : ℕ → Type ℓ) (n : ℕ) (ms : List ℕ) → P n → All P ms → All P (insert n ms)
unfolding insert
All-insert P n [] p h = (p, tt)
All-insert P n (m ∷ ms) p h = elim (Bool-cases (leb n m)) [
  | inl e ↦ rw e (p, h)
  | inr e ↦ rw e (h.0, All-insert P n ms p h.1)
]

pub All-sorted {ℓ} : (P : ℕ → Type ℓ) (ns : List ℕ) → All P ns → All P (sorted ns)
unfolding sorted
All-sorted P [] h = tt
All-sorted P (n ∷ ns) h = All-insert P n (sorted ns) h.0 (All-sorted P ns h.1)

length-insert : (n : ℕ) (ms : List ℕ) → length (insert n ms) ≡ suc (length ms)
unfolding insert
length-insert n [] = refl
length-insert n (m ∷ ms) = elim (Bool-cases (leb n m)) [
  | inl e ↦ rw e refl
  | inr e ↦ rw (e, length-insert n ms) refl
]

pub length-sorted : (ns : List ℕ) → length (sorted ns) ≡ length ns
unfolding sorted
length-sorted [] = refl
length-sorted (n ∷ ns) = rw (length-insert n (sorted ns), length-sorted ns) refl

-- The least and the largest of some numbers.
abbrev pub least : ℕ → List ℕ → ℕ
least x [] = x
least x (y ∷ ys) = min x (least y ys)

abbrev pub largest : ℕ → List ℕ → ℕ
largest x [] = x
largest x (y ∷ ys) = max x (largest y ys)

abbrev pub IsBetween : ℕ → ℕ → ℕ → Type 0
IsBetween low high x = (low ≤ x) × (x ≤ high)

All-widen :
    (low high low' high' : ℕ) (xs : List ℕ)
    → low' ≤ low
    → high ≤ high'
    → All (IsBetween low high) xs
    → All (IsBetween low' high') xs
All-widen low high low' high' [] a b h = tt
All-widen low high low' high' (x ∷ xs) a b h =
    ((omega (arith, h.0.0, a), omega (arith, h.0.1, b)), All-widen low high low' high' xs a b h.1)

pub All-IsBetween : (x : ℕ) (xs : List ℕ) → All (IsBetween (least x xs) (largest x xs)) (x ∷ xs)
All-IsBetween x [] = ((omega arith, omega arith), tt)
All-IsBetween x (y ∷ ys) = (
  (omega arith, omega arith),
  All-widen (least y ys) (largest y ys) (min x (least y ys)) (max x (largest y ys)) (y ∷ ys)
      (omega arith) (omega arith) (All-IsBetween y ys),
)
