-- ===== src/Versions/Nearest.antt =====
-- osbenchmark/utils/versions.py: the closest of the minor versions that are not above the target.
use solr_benchmark.Prelude.{
  ℕ, ◌≤◌, ◌≡◌, refl, ap, ◌∙◌, true, false, Option, none, some, List, [], ◌∷◌, ◌==◌, leb, max, All,
  arith, is_some, Bool-cases, inl, inr, ◌&&◌, ◌||◌,
}
use solr_benchmark.Prelude.Sorting.{insert, sorted, All-sorted}
use solr_benchmark.Prelude.Text.{Text}
use solr_benchmark.Result.{Result, ok, raise, ◌>>=◌}
use solr_benchmark.Versions.{Components, components, is_version_identifier}
use solr_benchmark.Versions.Branches.{
  VersionVariants, eligible, with_added, eligible_minor, eligible_minors, nearest, nearest_of,
  latest_bounded_minor,
}

-- The largest of the numbers, if there are any.
abbrev pub largest_from : ℕ → List ℕ → ℕ
largest_from best [] = best
largest_from best (x ∷ xs) = largest_from (max best x) xs

abbrev pub largest : List ℕ → Option ℕ
largest [] = none
largest (x ∷ xs) = some (largest_from 0 (x ∷ xs))

-- Below the target the closest number is the largest.
nearest-largest :
    (target best : ℕ) (xs : List ℕ)
    → best ≤ target
    → All (λ x. x ≤ target) xs
    → nearest target best xs ≡ largest_from best xs
unfolding nearest
nearest-largest target best [] h hs = refl
nearest-largest target best (x ∷ xs) h hs =
    ground (arith, nearest-largest target x xs, nearest-largest target best xs, hs)

largest_from-insert :
    (best x : ℕ) (xs : List ℕ) → largest_from best (insert x xs) ≡ largest_from best (x ∷ xs)
unfolding insert
largest_from-insert best x [] = refl
largest_from-insert best x (y ∷ xs) =
    let swapped : max (max best y) x ≡ max (max best x) y = omega arith in
    let further = largest_from-insert (max best y) x xs in
    elim (Bool-cases (leb x y)) [ inl e ↦ rw e refl | inr e ↦ rw (e, further, swapped) refl ]

largest_from-sorted :
    (best : ℕ) (xs : List ℕ) → largest_from best (sorted xs) ≡ largest_from best xs
unfolding sorted
largest_from-sorted best [] = refl
largest_from-sorted best (x ∷ xs) =
    rw (largest_from-insert best x (sorted xs), largest_from-sorted (max best x) xs) refl

largest-insert : (x : ℕ) (xs : List ℕ) → largest (insert x xs) ≡ some (largest_from 0 (insert x xs))
unfolding insert
largest-insert x [] = let zero_max : max 0 x ≡ x = omega arith in rw zero_max refl
largest-insert x (y ∷ xs) = elim (Bool-cases (leb x y)) [ inl e ↦ rw e refl | inr e ↦ rw e refl ]

largest-sorted : (xs : List ℕ) → largest (sorted xs) ≡ largest xs
unfolding sorted
largest-sorted [] = refl
largest-sorted (x ∷ xs) =
    rw
      (
        largest-insert x (sorted xs),
        largest_from-insert 0 x (sorted xs),
        largest_from-sorted (max 0 x) xs,
      )
      refl

nearest_of-largest :
    (target : ℕ) (xs : List ℕ) → All (λ x. x ≤ target) xs → nearest_of target xs ≡ largest xs
nearest_of-largest target [] h = refl
nearest_of-largest target (x ∷ xs) h =
    let zero_max : max 0 x ≡ x = omega arith in
    rw (nearest-largest target x xs h.0 h.1, zero_max) refl

-- The minor versions that were collected are at least 1, and not above the target.
abbrev pub AreEligible : VersionVariants → Result (List ℕ) → Type 0
AreEligible target (raise failure) = Unit
AreEligible target (ok minors) = All (λ x. (1 ≤ x) × (x ≤ target.minor)) minors

with_added_lem :
    (minor : Option ℕ) (target : ℕ) (minors : List ℕ)
    → eligible_minor minor target ≡ true
    → All (λ x. (1 ≤ x) × (x ≤ target)) minors
    → All (λ x. (1 ≤ x) × (x ≤ target)) (with_added minor minors)
with_added_lem none target minors e h = cc e
with_added_lem (some minor) target minors e h = ((ground (arith, e), ground (arith, e)), h)

eligible_lem :
    (parts : Components) (target : VersionVariants) (minors : List ℕ)
    → AreEligible target (ok minors)
    → AreEligible target (ok (eligible parts target minors))
eligible_lem parts target minors h =
    elim (Bool-cases (is_some parts.patch || is_some parts.suffix)) [
      | inl e ↦ rw e h
      | inr e ↦
          elim (Bool-cases
            (parts.major == target.major && eligible_minor parts.minor target.minor)) [
              | inl f ↦
                  rw (e, f) (with_added_lem parts.minor target.minor minors (ground (arith, f)) h)
              | inr f ↦ rw (e, f) h
            ]
    ]

counted :
    (parts : Components) (target : VersionVariants) (minors : Result (List ℕ))
    → AreEligible target minors
    → AreEligible target (minors >>= λ found. ok (eligible parts target found))
counted parts target (raise failure) h = tt
counted parts target (ok minors) h = eligible_lem parts target minors h

counted_after :
    (parts : Result Components) (target : VersionVariants) (minors : Result (List ℕ))
    → AreEligible target minors
    → AreEligible target (parts >>= λ read. minors >>= λ found. ok (eligible read target found))
counted_after (raise failure) target minors h = tt
counted_after (ok parts) target minors h = counted parts target minors h

eligible_minors-AreEligible :
    (alternatives : List Text) (target : VersionVariants)
    → AreEligible target (eligible_minors alternatives target)
unfolding eligible_minors
eligible_minors-AreEligible [] target = tt
eligible_minors-AreEligible (a ∷ alternatives) target =
    let further = eligible_minors-AreEligible alternatives target in
    elim (Bool-cases (is_version_identifier false (some a))) [
      | inl e ↦
          rw e (
            counted_after (components a false) target (eligible_minors alternatives target) further)
      | inr e ↦ rw e further
    ]

weaken :
    (target : ℕ) (xs : List ℕ) → All (λ x. (1 ≤ x) × (x ≤ target)) xs → All (λ x. x ≤ target) xs
weaken target [] h = tt
weaken target (x ∷ xs) h = (h.0.1, weaken target xs h.1)

choose_largest :
    (target : VersionVariants) (minors : Result (List ℕ))
    → AreEligible target minors
    → minors >>= (λ found. ok (nearest_of target.minor (sorted found)))
      ≡ minors >>= (λ found. ok (largest found))
choose_largest target (raise failure) h = refl
choose_largest target (ok minors) h =
    let bounded = All-sorted (λ x. x ≤ target.minor) minors (weaken target.minor minors h) in
    ap ok (nearest_of-largest target.minor (sorted minors) bounded ∙ largest-sorted minors)

-- `latest_bounded_minor` is the largest of the minor versions that the alternatives name for the major
-- version of the target, each of which is at least 1 and not above the target's: sorting them and
-- taking the least distance comes to that. It fails where reading an alternative fails.
pub latest_bounded_minor-largest :
    (alternatives : List Text) (target : VersionVariants)
    → (latest_bounded_minor alternatives target
        ≡ eligible_minors alternatives target >>= (λ minors. ok (largest minors)))
      × AreEligible target (eligible_minors alternatives target)
unfolding latest_bounded_minor
latest_bounded_minor-largest alternatives target =
    let bounds = eligible_minors-AreEligible alternatives target in
    (choose_largest target (eligible_minors alternatives target) bounds, bounds)
