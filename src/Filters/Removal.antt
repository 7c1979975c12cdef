-- ===== src/Filters/Removal.antt =====
-- Removing some elements of a list one after the other, by equality.
use solr_benchmark.Prelude.{
  ◌≡◌, refl, Bool, true, false, not, List, [], ◌∷◌, map, Bool-cases, inl, inr, filterb, All,
}
use solr_benchmark.Result.{Result, ok, raise, ◌>>=◌}
use solr_benchmark.Filters.{remove, remove_each}

module _ {ℓ} {A : Type ℓ} (same : A → A → Bool) where
  -- No element equals one behind it.
  abbrev pub AreDistinct : List A → Type 0
  AreDistinct [] = Unit
  AreDistinct (x ∷ xs) = All (λ y. same x y ≡ false) xs × AreDistinct xs

  abbrev behind : A → List A → Result (List A)
  behind x zs = ok (x ∷ zs)

  behind-bind :
      (x : A) (ys : List A) (r : Result (List A))
      → ((zs : List A) → remove_each same ys (x ∷ zs) ≡ remove_each same ys zs >>= behind x)
      → (r >>= behind x) >>= remove_each same ys ≡ (r >>= remove_each same ys) >>= behind x
  behind-bind x ys (raise failure) stays = refl
  behind-bind x ys (ok zs) stays = stays zs

  -- An element that equals none of those that are removed stays where it is.
  remove_each-other :
      (x : A) (ys xs : List A)
      → All (λ y. same x y ≡ false) ys
      → remove_each same ys (x ∷ xs) ≡ remove_each same ys xs >>= behind x
  unfolding remove_each remove
  remove_each-other x [] xs apart = refl
  remove_each-other x (y ∷ ys) xs apart =
      rw apart.0 (behind-bind x ys (remove same y xs) (λ zs. remove_each-other x ys zs apart.1))

  module _ (reflexive : (x : A) → same x x ≡ true) (p : A → Bool) (f : A → A)
      (fixed : (x : A) → p x ≡ true → f x ≡ x) where
    All-filterb-map :
        (x : A) (xs : List A)
        → All (λ y. same x y ≡ false) (map f xs)
        → All (λ y. same x y ≡ false) (filterb p xs)
    All-filterb-map x [] all = tt
    All-filterb-map x (y ∷ xs) all = elim (Bool-cases (p y)) [
      | inl out ↦ rw out (rw (fixed y out) at all.0, All-filterb-map x xs all.1)
      | inr stays ↦ rw stays (All-filterb-map x xs all.1)
    ]

    pub remove_each-filterb :
        (xs : List A)
        → AreDistinct (map f xs)
        → remove_each same (filterb p xs) (map f xs) ≡ ok (map f (filterb (λ x. not (p x)) xs))
    unfolding remove_each remove
    remove_each-filterb [] distinct = refl
    remove_each-filterb (x ∷ xs) distinct = elim (Bool-cases (p x)) [
      | inl out ↦ rw (out, fixed x out, reflexive x) (remove_each-filterb xs distinct.1)
      | inr stays ↦
          rw
            (
              stays,
              remove_each-other (f x) (filterb p xs) (map f xs)
                  (All-filterb-map (f x) xs distinct.0),
              remove_each-filterb xs distinct.1,
            )
            refl
    ]
