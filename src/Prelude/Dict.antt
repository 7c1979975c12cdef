-- ===== src/Prelude/Dict.antt =====
-- Python's dictionaries as association lists, in insertion order; assignment to a key that is there
-- keeps its place. Keys are compared by an instance.
use text.Mathlib.Text.{◌==◌ as str_eq}
use text.Mathlib.TextEquality.{eq_iff}
use solr_benchmark.Prelude.{
  ℕ, String, ◌≡◌, refl, ap, ◌↔◌, Bool, true, ◌&&◌, Option, none, some, List, [], ◌∷◌, arith, ◌==◌,
  ==_iff, if◌then◌else◌, is_some,
}

-- A Boolean test that decides equality.
pub record Key {ℓ} (K : Type ℓ) : Type ℓ where
  pub same : K → K → Bool
  pub same_iff : (j k : K) → (same j k ≡ true) ↔ (j ≡ k)

instance abbrev pub nat_key : Key ℕ
nat_key = record { same = λ j k. j == k; same_iff = ==_iff }

instance abbrev pub string_key : Key String
string_key = record { same = str_eq; same_iff = eq_iff }

-- Tuples as keys.
module _ {ℓ κ} {J : Type ℓ} {K : Type κ} (key : Key J) (other : Key K) where
  abbrev pub same_pair : J × K → J × K → Bool
  same_pair p q = key.same p.0 q.0 && other.same p.1 q.1

  pub same_pair_iff : (p q : J × K) → (same_pair p q ≡ true) ↔ (p ≡ q)
  same_pair_iff p q = (
    λ e.
        let first : p.0 ≡ q.0 = (key.same_iff p.0 q.0).0 (ground (arith, e)) in
        let second : p.1 ≡ q.1 = (other.same_iff p.1 q.1).0 (ground (arith, e)) in
        cc (first, second),
    λ e.
        let first : key.same p.0 q.0 ≡ true = (key.same_iff p.0 q.0).1 (ap (λ r. r.0) e) in
        let second : other.same p.1 q.1 ≡ true = (other.same_iff p.1 q.1).1 (ap (λ r. r.1) e) in
        rw (first, second) refl,
  )

  abbrev pub pair_key : Key (J × K)
  pair_key = record { same = same_pair; same_iff = same_pair_iff }

abbrev pub Dict {ℓ κ} : Type ℓ → Type κ → Type (ℓ ⊔ κ)
Dict K V = List (K × V)

module _ {ℓ} {K : Type ℓ} ⦃key : Key K⦄ where
  pub same_self : (k : K) → key.same k k ≡ true
  same_self k = (key.same_iff k k).1 refl

module _ {ℓ κ} {K : Type ℓ} {V : Type κ} ⦃key : Key K⦄ where
  -- d.get(k)
  unfoldable pub get : K → Dict K V → Option V
  get k [] = none
  get k ((j, v) ∷ d) = if key.same j k then some v else get k d

  -- d[k] = v
  unfoldable pub put : K → V → Dict K V → Dict K V
  put k v [] = (k, v) ∷ []
  put k v ((j, w) ∷ d) = if key.same j k then (k, v) ∷ d else (j, w) ∷ put k v d

  pub get-put :
      (k j : K) (v : V) (d : Dict K V)
      → get j (put k v d) ≡ (if key.same k j then some v else get j d)
  unfolding get put
  get-put k j v [] = refl
  get-put k j v ((i, w) ∷ d) =
      ground (arith, key.same_iff k j, key.same_iff i k, key.same_iff i j, get-put k j v d)

  pub get-put_self : (k : K) (v : V) (d : Dict K V) → get k (put k v d) ≡ some v
  get-put_self k v d = rw (get-put k k v d, same_self k) refl

-- k in d
abbrev pub has {ℓ κ} : {K : Type ℓ} {V : Type κ} ⦃key : Key K⦄ → K → Dict K V → Bool
has k d = is_some (get k d)
