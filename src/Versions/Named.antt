-- ===== src/Versions/Named.antt =====
-- osbenchmark/utils/versions.py: the minor versions that the alternatives name.
use solr_benchmark.Prelude.{
  ℕ, ◌≡◌, refl, ap, ◌∙◌, false, ◌&&◌, ◌||◌, Option, none, some, List, [], ◌∷◌, ◌==◌, ltb,
  if◌then◌else◌, All, arith, is_some, Bool-cases, ◌⊎◌, inl, inr,
}
use solr_benchmark.Prelude.Sorting.{sorted, All-sorted}
use solr_benchmark.Prelude.Text.{Text}
use solr_benchmark.Result.{Result, ok, raise, ◌>>=◌, bind-eq-ok}
use solr_benchmark.Versions.{Components, components, is_version_identifier}
use solr_benchmark.Versions.Branches.{
  VersionVariants, eligible, with_added, eligible_minor, eligible_minors, nearest, nearest_of,
  latest_bounded_minor, distance,
}

-- A property of some element, as a sum that is computed.
abbrev pub Any {ℓ} : {A : Type ℓ} → (A → Type 0) → List A → Type 0
Any P [] = ⊥
Any P (x ∷ xs) = P x ⊎ Any P xs

-- The alternative reads as a major and a minor version and nothing else.
abbrev pub Reads : ℕ → ℕ → Text → Type 0
Reads major minor a =
    components a false
    ≡ ok (record { major = major; minor = some minor; patch = none; suffix = none })

abbrev pub IsNamed : List Text → ℕ → ℕ → Type 0
IsNamed alternatives major minor = Any (Reads major minor) alternatives

All-later :
    (major : ℕ) (a : Text) (alternatives : List Text) (minors : List ℕ)
    → All (IsNamed alternatives major) minors
    → All (IsNamed (a ∷ alternatives) major) minors
All-later major a alternatives [] h = tt
All-later major a alternatives (m ∷ minors) h = (inr h.0, All-later major a alternatives minors h.1)

-- What an alternative adds is a minor version that it reads as.
eligible_named :
    (P : ℕ → Type 0) (major target_major target_minor : ℕ) (minor patch : Option ℕ)
    (suffix : Option Text)
    → (minors : List ℕ) → All P minors
    → ((m : ℕ) → major ≡ target_major → minor ≡ some m → patch ≡ none → suffix ≡ none → P m)
    → All P (
        if is_some patch || is_some suffix
        then minors
        else if major == target_major && eligible_minor minor target_minor
        then with_added minor minors
        else minors)
eligible_named P major tm tn minor (some p) suffix minors h here = h
eligible_named P major tm tn minor none (some s) minors h here = h
eligible_named P major tm tn none none none minors h here = elim (Bool-cases (major == tm)) [
  | inl e ↦ rw e h
  | inr e ↦ rw e h
]
eligible_named P major tm tn (some m) none none minors h here =
    elim (Bool-cases (major == tm && eligible_minor (some m) tn)) [
      | inl e ↦ rw e (here m (ground (arith, e)) refl refl refl, h)
      | inr e ↦ rw e h
    ]

abbrev pub AreNamed : List Text → ℕ → Result (List ℕ) → Type 0
AreNamed alternatives major (raise failure) = Unit
AreNamed alternatives major (ok minors) = All (IsNamed alternatives major) minors

AreNamed-later :
    (major : ℕ) (a : Text) (alternatives : List Text) (minors : Result (List ℕ))
    → AreNamed alternatives major minors
    → AreNamed (a ∷ alternatives) major minors
AreNamed-later major a alternatives (raise failure) h = tt
AreNamed-later major a alternatives (ok minors) h = All-later major a alternatives minors h

AreNamed-eligible :
    (a : Text) (alternatives : List Text) (target : VersionVariants) (parts : Components)
    → components a false ≡ ok parts
    → (minors : Result (List ℕ)) → AreNamed alternatives target.major minors
    → AreNamed
        (a ∷ alternatives)
        target.major
        (minors >>= λ found. ok (eligible parts target found))
AreNamed-eligible a alternatives target parts read (raise failure) h = tt
AreNamed-eligible a alternatives target parts read (ok minors) h =
    eligible_named (IsNamed (a ∷ alternatives) target.major) parts.major target.major target.minor
      parts.minor parts.patch parts.suffix minors (All-later target.major a alternatives minors h)
      λ m same one two three. inl (read ∙ ap ok (cc (same, one, two, three)))

AreNamed-step :
    (a : Text) (alternatives : List Text) (target : VersionVariants) (parts : Result Components)
    → components a false ≡ parts
    → (minors : Result (List ℕ)) → AreNamed alternatives target.major minors
    → AreNamed
        (a ∷ alternatives)
        target.major
        (parts >>= λ read. minors >>= λ found. ok (eligible read target found))
AreNamed-step a alternatives target (raise failure) e minors h = tt
AreNamed-step a alternatives target (ok parts) e minors h =
    AreNamed-eligible a alternatives target parts e minors h

eligible_minors-AreNamed :
    (alternatives : List Text) (target : VersionVariants)
    → AreNamed alternatives target.major (eligible_minors alternatives target)
unfolding eligible_minors
eligible_minors-AreNamed [] target = tt
eligible_minors-AreNamed (a ∷ alternatives) target =
    let minors = eligible_minors alternatives target in
    let further = eligible_minors-AreNamed alternatives target in
    elim (Bool-cases (is_version_identifier false (some a))) [
      | inl e ↦ rw e (AreNamed-step a alternatives target (components a false) refl minors further)
      | inr e ↦ rw e (AreNamed-later target.major a alternatives minors further)
    ]

nearest-kept :
    (P : ℕ → Type 0) (target best : ℕ) (xs : List ℕ)
    → P best
    → All P xs
    → P (nearest target best xs)
unfolding nearest
nearest-kept P target best [] p h = p
nearest-kept P target best (x ∷ xs) p h =
    elim (Bool-cases (ltb (distance x target) (distance best target))) [
      | inl e ↦ rw e (nearest-kept P target x xs h.0 h.1)
      | inr e ↦ rw e (nearest-kept P target best xs p h.1)
    ]

nearest_of-kept :
    (P : ℕ → Type 0) (target : ℕ) (xs : List ℕ) {m : ℕ}
    → All P xs
    → nearest_of target xs ≡ some m
    → P m
nearest_of-kept P target [] h e = cc e
nearest_of-kept P target (x ∷ xs) {m} h e =
    let found : nearest target x xs ≡ m = cc e in rw found at (nearest-kept P target x xs h.0 h.1)

-- The minor version that is chosen is one that an alternative names.
pub latest_bounded_minor-IsNamed :
    (alternatives : List Text) (target : VersionVariants) {m : ℕ}
    → latest_bounded_minor alternatives target ≡ ok (some m)
    → IsNamed alternatives target.major m
unfolding latest_bounded_minor
latest_bounded_minor-IsNamed alternatives target {m} e =
    let (minors, read, chosen) = bind-eq-ok (eligible_minors alternatives target) _ e in
    let named : All (IsNamed alternatives target.major) minors =
      rw read at (eligible_minors-AreNamed alternatives target) in
    nearest_of-kept (IsNamed alternatives target.major) target.minor (sorted minors)
      (All-sorted (IsNamed alternatives target.major) minors named) (cc chosen)
