-- ===== src/Versions/Match.antt =====
-- osbenchmark/utils/versions.py: which branches `best_match` can choose.
use solr_benchmark.Prelude.{
  ℕ, ◌≡◌, refl, ap, true, Option, none, some, List, [], ◌∷◌, ◌++◌, ◌==◌, if◌then◌else◌, Bool-cases,
  ◌⊎◌, inl, inr,
}
use solr_benchmark.Prelude.Text.{Text, decimal}
use solr_benchmark.Result.{Result, ok, raise, ◌>>=◌}
use solr_benchmark.Versions.{is_version_identifier}
use solr_benchmark.Versions.Named.{IsNamed, latest_bounded_minor-IsNamed}
use solr_benchmark.Versions.Branches.{
  VersionVariants, VersionType, latest_bounded_minor, variants, all_versions, available,
  match_variant, nearest_minor, is_minor, otherwise, fall_back, exceeds, latest_major, main_branch,
  is_missing, best_variant, best_match,
}

-- A branch that `best_match` may choose: an alternative itself, the main branch, or a major and a minor
-- version that an alternative reads as.
abbrev pub IsBranch : List Text → Text → Type 0
IsBranch alternatives branch =
    (branch ≡ main_branch)
    ⊎ ((available branch alternatives ≡ true)
        ⊎ ((major : ℕ) × (minor : ℕ) × (branch ≡ decimal major ++ (b'.' ∷ decimal minor))
            × IsNamed alternatives major minor))

abbrev pub AreBranches : List Text → Result (Option Text) → Type 0
AreBranches alternatives (raise failure) = Unit
AreBranches alternatives (ok none) = Unit
AreBranches alternatives (ok (some branch)) = IsBranch alternatives branch

nearest_minor-AreBranches :
    (alternatives : List Text) (v : VersionVariants) (minor : Option ℕ)
    (rest : Result (Option Text))
    → ((m : ℕ) → minor ≡ some m → IsNamed alternatives v.major m)
    → AreBranches alternatives rest
    → AreBranches alternatives (otherwise (nearest_minor v minor) rest)
nearest_minor-AreBranches alternatives v none rest named h = h
nearest_minor-AreBranches alternatives v (some m) rest named h = elim (Bool-cases (m == 0)) [
  | inl e ↦ rw e h
  | inr e ↦ rw e (inr (inr (v.major, m, refl, named m refl)))
]

minor_step :
    (alternatives : List Text) (v : VersionVariants) (minor : Result (Option ℕ))
    (rest : Result (Option Text))
    → ((m : ℕ) → minor ≡ ok (some m) → IsNamed alternatives v.major m)
    → AreBranches alternatives rest
    → AreBranches alternatives (minor >>= λ found. otherwise (nearest_minor v found) rest)
minor_step alternatives v (raise failure) rest named h = tt
minor_step alternatives v (ok minor) rest named h =
    nearest_minor-AreBranches alternatives v minor rest (λ m e. named m (ap ok e)) h

match_variant-AreBranches :
    (alternatives : List Text) (v : VersionVariants) (versions : List (Text × VersionType))
    → AreBranches alternatives (match_variant alternatives v versions)
unfolding match_variant
match_variant-AreBranches alternatives v [] = tt
match_variant-AreBranches alternatives v ((version, version_type) ∷ versions) =
    let further = match_variant-AreBranches alternatives v versions in
    let rest = match_variant alternatives v versions in
    let named : (m : ℕ)
        → latest_bounded_minor alternatives v ≡ ok (some m)
        → IsNamed alternatives v.major m =
      λ m e. latest_bounded_minor-IsNamed alternatives v e in
    elim (Bool-cases (available version alternatives)) [
      | inl e ↦ rw e (inr (inl e))
      | inr e ↦ elim (Bool-cases (is_minor version_type)) [
        | inl f ↦
            rw (e, f)
              (minor_step alternatives v (latest_bounded_minor alternatives v) rest named further)
        | inr f ↦ rw (e, f) further
      ]
    ]

fall_back-AreBranches :
    (alternatives : List Text) (major : ℕ) (found : Option Text)
    → AreBranches alternatives (ok found)
    → AreBranches alternatives (fall_back alternatives major found)
fall_back-AreBranches alternatives major (some branch) h = h
fall_back-AreBranches alternatives major none h = newest (latest_major none alternatives)
  where
    newest :
        (latest : Result (Option ℕ))
        → AreBranches alternatives
            (latest >>= λ found. ok (if exceeds major found then some main_branch else none))
    newest (raise failure) = tt
    newest (ok latest) = elim (Bool-cases (exceeds major latest)) [
      | inl e ↦ rw e (inl refl)
      | inr e ↦ rw e tt
    ]

best_variant-AreBranches :
    (alternatives : List Text) (v : VersionVariants) (found : Result (Option Text))
    → AreBranches alternatives found
    → AreBranches alternatives (found >>= fall_back alternatives v.major)
best_variant-AreBranches alternatives v (raise failure) h = tt
best_variant-AreBranches alternatives v (ok found) h =
    fall_back-AreBranches alternatives v.major found h

identified-AreBranches :
    (alternatives : List Text) (read : Result VersionVariants)
    → AreBranches alternatives (read >>= best_variant alternatives)
identified-AreBranches alternatives (raise failure) = tt
identified-AreBranches alternatives (ok v) =
    best_variant-AreBranches alternatives v (match_variant alternatives v (all_versions v))
      (match_variant-AreBranches alternatives v (all_versions v))

best_match-AreBranches :
    (alternatives : List Text) (version : Option Text)
    → AreBranches alternatives (best_match alternatives version)
unfolding best_match is_version_identifier
best_match-AreBranches alternatives none = inl refl
best_match-AreBranches alternatives (some version) =
    elim (Bool-cases (is_version_identifier true (some version))) [
      | inl e ↦ rw e (identified-AreBranches alternatives (variants version))
      | inr e ↦ elim (Bool-cases (is_missing (some version))) [
        | inl f ↦ rw (e, f) (inl refl)
        | inr f ↦ rw (e, f) tt
      ]
    ]

-- A branch that `best_match` chooses is `main`, or one of the alternatives, or the major and the minor
-- version, printed, that one of the alternatives reads as: it invents none.
pub best_match-IsBranch :
    (alternatives : List Text) (version : Option Text) {branch : Text}
    → best_match alternatives version ≡ ok (some branch)
    → IsBranch alternatives branch
best_match-IsBranch alternatives version e = rw e at (best_match-AreBranches alternatives version)
