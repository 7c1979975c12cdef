-- ===== src/Versions/Branches.antt =====
-- osbenchmark/utils/versions.py: `VersionVariants`, and the branch of a repository for a version. The
-- largest major version so far is `none` where the code has -1.
use solr_benchmark.Prelude.{
  ℕ, ◌+◌, ◌-◌, Bool, true, false, not, ◌&&◌, ◌||◌, Option, none, some, List, [], ◌∷◌, ◌++◌, ◌==◌,
  ltb, leb, max, if◌then◌else◌, is_some,
}
use solr_benchmark.Prelude.Sorting.{sorted}
use solr_benchmark.Prelude.Text.{Text, codes, decimal, is_empty, equal_texts}
use solr_benchmark.Result.{Result, ok, raise, ◌>>=◌, type_error}
use solr_benchmark.Versions.{Components, components, is_version_identifier}
use solr_benchmark.Versions.Order.{numbers}

pub data VersionType : Type 0 where
  with_suffix with_patch with_minor with_major : VersionType

pub record VersionVariants : Type 0 where
  pub major : ℕ
  pub minor : ℕ
  pub patch : ℕ
  pub suffix : Option Text

-- `VersionVariants(version)`: `int` of a part that is missing is a `TypeError`.
abbrev pub variants_of : ℕ → Option ℕ → Option ℕ → Option Text → Result VersionVariants
variants_of major (some minor) (some patch) suffix =
    ok (record { major = major; minor = minor; patch = patch; suffix = suffix })
variants_of major minor patch suffix = raise type_error

abbrev pub variants_from : Result Components → Result VersionVariants
variants_from (raise failure) = raise failure
variants_from (ok parts) = variants_of parts.major parts.minor parts.patch parts.suffix

unfoldable pub variants : Text → Result VersionVariants
unfolding components
variants version = variants_from (components version true)

-- The texts of the three variants that are always there.
abbrev pub text_major : VersionVariants → Text
text_major v = decimal v.major

abbrev pub text_minor : VersionVariants → Text
text_minor v = decimal v.major ++ (b'.' ∷ decimal v.minor)

abbrev pub text_patch : VersionVariants → Text
text_patch v = numbers v.major v.minor v.patch

-- `[(self.with_suffix, "with_suffix")] if self.suffix else []`
abbrev pub suffix_version : Text → Option Text → List (Text × VersionType)
suffix_version v none = []
suffix_version v (some suffix) =
    if is_empty suffix then [] else (v ++ (b'-' ∷ suffix), with_suffix) ∷ []

abbrev pub fixed_versions : VersionVariants → List (Text × VersionType)
fixed_versions v =
    (text_patch v, with_patch) ∷ (text_minor v, with_minor) ∷ (text_major v, with_major) ∷ []

pub all_versions : VersionVariants → List (Text × VersionType)
all_versions v = suffix_version (text_patch v) v.suffix ++ fixed_versions v

-- version in available_alternatives
pub available : Text → List Text → Bool
available version [] = false
available version (a ∷ alternatives) =
    if equal_texts version a then true else available version alternatives

-- max_major, with -1 as `none`
abbrev pub larger : ℕ → Option ℕ → Option ℕ
larger major none = some major
larger major (some max_major) = some (max major max_major)

abbrev pub exceeds : ℕ → Option ℕ → Bool
exceeds major none = true
exceeds major (some max_major) = ltb max_major major

pub latest_major : Option ℕ → List Text → Result (Option ℕ)
latest_major max_major [] = ok max_major
latest_major max_major (a ∷ alternatives) =
    if is_version_identifier false (some a)
    then components a false >>= (λ parts. latest_major (larger parts.major max_major) alternatives)
    else latest_major max_major alternatives

-- `minor and minor <= target_version.minor`: a minor version of 0 is false.
abbrev pub eligible_minor : Option ℕ → ℕ → Bool
eligible_minor none target = false
eligible_minor (some minor) target = not (minor == 0) && leb minor target

abbrev pub with_added : Option ℕ → List ℕ → List ℕ
with_added none minors = minors
with_added (some minor) minors = minor ∷ minors

-- What one alternative adds to `eligible_minors`.
abbrev pub eligible : Components → VersionVariants → List ℕ → List ℕ
eligible parts target minors =
    if is_some parts.patch || is_some parts.suffix
    then minors
    else if parts.major == target.major && eligible_minor parts.minor target.minor
    then with_added parts.minor minors
    else minors

unfoldable pub eligible_minors : List Text → VersionVariants → Result (List ℕ)
eligible_minors [] target = ok []
eligible_minors (a ∷ alternatives) target =
    if is_version_identifier false (some a)
    then components a false >>= (λ parts.
      eligible_minors alternatives target >>= (λ minors. ok (eligible parts target minors)))
    else eligible_minors alternatives target

-- abs(x - target_version.minor)
abbrev pub distance : ℕ → ℕ → ℕ
distance x y = (x - y) + (y - x)

-- `min(minors, key=...)`: the first of those with the least key.
unfoldable pub nearest : ℕ → ℕ → List ℕ → ℕ
nearest target best [] = best
nearest target best (x ∷ minors) =
    let nearer = nearest target x minors in
    let kept = nearest target best minors in
    if ltb (distance x target) (distance best target) then nearer else kept

abbrev pub nearest_of : ℕ → List ℕ → Option ℕ
nearest_of target [] = none
nearest_of target (x ∷ minors) = some (nearest target x minors)

unfoldable pub latest_bounded_minor : List Text → VersionVariants → Result (Option ℕ)
unfolding sorted eligible_minors nearest
latest_bounded_minor alternatives target = do
  minors ← eligible_minors alternatives target
  ok (nearest_of target.minor (sorted minors))

-- f"{versions.major}.{latest_minor}", for a minor version that is neither `None` nor 0.
abbrev pub nearest_minor : VersionVariants → Option ℕ → Option Text
nearest_minor v none = none
nearest_minor v (some minor) =
    if minor == 0 then none else some (decimal v.major ++ (b'.' ∷ decimal minor))

abbrev pub is_minor : VersionType → Bool
is_minor with_minor = true
is_minor with_suffix = false
is_minor with_patch = false
is_minor with_major = false

abbrev pub otherwise : Option Text → Result (Option Text) → Result (Option Text)
otherwise none rest = rest
otherwise (some found) rest = ok (some found)

-- The loop over `versions.all_versions`, `none` when it falls through.
unfoldable pub match_variant :
    List Text → VersionVariants → List (Text × VersionType) → Result (Option Text)
unfolding available latest_bounded_minor
match_variant alternatives v [] = ok none
match_variant alternatives v ((version, version_type) ∷ versions) =
    let rest = match_variant alternatives v versions in
    if available version alternatives
    then ok (some version)
    else if is_minor version_type
    then latest_bounded_minor alternatives v >>= (λ minor. otherwise (nearest_minor v minor) rest)
    else rest

abbrev pub main_branch : Text
main_branch = codes "main"

-- Not found among the alternatives: the main branch for a newer major version.
abbrev pub fall_back : List Text → ℕ → Option Text → Result (Option Text)
fall_back alternatives major (some found) = ok (some found)
fall_back alternatives major none = do
  latest ← latest_major none alternatives
  ok (if exceeds major latest then some main_branch else none)

abbrev pub best_variant : List Text → VersionVariants → Result (Option Text)
best_variant alternatives v = do
  found ← match_variant alternatives v (all_versions v)
  fall_back alternatives v.major found

-- `not distribution_version`
abbrev pub is_missing : Option Text → Bool
is_missing none = true
is_missing (some version) = is_empty version

abbrev pub best_identified : List Text → Option Text → Result (Option Text)
best_identified alternatives none = ok none
best_identified alternatives (some version) = variants version >>= best_variant alternatives

unfoldable pub best_match : List Text → Option Text → Result (Option Text)
unfolding variants all_versions match_variant latest_major
best_match alternatives version =
    if is_version_identifier true version
    then best_identified alternatives version
    else if is_missing version
    then ok (some main_branch)
    else ok none
