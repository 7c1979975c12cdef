-- ===== src/Versions.antt =====
-- osbenchmark/utils/versions.py: the two patterns, `components`, `VersionVariants` and the choice of a
-- branch of the workload repository. A version is a text, and a digit an ASCII digit.
pub mod Order
pub mod Branches
pub mod Printing
pub mod Strict
pub mod Nearest
pub mod Named
pub mod Match
mod Tests
use solr_benchmark.Prelude.{
  ℕ, ◌-◌, ◌≡◌, refl, Bool, true, false, not, ◌&&◌, ◌||◌, Option, none, some, List, [], ◌∷◌, ◌++◌,
  ◌==◌, leb, if◌then◌else◌, is_some,
}
use solr_benchmark.Prelude.Text.{Text, codes, lead, behind, int_of, decimal, is_empty, equal_texts}
use solr_benchmark.Result.{Result, ok, raise, ◌>>=◌, type_error, invalid_syntax}

-- The groups of a match: digits, and for the fourth the text behind the dash.
pub record Groups : Type 0 where
  pub first : Text
  pub second : Option Text
  pub third : Option Text
  pub fourth : Option Text

-- `$`: the end, or the newline at the end.
abbrev pub at_text_end : Text → Bool
at_text_end [] = true
at_text_end (c ∷ []) = c == b'\n'
at_text_end (c ∷ d ∷ s) = false

-- `.+` and what stands behind it: a dot is no newline.
abbrev pub line : Text → Text
line [] = []
line (c ∷ s) = let more = line s in if c == b'\n' then [] else c ∷ more

abbrev pub behind_line : Text → Text
behind_line [] = []
behind_line (c ∷ s) = let rest = behind_line s in if c == b'\n' then c ∷ s else rest

-- `(?:-(.+))?$`
abbrev pub dashed : Text → Option (Option Text)
dashed [] = none
dashed (c ∷ s) =
    if c == b'-' && (not (is_empty (line s)) && at_text_end (behind_line s))
    then some (some (line s))
    else none

abbrev pub ending : Text → Option (Option Text)
ending s = if at_text_end s then some none else dashed s

-- `\.(\d+)`, with what stands behind it.
abbrev pub dotted : Text → Option (Text × Text)
dotted [] = none
dotted (c ∷ s) = if c == b'.' && not (is_empty (lead s)) then some (lead s, behind s) else none

abbrev pub with_fourth : Text → Option Text → Option Text → Option (Option Text) → Option Groups
with_fourth f s t none = none
with_fourth f s t (some suffix) =
    some (record { first = f; second = s; third = t; fourth = suffix })

-- VERSIONS
abbrev pub strict_third : Text → Text → Option (Text × Text) → Option Groups
strict_third f s none = none
strict_third f s (some (t, rest)) = with_fourth f (some s) (some t) (ending rest)

abbrev pub strict_second : Text → Option (Text × Text) → Option Groups
strict_second f none = none
strict_second f (some (s, rest)) = strict_third f s (dotted rest)

abbrev pub match_strict : Text → Option Groups
match_strict text =
    if is_empty (lead text) then none else strict_second (lead text) (dotted (behind text))

-- VERSIONS_OPTIONAL: without the second group there is no third, the two read the same.
abbrev pub optional_third : Text → Text → Text → Option (Text × Text) → Option Groups
optional_third f s rest none = with_fourth f (some s) none (ending rest)
optional_third f s rest (some (t, left)) = with_fourth f (some s) (some t) (ending left)

abbrev pub optional_second : Text → Text → Option (Text × Text) → Option Groups
optional_second f rest none = with_fourth f none none (ending rest)
optional_second f rest (some (s, left)) = optional_third f s left (dotted left)

abbrev pub match_optional : Text → Option Groups
match_optional text =
    if is_empty (lead text)
    then none
    else optional_second (lead text) (behind text) (dotted (behind text))

-- _versions_pattern(strict).match(text)
abbrev pub match_version : Bool → Text → Option Groups
match_version strict text = if strict then match_strict text else match_optional text

pub is_version_identifier : Bool → Option Text → Bool
is_version_identifier strict none = false
is_version_identifier strict (some text) = is_some (match_version strict text)

-- The tuple that `components` returns.
pub record Components : Type 0 where
  pub major : ℕ
  pub minor : Option ℕ
  pub patch : Option ℕ
  pub suffix : Option Text

-- `int` of a group: of `None` it is a `TypeError`.
abbrev pub int_group : Option Text → Result ℕ
int_group none = raise type_error
int_group (some digits) = ok (int_of 0 digits)

abbrev pub full_components : Text → Option Text → Option Text → Option Text → Result Components
full_components f s t suffix = do
  minor ← int_group s
  patch ← int_group t
  ok (record { major = int_of 0 f; minor = some minor; patch = some patch; suffix = suffix })

abbrev pub minor_components : Text → Option Text → Result Components
minor_components f s = do
  minor ← int_group s
  ok (record { major = int_of 0 f; minor = some minor; patch = none; suffix = none })

-- The tests on the groups, the fourth first. The first group starts at 0, so that `start(1) > 0` is
-- false and `int(version)` is the number of the whole text, which is the first group here.
abbrev pub group_components : Text → Option Text → Option Text → Option Text → Result Components
group_components f s t (some suffix) = full_components f s t (some suffix)
group_components f s (some t) none = full_components f s (some t) none
group_components f (some s) none none = minor_components f (some s)
group_components f none none none =
    ok (record { major = int_of 0 f; minor = none; patch = none; suffix = none })

abbrev pub components_of : Option Groups → Result Components
components_of none = raise invalid_syntax
components_of (some groups) = group_components groups.first groups.second groups.third groups.fourth

pub components : Text → Bool → Result Components
components version strict = components_of (match_version strict version)

unfoldable pub major_version : Text → Result ℕ
unfolding components
major_version version = do parts ← components version true; ok parts.major
