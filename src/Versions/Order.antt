-- ===== src/Versions/Order.antt =====
-- osbenchmark/utils/versions.py: the class `Version`, its order by `functools.total_ordering`, and its
-- text. A version of the class has the three numbers, which `components` gives for the strict pattern.
use solr_benchmark.Prelude.{
  ℕ, ◌≡◌, Bool, true, false, not, ◌&&◌, ◌||◌, Option, none, some, ◌∷◌, ◌++◌, ◌==◌, arith, ltb,
  if◌then◌else◌,
}
use solr_benchmark.Prelude.Text.{Text, decimal, is_empty}
use solr_benchmark.Result.{Result, ok, raise, type_error}
use solr_benchmark.Versions.{Components, components}

pub record Version : Type 0 where
  pub major : ℕ
  pub minor : ℕ
  pub patch : ℕ
  pub suffix : Option Text

-- __eq__
pub same_version : Version → Version → Bool
same_version v w = v.major == w.major && (v.minor == w.minor && v.patch == w.patch)

-- __lt__, on the tuples
pub less : Version → Version → Bool
less v w =
    ltb v.major w.major
    || (v.major == w.major && (ltb v.minor w.minor || (v.minor == w.minor && ltb v.patch w.patch)))

-- What `functools.total_ordering` makes of these two for `<=`, `>` and `>=`.
abbrev pub at_most : Version → Version → Bool
at_most v w = less v w || same_version v w

abbrev pub after : Version → Version → Bool
after v w = not (less v w) && not (same_version v w)

abbrev pub at_least : Version → Version → Bool
at_least v w = not (less v w)

-- `f"{v}-{self.suffix}" if self.suffix else v`
abbrev pub with_suffix : Text → Option Text → Text
with_suffix v none = v
with_suffix v (some suffix) = if is_empty suffix then v else v ++ (b'-' ∷ suffix)

abbrev pub numbers : ℕ → ℕ → ℕ → Text
numbers major minor patch = decimal major ++ (b'.' ∷ (decimal minor ++ (b'.' ∷ decimal patch)))

-- __repr__
unfoldable pub repr : Version → Text
repr v = with_suffix (numbers v.major v.minor v.patch) v.suffix

-- cls(*components(v))
abbrev pub version_of : ℕ → Option ℕ → Option ℕ → Option Text → Result Version
version_of major (some minor) (some patch) suffix =
    ok (record { major = major; minor = minor; patch = patch; suffix = suffix })
version_of major minor patch suffix = raise type_error

abbrev pub version_from : Result Components → Result Version
version_from (raise failure) = raise failure
version_from (ok parts) = version_of parts.major parts.minor parts.patch parts.suffix

unfoldable pub from_string : Text → Result Version
unfolding components
from_string v = version_from (components v true)

-- Of two versions exactly one of `<`, `==` and `>` holds, and `>=` and `<=` agree with them either way
-- round: the operators that `total_ordering` derives are those of the lexicographic order.
pub total_order :
    (v w : Version)
    → (after v w ≡ less w v)
      × (at_least v w ≡ at_most w v)
      × (same_version v w ≡ same_version w v)
      × ((less v w && less w v) ≡ false)
      × ((less v w && same_version v w) ≡ false)
unfolding less same_version
total_order v w = (ground arith, ground arith, ground arith, ground arith, ground arith)
