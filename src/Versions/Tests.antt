-- ===== src/Versions/Tests.antt =====
-- Runs of the functions on versions, and the properties at concrete versions.
use solr_benchmark.Prelude.{◌≡◌, ◌⊎◌, refl, true, false, none, some, [], ◌∷◌}
use solr_benchmark.Prelude.Text.{codes, decimal}
use solr_benchmark.Result.{ok, raise, type_error, invalid_syntax, ◌>>=◌}
use solr_benchmark.Versions.{components, is_version_identifier}
use solr_benchmark.Versions.Order.{Version, repr, from_string}
use solr_benchmark.Versions.Printing.{from_string-repr}
use solr_benchmark.Versions.Strict.{from_string-total}
use solr_benchmark.Versions.Branches.{
  VersionVariants, variants, eligible_minors, latest_bounded_minor, best_match,
}
use solr_benchmark.Versions.Nearest.{largest, AreEligible, latest_bounded_minor-largest}
use solr_benchmark.Versions.Match.{IsBranch, best_match-IsBranch}

-- A minor version of 0 is not found.
from_zero : best_match (codes "5.0" ∷ []) (some (codes "5.1.0")) ≡ ok none
unfolding best_match is_version_identifier components decimal
from_zero = refl

prior_minor :
    best_match (codes "5.1" ∷ codes "5.3" ∷ codes "main" ∷ []) (some (codes "5.4.1"))
    ≡ ok (some (codes "5.3"))
unfolding best_match is_version_identifier components decimal
prior_minor = refl

-- A branch of a major version with a suffix.
crash : components (codes "7-next") false ≡ raise type_error
unfolding components
crash = refl

abbrev snapshot : Version
snapshot = record { major = 9; minor = 10; patch = 1; suffix = some (codes "SNAPSHOT") }

printed : repr snapshot ≡ codes "9.10.1-SNAPSHOT"
unfolding repr decimal
printed = refl

from_string-repr_example : from_string (repr snapshot) ≡ ok snapshot
from_string-repr_example =
    from_string-repr snapshot
      (refl, (refl, (refl, (refl, (refl, (refl, (refl, (refl, (refl, tt)))))))))

total_on_suffix :
    ((is_version_identifier true (some (codes "9.10")) ≡ true)
      × (v : Version) × (from_string (codes "9.10") ≡ ok v)
      × (w : VersionVariants) × (variants (codes "9.10") ≡ ok w))
    ⊎ ((is_version_identifier true (some (codes "9.10")) ≡ false)
        × (from_string (codes "9.10") ≡ raise invalid_syntax)
        × (variants (codes "9.10") ≡ raise invalid_syntax))
total_on_suffix = from_string-total (codes "9.10")

abbrev target : VersionVariants
target = record { major = 5; minor = 4; patch = 1; suffix = none }

latest_bounded_minor-largest_example :
    (latest_bounded_minor (codes "5.1" ∷ codes "5.3" ∷ codes "5.6" ∷ []) target
      ≡ eligible_minors (codes "5.1" ∷ codes "5.3" ∷ codes "5.6" ∷ []) target
        >>= (λ minors. ok (largest minors)))
    × AreEligible target (eligible_minors (codes "5.1" ∷ codes "5.3" ∷ codes "5.6" ∷ []) target)
latest_bounded_minor-largest_example =
    latest_bounded_minor-largest (codes "5.1" ∷ codes "5.3" ∷ codes "5.6" ∷ []) target

best_match_of_minors : IsBranch (codes "5.1" ∷ codes "5.3" ∷ codes "main" ∷ []) (codes "5.3")
best_match_of_minors =
    best_match-IsBranch (codes "5.1" ∷ codes "5.3" ∷ codes "main" ∷ []) (some (codes "5.4.1"))
      prior_minor
