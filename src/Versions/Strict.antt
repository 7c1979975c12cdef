-- ===== src/Versions/Strict.antt =====
-- osbenchmark/utils/versions.py: the versions of the strict pattern have all three numbers.
use solr_benchmark.Prelude.{
  ◌≡◌, refl, true, false, Option, none, some, is_some, Bool-cases, ◌⊎◌, inl, inr, is_some,
}
use solr_benchmark.Prelude.Text.{Text, lead, behind, is_empty}
use solr_benchmark.Result.{ok, raise, invalid_syntax}
use solr_benchmark.Versions.{
  Groups, components_of, is_version_identifier, match_strict, dotted, ending, with_fourth,
  strict_third, strict_second,
}
use solr_benchmark.Versions.Order.{Version, from_string, version_from}
use solr_benchmark.Versions.Branches.{VersionVariants, variants, variants_from}

-- The groups of a match of the strict pattern are digits, with or without a suffix.
AreStrict : Option Groups → Type 0
AreStrict none = Unit
AreStrict (some groups) = (is_some groups.second ≡ true) × (is_some groups.third ≡ true)

with_fourth-AreStrict :
    (f s t : Text) (suffix : Option (Option Text))
    → AreStrict (with_fourth f (some s) (some t) suffix)
unfolding AreStrict
with_fourth-AreStrict f s t none = tt
with_fourth-AreStrict f s t (some suffix) = (refl, refl)

strict_third-AreStrict :
    (f s : Text) (third : Option (Text × Text)) → AreStrict (strict_third f s third)
unfolding AreStrict
strict_third-AreStrict f s none = tt
strict_third-AreStrict f s (some (t, rest)) = with_fourth-AreStrict f s t (ending rest)

strict_second-AreStrict :
    (f : Text) (second : Option (Text × Text)) → AreStrict (strict_second f second)
unfolding AreStrict
strict_second-AreStrict f none = tt
strict_second-AreStrict f (some (s, rest)) = strict_third-AreStrict f s (dotted rest)

match_strict-AreStrict : (text : Text) → AreStrict (match_strict text)
unfolding AreStrict
match_strict-AreStrict text = elim (Bool-cases (is_empty (lead text))) [
  | inl empty ↦ rw empty tt
  | inr full ↦ rw full (strict_second-AreStrict (lead text) (dotted (behind text)))
]

-- What the two constructors make of a match.
abbrev pub Builds : Option Groups → Type 0
Builds found =
    ((is_some found ≡ true)
      × (v : Version) × (version_from (components_of found) ≡ ok v)
      × (w : VersionVariants) × (variants_from (components_of found) ≡ ok w))
    ⊎ ((is_some found ≡ false)
        × (version_from (components_of found) ≡ raise invalid_syntax)
        × (variants_from (components_of found) ≡ raise invalid_syntax))

Builds-groups :
    (f : Text) (s t suffix : Option Text)
    → is_some s ≡ true
    → is_some t ≡ true
    → Builds (some (record { first = f; second = s; third = t; fourth = suffix }))
Builds-groups f none t suffix hs ht = cc hs
Builds-groups f (some s) none suffix hs ht = cc ht
Builds-groups f (some s) (some t) none hs ht = inl (refl, _, refl, _, refl)
Builds-groups f (some s) (some t) (some suffix) hs ht = inl (refl, _, refl, _, refl)

Builds-match : (found : Option Groups) → AreStrict found → Builds found
unfolding AreStrict
Builds-match none h = inr (refl, refl, refl)
Builds-match (some groups) h =
    Builds-groups groups.first groups.second groups.third groups.fourth h.0 h.1

-- A text of the strict pattern builds a `Version` and a `VersionVariants`, with all three numbers; any
-- other text raises `InvalidSyntax` in both. No other failure comes out of a version of the pattern.
pub from_string-total :
    (text : Text)
    → ((is_version_identifier true (some text) ≡ true)
        × (v : Version) × (from_string text ≡ ok v)
        × (w : VersionVariants) × (variants text ≡ ok w))
      ⊎ ((is_version_identifier true (some text) ≡ false)
          × (from_string text ≡ raise invalid_syntax)
          × (variants text ≡ raise invalid_syntax))
unfolding is_version_identifier from_string variants
from_string-total text = Builds-match (match_strict text) (match_strict-AreStrict text)
