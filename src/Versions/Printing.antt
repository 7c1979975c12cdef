-- ===== src/Versions/Printing.antt =====
-- osbenchmark/utils/versions.py: what `components` reads of a text that `repr` printed.
use solr_benchmark.Prelude.{
  ℕ, ◌≡◌, refl, sym, ap, ◌∙◌, true, false, Option, none, some, [], ◌∷◌, ◌++◌, ◌==◌, append_assoc,
  append-nil, All,
}
use solr_benchmark.Prelude.Text.{
  Text, lead, behind, decimal, is_empty, starts_digit, int_of-decimal, decimal-IsDigits,
  is_empty-decimal, lead-append, behind-append,
}
use solr_benchmark.Result.{ok}
use solr_benchmark.Versions.{
  components, line, behind_line, ending, dotted, match_strict, components_of, group_components,
}
use solr_benchmark.Versions.Order.{Version, numbers, with_suffix, repr, from_string, version_from}

-- A suffix that can be printed: none, or a line that is not empty.
abbrev pub IsPrintable : Option Text → Type 0
IsPrintable none = Unit
IsPrintable (some suffix) = (is_empty suffix ≡ false) × All (λ c. (c == b'\n') ≡ false) suffix

line_self : (s : Text) → All (λ c. (c == b'\n') ≡ false) s → line s ≡ s
line_self [] h = refl
line_self (c ∷ s) h = rw (h.0, line_self s h.1) refl

behind_line_self : (s : Text) → All (λ c. (c == b'\n') ≡ false) s → behind_line s ≡ []
behind_line_self [] h = refl
behind_line_self (c ∷ s) h = rw (h.0, behind_line_self s h.1) refl

-- A dash and a suffix behind a number end the match.
ending-suffix :
    (s : Text)
    → is_empty s ≡ false
    → All (λ c. (c == b'\n') ≡ false) s
    → ending (b'-' ∷ s) ≡ some (some s)
ending-suffix [] e h = cc e
ending-suffix (c ∷ s) e h = rw (line_self (c ∷ s) h, behind_line_self (c ∷ s) h) refl

-- A printed number, with a text behind it that starts with no digit.
lead-decimal :
    (n : ℕ) (rest : Text) → starts_digit rest ≡ false → lead (decimal n ++ rest) ≡ decimal n
lead-decimal n rest e = lead-append (decimal n) rest (decimal-IsDigits n) e

behind-decimal :
    (n : ℕ) (rest : Text) → starts_digit rest ≡ false → behind (decimal n ++ rest) ≡ rest
behind-decimal n rest e = behind-append (decimal n) rest (decimal-IsDigits n) e

dotted-decimal :
    (n : ℕ) (rest : Text)
    → starts_digit rest ≡ false
    → dotted (b'.' ∷ (decimal n ++ rest)) ≡ some (decimal n, rest)
dotted-decimal n rest e =
    rw (lead-decimal n rest e, behind-decimal n rest e, is_empty-decimal n) refl

-- The steps of a match of the strict pattern.
match_steps :
    (text : Text) {f s t after_f after_s after_t : Text} {suffix : Option Text}
    → lead text ≡ f
    → is_empty f ≡ false
    → behind text ≡ after_f
    → dotted after_f ≡ some (s, after_s)
    → dotted after_s ≡ some (t, after_t)
    → ending after_t ≡ some suffix
    → match_strict text
      ≡ some (record { first = f; second = some s; third = some t; fourth = suffix })
match_steps text leads full passes one two ends = rw (leads, full, passes, one, two, ends) refl

read_groups :
    (major minor patch : ℕ) (suffix : Option Text)
    → group_components (decimal major) (some (decimal minor)) (some (decimal patch)) suffix
      ≡ ok (record { major = major; minor = some minor; patch = some patch; suffix = suffix })
read_groups major minor patch none =
    rw (int_of-decimal major, int_of-decimal minor, int_of-decimal patch) refl
read_groups major minor patch (some suffix) =
    rw (int_of-decimal major, int_of-decimal minor, int_of-decimal patch) refl

components-numbers :
    (major minor patch : ℕ) (rest : Text) (suffix : Option Text)
    → starts_digit rest ≡ false
    → ending rest ≡ some suffix
    → components
        (decimal major ++ (b'.' ∷ (decimal minor ++ (b'.' ∷ (decimal patch ++ rest)))))
        true
      ≡ ok (record { major = major; minor = some minor; patch = some patch; suffix = suffix })
unfolding components
components-numbers major minor patch rest suffix e found =
    let tail : Text = b'.' ∷ (decimal patch ++ rest) in
    let behind_major : Text = b'.' ∷ (decimal minor ++ tail) in
    let groups =
      match_steps (decimal major ++ behind_major) (lead-decimal major behind_major refl)
        (is_empty-decimal major) (behind-decimal major behind_major refl)
        (dotted-decimal minor tail refl) (dotted-decimal patch rest e) found in
    ap components_of groups ∙ read_groups major minor patch suffix

numbers-append :
    (major minor patch : ℕ) (rest : Text)
    → numbers major minor patch ++ rest
      ≡ decimal major ++ (b'.' ∷ (decimal minor ++ (b'.' ∷ (decimal patch ++ rest))))
numbers-append major minor patch rest = simp append_assoc

components-suffix :
    (major minor patch : ℕ) (suffix : Option Text)
    → IsPrintable suffix
    → components (with_suffix (numbers major minor patch) suffix) true
      ≡ ok (record { major = major; minor = some minor; patch = some patch; suffix = suffix })
components-suffix major minor patch none h =
    let whole : numbers major minor patch ≡ numbers major minor patch ++ [] =
      sym (append-nil (numbers major minor patch)) in
    rw (whole, numbers-append major minor patch [])
      (components-numbers major minor patch [] none refl refl)
components-suffix major minor patch (some suffix) h =
    rw (h.0, numbers-append major minor patch (b'-' ∷ suffix))
      (components-numbers major minor patch (b'-' ∷ suffix) (some suffix) refl
        (ending-suffix suffix h.0 h.1))

-- A version, with no suffix or a suffix that is not empty and holds no newline, is read back from its
-- text by `from_string`.
pub from_string-repr : (v : Version) → IsPrintable v.suffix → from_string (repr v) ≡ ok v
unfolding from_string repr
from_string-repr v h = ap version_from (components-suffix v.major v.minor v.patch v.suffix h)
