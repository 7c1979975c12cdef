-- ===== src/Conversion/Escaping.antt =====
-- osbenchmark/conversion/query.py: an escaped text stands for the text. The parser of Solr is given by what
-- is documented of it.
use solr_benchmark.Prelude.{ℕ, ◌≡◌, Bool, false, ◌||◌, Option, none, some, [], ◌∷◌, ◌==◌}
use solr_benchmark.Prelude.Text.{Text}

abbrev pub consed : ℕ → Option Text → Option Text
consed c none = none
consed c (some s) = some (c ∷ s)

-- The operators of the query syntax, as the documentation lists them: the characters of
-- && || ! + - ( ) { } [ ] ^ " ~ * ? : / and the backslash.
abbrev pub is_operator : ℕ → Bool
is_operator c =
    (c == b'&' || c == b'|' || c == b'!' || c == b'+' || c == b'-')
    || (c == b'(' || c == b')' || c == b'{' || c == b'}' || c == b'[' || c == b']')
    || (c == b'^' || c == b'"' || c == b'~' || c == b'*' || c == b'?' || c == b':')
    || (c == b'/' || c == b'\\')

-- Tabulator, newlines, the space and the other white space of a term.
abbrev pub is_blank : ℕ → Bool
is_blank c = c == 9 || c == 10 || c == 13 || c == 32 || c == 12288

-- In a phrase only the quote and the backslash mean something.
abbrev pub means_in_phrase : ℕ → Bool
means_in_phrase c = c == b'"' || c == b'\\'

-- A reader of the characters of one term or phrase, `none` for what is not one. It reads a character
-- that means nothing as itself, and so the character behind a backslash, whichever it is. That the whole
-- words AND, OR and NOT are operators is not a matter of their characters.
pub record IsReader (means : ℕ → Bool) (read : Text → Option Text) : Type 0 where
  pub read_end : read [] ≡ some []
  pub read_plain : (c : ℕ) (s : Text) → means c ≡ false → read (c ∷ s) ≡ consed c (read s)
  pub read_escaped : (c : ℕ) (s : Text) → read (b'\\' ∷ c ∷ s) ≡ consed c (read s)

abbrev pub means_in_term : ℕ → Bool
means_in_term c = is_operator c || is_blank c

-- The characters that a phrase escapes.
abbrev pub is_quoted : ℕ → Bool
is_quoted c = c == b'\\' || c == b'"'
