-- ===== src/Conversion.antt =====
-- osbenchmark/conversion/query.py and field.py: how texts, names and dates of an OpenSearch query are
-- written for Solr. A text is a list of code points; `strptime` of a format and a date, written again
-- in Solr's format, is an argument.
pub mod Query
pub mod Escaping
pub mod Filters
mod Tests
use solr_benchmark.Prelude.{
  ℕ, ◌≡◌, refl, Bool, true, false, not, ◌&&◌, ◌||◌, Option, none, some, List, [], ◌∷◌, ◌++◌, ◌==◌,
  if◌then◌else◌, any, length,
}
use solr_benchmark.Prelude.Text.{Text, codes, is_empty, equal_texts}

-- field.replace(".", "_")
pub normalize_field_name : Text → Text
normalize_field_name [] = []
normalize_field_name (c ∷ s) =
    let rest = normalize_field_name s in if c == b'.' then b'_' ∷ rest else c ∷ rest

abbrev pub special : Text
special = codes "+-&|!(){}[]^\"~*?:\\/"

abbrev pub is_special : ℕ → Bool
is_special c = any (λ s. c == s) special

-- The loop of `_escape_solr_value`, for a class of special characters.
pub escaped_by : (ℕ → Bool) → Text → Text
escaped_by is_escaped [] = []
escaped_by is_escaped (c ∷ s) =
    let rest = escaped_by is_escaped s in if is_escaped c then b'\\' ∷ c ∷ rest else c ∷ rest

pub escape_solr_value : Text → Text
unfolding escaped_by
escape_solr_value s = escaped_by is_special s

-- text.replace(c, "\\" + c)
pub prefixed : ℕ → Text → Text
prefixed c [] = []
prefixed c (d ∷ s) = let rest = prefixed c s in if d == c then b'\\' ∷ d ∷ rest else d ∷ rest

-- `_escape_solr_phrase`: the backslashes first, so that those of the quotes are not escaped again.
pub escape_solr_phrase : Text → Text
unfolding prefixed
escape_solr_phrase s = prefixed b'"' (prefixed b'\\' s)

abbrev pub starts_with : ℕ → Text → Bool
starts_with c [] = false
starts_with c (d ∷ s) = c == d

abbrev pub contains : ℕ → Text → Bool
contains c s = any (λ d. c == d) s

-- `separator.join(texts)`
abbrev pub join_from : Text → Text → List Text → Text
join_from separator first [] = first
join_from separator first (s ∷ texts) = first ++ (separator ++ join_from separator s texts)

abbrev pub join : Text → List Text → Text
join separator [] = []
join separator (s ∷ texts) = join_from separator s texts

-- OS_TO_PYTHON_FORMAT
abbrev pub formats : List (Text × Text)
formats =
    (codes "dd/MM/yyyy", codes "%d/%m/%Y")
    ∷ (codes "MM/dd/yyyy", codes "%m/%d/%Y")
    ∷ (codes "yyyy-MM-dd", codes "%Y-%m-%d")
    ∷ (codes "yyyy/MM/dd", codes "%Y/%m/%d")
    ∷ (codes "dd-MM-yyyy", codes "%d-%m-%Y")
    ∷ (codes "MM-dd-yyyy", codes "%m-%d-%Y")
    ∷ []

pub python_format : Text → List (Text × Text) → Option Text
python_format os_format [] = none
python_format os_format ((name, python) ∷ rest) =
    if equal_texts os_format name then some python else python_format os_format rest

abbrev pub or_text : Option Text → Text → Text
or_text none text = text
or_text (some found) text = found

module _ (strptime : Text → Text → Option Text) where
  abbrev pub first_parsed : Option Text → Text → Text
  first_parsed none later = later
  first_parsed (some date) later = date

  -- The common patterns in turn; a date that none reads is left as it is.
  pub try_formats : List (Text × Text) → Text → Text
  try_formats [] date = date
  try_formats ((name, python) ∷ rest) date =
      first_parsed (strptime python date) (try_formats rest date)

  abbrev pub with_format : Option Text → Text → Text
  with_format none date = try_formats formats date
  with_format (some python) date = or_text (strptime python date) date

  abbrev pub in_format : Option Text → Text → Text
  in_format none date = try_formats formats date
  in_format (some os_format) date =
      if is_empty os_format
      then try_formats formats date
      else with_format (python_format os_format formats) date

  -- _convert_date_to_solr_format
  pub convert_date : Text → Option Text → Text
  unfolding try_formats python_format
  convert_date date os_format =
      if equal_texts date (codes "*") || equal_texts date (codes "now")
      then date
      else in_format os_format date
