-- ===== src/Conversion/Query.antt =====
-- osbenchmark/conversion/query.py: the translation of a query. A query of one kind, with one field, is a
-- tree; a value is a string or the text of another value.
use solr_benchmark.Prelude.{
  Bool, true, false, ◌||◌, Option, none, some, List, [], ◌∷◌, ◌++◌, map, if◌then◌else◌,
}
use solr_benchmark.Prelude.Text.{Text, codes, is_empty, equal_texts}
use solr_benchmark.Conversion.{
  normalize_field_name, escape_solr_value, escape_solr_phrase, starts_with, contains, join,
  convert_date,
}

pub data Value : Type 0 where
  string other : Text → Value

abbrev pub shown : Value → Text
shown (string s) = s
shown (other s) = s

pub record RangeBounds : Type 0 where
  pub gte : Option Value
  pub gt : Option Value
  pub lte : Option Value
  pub lt : Option Value
  pub format : Option Text

-- `Nodes` is a list of clauses. `nothing` is an empty node, `unknown` one of no kind that is known.
mutual
  pub data Node : Type 0 where
    match_all match_none nothing unknown : Node
    term : Text → Value → Node
    terms : Text → List Value → Node
    matching match_phrase : Text → Value → Node
    range : Text → RangeBounds → Node
    exists : Text → Node
    ids : List Value → Node
    bool_query : Nodes → Nodes → Nodes → Nodes → Node

  pub data Nodes : Type 0 where
    no_nodes : Nodes
    clause : Node → Nodes → Nodes

abbrev pub everything : Text
everything = codes "*:*"

-- f"{field}:{text}"
abbrev pub field_clause : Text → Text → Text
field_clause field text = normalize_field_name field ++ (b':' ∷ text)

abbrev pub quoted : Text → Text
quoted text = b'"' ∷ (text ++ (b'"' ∷ []))

abbrev pub grouped : Text → Text
grouped text = b'(' ∷ (text ++ (b')' ∷ []))

abbrev pub term_text : Value → Text
term_text v =
    if contains b' ' (shown v)
    then quoted (escape_solr_phrase (shown v))
    else escape_solr_value (shown v)

-- _translate_terms_clause
unfoldable pub translate_terms : Text → List Value → Text
translate_terms field values =
    field_clause field (grouped (join (b' ' ∷ []) (map term_text values)))

-- Fields of meta data are skipped, which leaves a node of no known kind.
abbrev pub is_meta : Text → Bool
is_meta field = starts_with b'_' field

abbrev pub phrase_or_value : Value → Text
phrase_or_value (other s) = quoted (escape_solr_phrase s)
phrase_or_value (string s) =
    if starts_with b'"' s then escape_solr_value s else quoted (escape_solr_phrase s)

abbrev pub matched : Text → Text → Text
matched field text = if is_empty field || is_meta field then everything else field_clause field text

-- `bounds.get("gte", bounds.get("gt", "*"))`
abbrev pub bound_of : Option Value → Option Value → Value
bound_of (some v) w = v
bound_of none (some w) = w
bound_of none none = string (codes "*")

abbrev pub ids_text : List Value → Text
ids_text [] = everything
ids_text (v ∷ values) =
    codes "id:" ++ grouped (join (b' ' ∷ []) (map (λ w. escape_solr_value (shown w)) (v ∷ values)))

-- The clauses that restrict the result, each with its sign.
abbrev pub signed : Text → List Text → List Text
signed prefix [] = []
signed prefix (q ∷ qs) =
    let rest = signed prefix qs in
    if is_empty q || equal_texts q everything then rest else (prefix ++ grouped q) ∷ rest

abbrev pub wanted : List Text → List Text
wanted [] = []
wanted (q ∷ qs) =
    let rest = wanted qs in if is_empty q || equal_texts q everything then rest else q ∷ rest

abbrev pub should_part : List Text → List Text
should_part [] = []
should_part (q ∷ qs) = grouped (join (b' ' ∷ []) (q ∷ qs)) ∷ []

abbrev pub or_everything : List Text → Text
or_everything [] = everything
or_everything (part ∷ parts) = join (b' ' ∷ []) (part ∷ parts)

-- The query of a `bool` node from those of its clauses; filters are among them only without a list.
abbrev pub bool_text : List Text → List Text → List Text → List Text → Text
bool_text must must_not filter should = or_everything (
    signed (b'+' ∷ []) must
    ++ (signed (b'-' ∷ []) must_not ++ (signed (b'+' ∷ []) filter ++ should_part (wanted should))))

-- `{!terms f=field}v1,v2`
abbrev pub terms_filter : Text → List Value → Text
terms_filter field values =
    codes "{!terms f="
    ++ (normalize_field_name field ++ (b'}' ∷ join (b',' ∷ []) (map shown values)))

-- A filter text, if there is one.
abbrev pub terms_fq : Text → List Value → Option Text
terms_fq field [] = if is_meta field then some everything else none
terms_fq field (v ∷ values) =
    some (if is_meta field then everything else terms_filter field (v ∷ values))

-- `_translate_node_for_fq`, of a node and of its translation without a list.
unfoldable pub fq_of : Node → Text → Option Text
fq_of nothing text = none
fq_of (terms field values) text = terms_fq field values
fq_of q text = some text

abbrev pub with_fq : Option Text → List Text → List Text
with_fq none fqs = fqs
with_fq (some fq) fqs = if is_empty fq then fqs else fq ∷ fqs

module _ (strptime : Text → Text → Option Text) where
  -- Only a string is read as a date.
  abbrev pub bound_text : Option Text → Value → Text
  bound_text format (other s) = s
  bound_text format (string s) = convert_date strptime s format

  abbrev pub range_text : Text → RangeBounds → Text
  range_text field b = field_clause field (
      b'['
      ∷ (bound_text b.format (bound_of b.gte b.gt)
          ++ (codes " TO " ++ (bound_text b.format (bound_of b.lte b.lt) ++ (b']' ∷ [])))))

  -- `_translate_query_node`: the query, and what is added to the list of filters where there is one, in
  -- the order of the source: must, must_not, filter, should.
  unfoldable mutual
    pub translate : Bool → Node → Text × List Text
    translate has_list match_all = (everything, [])
    translate has_list match_none = (b'-' ∷ everything, [])
    translate has_list nothing = (everything, [])
    translate has_list unknown = (everything, [])
    translate has_list (term field v) = (field_clause field (escape_solr_value (shown v)), [])
    translate has_list (terms field values) =
        (if is_meta field then everything else translate_terms field values, [])
    translate has_list (matching field v) = (matched field (escape_solr_value (shown v)), [])
    translate has_list (match_phrase field v) = (matched field (phrase_or_value v), [])
    translate has_list (range field bounds) = (range_text field bounds, [])
    translate has_list (exists field) = (field_clause field (codes "[* TO *]"), [])
    translate has_list (ids values) = (ids_text values, [])
    translate has_list (bool_query must must_not filter should) =
        let m = translate_each has_list must in
        let n = translate_each has_list must_not in
        let s = translate_each has_list should in
        let inline = translate_each false filter in
        let filters = filter_each filter in
        if has_list
        then (bool_text m.0 n.0 [] s.0, m.1 ++ (n.1 ++ (filters ++ s.1)))
        else (bool_text m.0 n.0 inline.0 s.0, [])

    pub translate_each : Bool → Nodes → List Text × List Text
    translate_each has_list no_nodes = ([], [])
    translate_each has_list (clause q qs) =
        let one = translate has_list q in
        let rest = translate_each has_list qs in (one.0 ∷ rest.0, one.1 ++ rest.1)

    pub filter_each : Nodes → List Text
    filter_each no_nodes = []
    filter_each (clause q qs) = with_fq (fq_of q (translate false q).0) (filter_each qs)

  -- translate_opensearch_query, of the query of a body, or of no body
  abbrev pub routed : Option Text → Text × List Text → Text × List Text
  routed none inline = inline
  routed (some fq) inline = if is_empty fq then inline else (everything, fq ∷ [])

  unfoldable pub translate_opensearch_query : Option Node → Text × List Text
  unfolding translate
  translate_opensearch_query none = (everything, [])
  translate_opensearch_query (some (terms field values)) =
      routed (fq_of (terms field values) (translate false (terms field values)).0)
        (translate true (terms field values))
  translate_opensearch_query (some q) = translate true q
