-- ===== src/Conversion/Tests.antt =====
-- osbenchmark/conversion/query.py: queries translated, and the theorems at one input each.
use solr_benchmark.Prelude.{
  Bool, ℕ, ◌==◌, if◌then◌else◌, ◌≡◌, refl, true, false, Option, none, some, [], ◌∷◌,
}
use solr_benchmark.Prelude.Text.{Text, codes}
use solr_benchmark.Conversion.{escape_solr_value, escaped_by, normalize_field_name, convert_date}
use solr_benchmark.Conversion.Escaping.{consed, means_in_term}
use solr_benchmark.Conversion.Filters.{HasNoFilter, translate-HasNoFilter}
use solr_benchmark.Conversion.Query.{
  Node, Nodes, match_all, term, terms, range, bool_query, no_nodes, clause, string, other,
  translate, translate_terms, translate_opensearch_query, fq_of,
}

-- Dates without a common pattern.
abbrev no_dates : Text → Text → Option Text
no_dates format date = none

abbrev one : Node → Nodes
one q = clause q no_nodes

abbrev country : Node
country = term (codes "geo.country") (string (codes "US"))

abbrev above : Node
above = range (codes "age") (record {
  gte = none;
  gt = some (other (codes "5"));
  lte = none;
  lt = some (other (codes "9"));
  format = none;
})

-- {"bool": {"must": country, "filter": {"terms": {"id": ["a", "b"]}}}}
abbrev filtered : Node
filtered =
    bool_query (one country) no_nodes
      (one (terms (codes "id") (string (codes "a") ∷ string (codes "b") ∷ []))) no_nodes

filtered_test :
    translate_opensearch_query no_dates (some filtered)
    ≡ (codes "+(geo_country:US)", codes "{!terms f=id}a,b" ∷ [])
unfolding translate_opensearch_query translate normalize_field_name escape_solr_value escaped_by
    fq_of
filtered_test = refl

inline_test : (translate no_dates false filtered).0 ≡ codes "+(geo_country:US) +(id:(a b))"
unfolding translate translate_terms normalize_field_name escape_solr_value escaped_by fq_of
inline_test = refl

-- The bounds that `gt` and `lt` leave out are let in.
above_test : (translate no_dates true above).0 ≡ codes "age:[5 TO 9]"
unfolding translate normalize_field_name convert_date
above_test = refl

-- What nothing may match is everything once it is dropped.
must_not_test :
    (translate no_dates true (bool_query no_nodes (one match_all) no_nodes no_nodes)).0
    ≡ codes "*:*"
unfolding translate
must_not_test = refl

-- A filter of one alternative is a filter of the whole query.
should_test :
    translate_opensearch_query no_dates
      (some (bool_query no_nodes no_nodes no_nodes (clause country (one filtered))))
    ≡ (codes "(geo_country:US +(geo_country:US))", codes "{!terms f=id}a,b" ∷ [])
unfolding translate_opensearch_query translate normalize_field_name escape_solr_value escaped_by
    fq_of
should_test = refl

-- A reader of a term or a phrase: a bare character that means something ends it.
abbrev read : (ℕ → Bool) → Bool → Text → Option Text
read means true [] = none
read means false [] = some []
read means true (c ∷ s) = consed c (read means false s)
read means false (c ∷ s) =
    let behind = read means true s in
    let rest = consed c (read means false s) in
    if c == b'\\' then behind else if means c then none else rest

-- A space, even behind a colon that is escaped, ends the term.
two_words : read means_in_term false (escape_solr_value (codes "a: b")) ≡ none
unfolding escape_solr_value escaped_by
two_words = refl

abbrev alternatives : Node
alternatives = bool_query (one country) (one above) no_nodes (clause country (one above))

translate-HasNoFilter_example :
    translate no_dates true alternatives ≡ ((translate no_dates false alternatives).0, [])
unfolding HasNoFilter
translate-HasNoFilter_example =
    translate-HasNoFilter no_dates alternatives (tt, ((tt, tt), ((tt, tt), (tt, (tt, tt)))))
