-- ===== src/Conversion/Filters.antt =====
-- osbenchmark/conversion/query.py: the translation of a query without a filter.
use solr_benchmark.Prelude.{◌≡◌, refl, ap, ◌∙◌, true, false, Option, []}
use solr_benchmark.Prelude.Text.{Text}
use solr_benchmark.Conversion.Query.{
  Node, Nodes, match_all, match_none, nothing, unknown, term, terms, matching, match_phrase, range,
  exists, ids, bool_query, no_nodes, clause, translate, translate_each,
}

abbrev pub IsEmpty : Nodes → Type 0
IsEmpty no_nodes = Unit
IsEmpty (clause q qs) = ⊥

-- No `bool` of a query, at any depth, has a filter.
unfoldable mutual
  pub HasNoFilter : Node → Type 0
  HasNoFilter (bool_query must must_not filter should) =
      IsEmpty filter × (HaveNoFilter must × (HaveNoFilter must_not × HaveNoFilter should))
  HasNoFilter q = Unit

  pub HaveNoFilter : Nodes → Type 0
  HaveNoFilter no_nodes = Unit
  HaveNoFilter (clause q qs) = HasNoFilter q × HaveNoFilter qs

module _ (strptime : Text → Text → Option Text) where
  -- Without a list nothing is added to it.
  translate-inline : (q : Node) → (translate strptime false q).1 ≡ []
  unfolding translate
  translate-inline match_all = refl
  translate-inline match_none = refl
  translate-inline nothing = refl
  translate-inline unknown = refl
  translate-inline (term field v) = refl
  translate-inline (terms field v) = refl
  translate-inline (matching field v) = refl
  translate-inline (match_phrase field v) = refl
  translate-inline (range field v) = refl
  translate-inline (exists field) = refl
  translate-inline (ids v) = refl
  translate-inline (bool_query must must_not filter should) = refl

  translate_each-inline : (qs : Nodes) → (translate_each strptime false qs).1 ≡ []
  unfolding translate
  translate_each-inline no_nodes = refl
  translate_each-inline (clause q qs) = rw (translate-inline q) (translate_each-inline qs)

  mutual
    unfolding translate HasNoFilter

    listed-inline :
        (q : Node) → HasNoFilter q → translate strptime true q ≡ translate strptime false q
    listed-inline match_all e = refl
    listed-inline match_none e = refl
    listed-inline nothing e = refl
    listed-inline unknown e = refl
    listed-inline (term field v) e = refl
    listed-inline (terms field v) e = refl
    listed-inline (matching field v) e = refl
    listed-inline (match_phrase field v) e = refl
    listed-inline (range field v) e = refl
    listed-inline (exists field) e = refl
    listed-inline (ids v) e = refl
    listed-inline (bool_query must must_not no_nodes should) e =
        rw
          (
            listed_each-inline must e.1.0,
            listed_each-inline must_not e.1.1.0,
            listed_each-inline should e.1.1.1,
            translate_each-inline must,
            translate_each-inline must_not,
            translate_each-inline should,
          )
          refl
    listed-inline (bool_query must must_not (clause q qs) should) e = absurd e.0

    listed_each-inline :
        (qs : Nodes)
        → HaveNoFilter qs
        → translate_each strptime true qs ≡ translate_each strptime false qs
    listed_each-inline no_nodes e = refl
    listed_each-inline (clause q qs) e = rw (listed-inline q e.0, listed_each-inline qs e.1) refl

  -- Where no `bool` of a query has a filter, at any depth, its text with a list for the filters is its
  -- text without one, and nothing is added to the list.
  pub translate-HasNoFilter :
      (q : Node) → HasNoFilter q → translate strptime true q ≡ ((translate strptime false q).0, [])
  translate-HasNoFilter q e =
      listed-inline q e ∙ ap (λ fqs. ((translate strptime false q).0, fqs)) (translate-inline q)
