-- ===== src/Aggregation/Compatible.antt =====
-- osbenchmark/aggregator.py: which test runs may be aggregated.
use solr_benchmark.Prelude.{
  String, arith, ◌≡◌, refl, sym, ap, ◌∙◌, ◌↔◌, not, Option, none, some, List, [], ◌∷◌, All,
}
use mathlib.Core.Path.{subst}
use solr_benchmark.Prelude.Dict.{string_key}
use solr_benchmark.Result.{
  Result, ok, raise, ◌>>◌, raise_if, raise_if-eq-ok, raise_if-ok, then-eq-both, index_error,
  attribute_error, value_error,
}

pub record Run : Type 0 where
  pub test_run_id : String
  pub workload : String
  pub test_procedure : String

module _ (find_by_test_run_id : String → Option Run) where
  abbrev pub check_run : Run → Option Run → Result (Unit {0})
  check_run first none = raise value_error
  check_run first (some run) =
      raise_if (not (string_key.same run.workload first.workload)) value_error
      >> raise_if (not (string_key.same run.test_procedure first.test_procedure)) value_error

  unfoldable pub check_runs : Run → List String → Result (Unit {0})
  check_runs first [] = ok tt
  check_runs first (id ∷ ids) = check_run first (find_by_test_run_id id) >> check_runs first ids

  abbrev pub check_from : Option Run → List String → Result (Unit {0})
  check_from none ids = raise attribute_error
  check_from (some first) ids = check_runs first ids

  unfoldable pub test_run_compatibility_check : List String → Result (Unit {0})
  unfolding check_runs
  test_run_compatibility_check [] = raise index_error
  test_run_compatibility_check (id ∷ ids) = check_from (find_by_test_run_id id) (id ∷ ids)

  -- A test run is found, and has the workload and the test procedure of another.
  abbrev pub IsLike : Run → String → Type 0
  IsLike first id =
      (run : Run) × (find_by_test_run_id id ≡ some run)
      × (run.workload ≡ first.workload)
      × (run.test_procedure ≡ first.test_procedure)

  check_run-eq-ok :
      (first run : Run)
      → (check_run first (some run) ≡ ok tt)
        ↔ ((run.workload ≡ first.workload) × (run.test_procedure ≡ first.test_procedure))
  check_run-eq-ok first run =
      let w = string_key.same_iff run.workload first.workload in
      let p = string_key.same_iff run.test_procedure first.test_procedure in
      (
        λ e.
            let kept =
              raise_if-eq-ok (not (string_key.same run.workload first.workload)) value_error
                (raise_if (not (string_key.same run.test_procedure first.test_procedure))
                  value_error)
                e in
            let other =
              raise_if-ok (not (string_key.same run.test_procedure first.test_procedure))
                value_error kept.1 in
            (w.0 (ground (arith, kept.0)), p.0 (ground (arith, other))),
        λ h. rw (w.1 h.0, p.1 h.1) refl,
      )

  IsLike-check_run :
      (first : Run) (id : String) (found : Option Run)
      → find_by_test_run_id id ≡ found
      → (check_run first found ≡ ok tt) ↔ IsLike first id
  IsLike-check_run first id none at = (λ e. cc e, λ h. cc (at, h.1))
  IsLike-check_run first id (some run) at =
      let same = check_run-eq-ok first run in
      (
        λ e. (run, at, (same.0 e).0, (same.0 e).1),
        λ h.
            let e : h.0 ≡ run = cc (at, h.1) in
            same.1 (ap (λ r. r.workload) (sym e) ∙ h.2, ap (λ r. r.test_procedure) (sym e) ∙ h.3),
      )

  AreLike-check_runs :
      (first : Run) (ids : List String) → (check_runs first ids ≡ ok tt) ↔ All (IsLike first) ids
  unfolding check_runs
  AreLike-check_runs first [] = (λ e. tt, λ h. refl)
  AreLike-check_runs first (id ∷ ids) =
      let here = IsLike-check_run first id (find_by_test_run_id id) refl in
      let rest = AreLike-check_runs first ids in
      (
        λ e.
            let both =
              then-eq-both (check_run first (find_by_test_run_id id)) (check_runs first ids) e in
            (here.0 both.0, rest.0 both.1),
        λ h. rw (here.1 h.0) (rest.1 h.1),
      )

  -- The check of some test runs succeeds exactly if the first is found, and each of them is found with
  -- the workload and the test procedure of the first.
  pub test_run_compatibility_check_lem :
      (id : String) (ids : List String)
      → (test_run_compatibility_check (id ∷ ids) ≡ ok tt)
        ↔ ((first : Run) × (find_by_test_run_id id ≡ some first) × All (IsLike first) ids)
  unfolding test_run_compatibility_check
  test_run_compatibility_check_lem id ids = from (find_by_test_run_id id) refl
    where
      from :
          (found : Option Run)
          → find_by_test_run_id id ≡ found
          → (check_from found (id ∷ ids) ≡ ok tt)
            ↔ ((first : Run) × (find_by_test_run_id id ≡ some first) × All (IsLike first) ids)
      from none at = (λ e. cc e, λ h. cc (at, h.1))
      from (some first) at =
          let all = AreLike-check_runs first (id ∷ ids) in
          (
            λ e. (first, at, (all.0 e).1),
            λ h.
                let same : h.0 ≡ first = cc (at, h.1) in
                all.1 ((first, at, refl, refl), subst (λ r. All (IsLike r) ids) same h.2),
          )
