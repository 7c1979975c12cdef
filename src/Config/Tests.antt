-- ===== src/Config/Tests.antt =====
-- A property that the command line overrides.
use solr_benchmark.Prelude.{ℕ, ◌≡◌, refl, true, none, some, [], ◌∷◌}
use solr_benchmark.Prelude.Dict.{get, put, string_key}
use solr_benchmark.Result.{ok}
use solr_benchmark.Config.{
  application, application_override, invocation, Opts, add, opts, all_opts, value_or,
}
use solr_benchmark.Config.Scopes.{narrowest, value_of, opts_lem}
use solr_benchmark.Config.Sections.{opts-eq-get-all_opts}

abbrev overridden : Opts ℕ
overridden =
    ((application, ("solr", "port")), 8983)
    ∷ ((application_override, ("solr", "port")), 8984)
    ∷ ((application, ("solr", "heap")), 512)
    ∷ []

opts_of_overridden :
    opts "solr" "port" none true overridden
    ≡ value_or (value_of (narrowest "solr" "port" overridden)) none true
opts_of_overridden = opts_lem "solr" "port" none true overridden

opts-eq-get-all_opts_example :
    opts "solr" "port" none true overridden
    ≡ value_or (get "port" (all_opts "solr" overridden)) none true
opts-eq-get-all_opts_example = opts-eq-get-all_opts "solr" "port" none true overridden

port : opts "solr" "port" none true overridden ≡ ok (some 8984)
unfolding opts get
port = refl

section : all_opts "solr" overridden ≡ ("port", 8984) ∷ ("heap", 512) ∷ []
unfolding all_opts get put
section = refl

added : opts "solr" "port" none true (add invocation "solr" "port" 1 overridden) ≡ ok (some 1)
unfolding opts add get put
added = refl
