-- ===== src/Loader/Loaded.antt =====
-- osbenchmark/workload/loader.py: what the reader guarantees of the test procedures of a workload.
use solr_benchmark.Prelude.{ℕ, ◌+◌, ◌≡◌, String, Bool, false, ◌&&◌, Option, List, [], ◌∷◌, All, ◌⊎◌}
use solr_benchmark.Loader.{Operations}
use solr_benchmark.Loader.Procedures.{is_known}
use solr_benchmark.Loader.Rules.{one_if}
use solr_benchmark.Loader.Names.{AreDistinct, element_names, IsSound}
use solr_benchmark.Loader.Creation.{TestProcedure, Procedures, Seen}

-- The tasks of a procedure are well-formed, and no two have one name.
abbrev pub IsLoaded : TestProcedure → Type 0
IsLoaded p = All IsSound p.schedule × AreDistinct (element_names p.schedule [])

abbrev pub defaults_of : List TestProcedure → ℕ
defaults_of [] = 0
defaults_of (p ∷ procedures) = one_if p.default + defaults_of procedures

-- The names of the procedures in front of `names`, the last first.
abbrev pub procedure_names : List TestProcedure → List String → List String
procedure_names [] names = names
procedure_names (p ∷ procedures) names = procedure_names procedures (p.name ∷ names)

module _ (ops : Operations) (selected : Option String) (number : ℕ) (auto_generated : Bool) where
  -- A procedure that is read is not a second default, and its name is new.
  abbrev pub IsCreated : Seen → TestProcedure → Type 0
  IsCreated seen p =
      IsLoaded p × ((p.default && seen.has_default) ≡ false) × (is_known p.name seen.names ≡ false)

  -- What the loop has made: procedures that are loaded, with new names, and one default at most.
  abbrev pub AreCreated : Seen → List TestProcedure × Bool → Type 0
  AreCreated seen created =
      All IsLoaded created.0
      × AreDistinct (procedure_names created.0 seen.names)
      × (one_if seen.has_default + defaults_of created.0 ≡ one_if created.1)

-- The test procedures of a workload.
abbrev pub AreLoaded : List TestProcedure → Type 0
AreLoaded procedures =
    All IsLoaded procedures
    × AreDistinct (procedure_names procedures [])
    × ((procedures ≡ []) ⊎ (defaults_of procedures ≡ 1))
