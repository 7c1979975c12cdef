-- ===== src/Loader/Creation.antt =====
-- osbenchmark/workload/loader.py: the test procedures of a workload.
use text.Mathlib.Text.{◌==◌ as str_eq}
use solr_benchmark.Prelude.{
  ℕ, String, Bool, true, false, not, ◌&&◌, ◌||◌, Option, none, some, List, [], ◌∷◌, ◌==◌, length,
}
use solr_benchmark.Result.{Result, ok, raise, ◌>>=◌, ◌>>◌, raise_if, workload_syntax_error}
use solr_benchmark.Workload.{Element}
use solr_benchmark.Loader.{OpSpec, mandatory, Operations, parse_operations}
use solr_benchmark.Loader.Procedures.{ElementSpec, parse_schedule, is_known, check_names}

pub record ProcedureSpec : Type 0 where
  pub name : Option String
  pub default : Bool
  pub schedule : Option (List ElementSpec)

pub record TestProcedure : Type 0 where
  pub name : String
  pub default : Bool
  pub selected : Bool
  pub auto_generated : Bool
  pub schedule : List Element

-- The entries of a workload that define its test procedures; only one of them is allowed.
pub record Procedures : Type 0 where
  pub schedule : Option (List ElementSpec)
  pub test_procedure : Option ProcedureSpec
  pub test_procedures : Option (List ProcedureSpec)

abbrev pub default_procedure : List ElementSpec → ProcedureSpec
default_procedure schedule = record {
  name = some "default";
  default = false;
  schedule = some schedule;
}

-- The specifications, and whether they were generated.
pub procedure_specs :
    Option (List ElementSpec)
    → Option ProcedureSpec
    → Option (List ProcedureSpec)
    → Result (List ProcedureSpec × Bool)
procedure_specs none none none = raise workload_syntax_error
procedure_specs none (some procedure) none = ok (procedure ∷ [], false)
procedure_specs none none (some procedures) = ok (procedures, false)
procedure_specs (some schedule) none none = ok (default_procedure schedule ∷ [], true)
procedure_specs (some schedule) (some procedure) procedures = raise workload_syntax_error
procedure_specs (some schedule) none (some procedures) = raise workload_syntax_error
procedure_specs none (some procedure) (some procedures) = raise workload_syntax_error

-- What the loop over the specifications has seen: a default, and the names.
pub record Seen : Type 0 where
  pub has_default : Bool
  pub names : List String

-- The checks of one procedure before its schedule is read.
abbrev pub check_procedure : Bool → String → Seen → Result (Unit {0})
check_procedure default name seen =
    raise_if (default && seen.has_default) workload_syntax_error
    >> raise_if (is_known name seen.names) workload_syntax_error

abbrev pub seen_with : Bool → String → Seen → Seen
seen_with default name seen = record {
  has_default = default || seen.has_default;
  names = name ∷ seen.names;
}

abbrev pub is_name_of : Option String → String → Bool
is_name_of none name = false
is_name_of (some selected) name = str_eq selected name

module _ (ops : Operations) (selected : Option String) (number : ℕ) (auto_generated : Bool) where
  unfoldable pub create_procedure : ProcedureSpec → Seen → Result TestProcedure
  unfolding parse_schedule check_names
  create_procedure spec seen = do
    name ← mandatory spec.name
    checked ← check_procedure (number == 1 || spec.default) name seen
    specs ← mandatory spec.schedule
    schedule ← parse_schedule specs ops name
    names ← check_names schedule []
    ok (record {
      name = name;
      default = number == 1 || spec.default;
      selected = number == 1 || is_name_of selected name;
      auto_generated = auto_generated;
      schedule = schedule;
    })

  -- The procedures, and whether one of them is the default.
  unfoldable pub create_each : List ProcedureSpec → Seen → Result (List TestProcedure × Bool)
  unfolding create_procedure
  create_each [] seen = ok ([], seen.has_default)
  create_each (spec ∷ specs) seen = do
    procedure ← create_procedure spec seen
    later ← create_each specs (seen_with procedure.default procedure.name seen)
    ok (procedure ∷ later.0, later.1)

abbrev pub no_procedure_seen : Seen
no_procedure_seen = record { has_default = false; names = [] }

abbrev pub is_nonempty : List TestProcedure → Bool
is_nonempty [] = false
is_nonempty (procedure ∷ procedures) = true

-- `if test_procedures and default_test_procedure is None`
abbrev pub with_default : List TestProcedure × Bool → Result (List TestProcedure)
with_default created =
    raise_if (is_nonempty created.0 && not created.1) workload_syntax_error >> ok created.0

-- _create_test_procedures
unfoldable pub create_test_procedures :
    List OpSpec → Procedures → Option String → Result (List TestProcedure)
unfolding parse_operations procedure_specs create_each
create_test_procedures op_specs procedures selected = do
  ops ← parse_operations op_specs []
  specs ← procedure_specs procedures.schedule procedures.test_procedure procedures.test_procedures
  created ← create_each ops selected (length specs.0) specs.1 specs.0 no_procedure_seen
  with_default created
