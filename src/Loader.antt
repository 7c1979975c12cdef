-- ===== src/Loader.antt =====
-- osbenchmark/workload/loader.py: `WorkloadSpecificationReader` from `parse_task` on. An entry of a
-- specification is absent or has a value. Of an operation its name and type are kept; parameters, meta
-- data and descriptions, which the reader passes on, are left out.
pub mod Procedures
pub mod Creation
pub mod Rules
pub mod Parallels
pub mod Names
pub mod Loaded
mod Tests
use text.Mathlib.Text.{◌==◌ as str_eq}
use solr_benchmark.Prelude.{
  ℕ, ◌≡◌, refl, String, Bool, true, false, not, ◌&&◌, ◌||◌, Option, none, some, List, [], ◌∷◌, ltb,
  if◌then◌else◌, is_some,
}
use solr_benchmark.Prelude.Dict.{Dict, get, put, has, string_key}
use solr_benchmark.Result.{
  Result, ok, raise, ◌>>=◌, ◌>>◌, raise_if, workload_syntax_error, key_error,
}
use solr_benchmark.Workload.{Operation, Task}

-- A name, or a description with its type and name.
pub data OpSpec : Type 0 where
  simple : String → OpSpec
  described : Option String → Option String → OpSpec

pub data Tags : Type 0 where
  no_tags : Tags
  one_tag : String → Tags
  many_tags : List String → Tags

pub record TaskSpec : Type 0 where
  pub operation : Option OpSpec
  pub name : Option String
  pub tags : Tags
  pub schedule : Option String
  pub clients : Option ℕ
  pub warmup_iterations : Option ℕ
  pub iterations : Option ℕ
  pub warmup_time_period : Option ℕ
  pub time_period : Option ℕ
  pub ramp_up_time_period : Option ℕ
  pub ramp_down_time_period : Option ℕ

-- The default values that a `parallel` element hands to its tasks.
pub record Defaults : Type 0 where
  pub warmup_iterations : Option ℕ
  pub iterations : Option ℕ
  pub warmup_time_period : Option ℕ
  pub time_period : Option ℕ
  pub ramp_up_time_period : Option ℕ
  pub ramp_down_time_period : Option ℕ
  pub completed_by_name : Option String

abbrev pub no_defaults : Defaults
no_defaults = record {
  warmup_iterations = none;
  iterations = none;
  warmup_time_period = none;
  time_period = none;
  ramp_up_time_period = none;
  ramp_down_time_period = none;
  completed_by_name = none;
}

-- `_r(spec, key, mandatory=False, default_value=...)`
abbrev pub or_default {ℓ} : {A : Type ℓ} → Option A → Option A → Option A
or_default none default = default
or_default (some value) default = some value

abbrev pub given_or {ℓ} : {A : Type ℓ} → Option A → A → A
given_or none default = default
given_or (some value) default = value

-- `_r(spec, key)`
abbrev pub mandatory {ℓ} : {A : Type ℓ} → Option A → Result A
mandatory none = raise workload_syntax_error
mandatory (some value) = ok value

pub parse_operation : OpSpec → Result Operation
parse_operation (simple name) = ok (record { name = name; op_type = name })
parse_operation (described operation_type name) = do
  op_type ← mandatory operation_type
  ok (record { name = given_or name op_type; op_type = op_type })

abbrev pub Operations : Type 0
Operations = Dict String Operation

pub parse_operations : List OpSpec → Operations → Result Operations
unfolding parse_operation
parse_operations [] ops = ok ops
parse_operations (op_spec ∷ op_specs) ops = do
  op ← parse_operation op_spec
  (raise_if (has op.name ops) workload_syntax_error
      >> parse_operations op_specs (put op.name op ops))

abbrev pub known_or_parsed : String → Option Operation → Result Operation
known_or_parsed name none = parse_operation (simple name)
known_or_parsed name (some op) = ok op

-- A name that is known, or an inline operation; without the entry it is a `KeyError`.
abbrev pub operation_of : Option OpSpec → Operations → Result Operation
operation_of none ops = raise key_error
operation_of (some (simple name)) ops = known_or_parsed name (get name ops)
operation_of (some (described operation_type name)) ops =
    parse_operation (described operation_type name)

abbrev pub tags_of : Tags → List String
tags_of no_tags = []
tags_of (one_tag tag) = tag ∷ []
tags_of (many_tags tags) = tags

abbrev pub is_name : String → Option String → Bool
is_name name none = false
is_name name (some other) = str_eq name other

abbrev pub new_task : TaskSpec → Defaults → Operation → String → Task
new_task spec defaults op name = record {
  name = name;
  operation = op;
  tags = tags_of spec.tags;
  warmup_iterations = or_default spec.warmup_iterations defaults.warmup_iterations;
  iterations = or_default spec.iterations defaults.iterations;
  warmup_time_period = or_default spec.warmup_time_period defaults.warmup_time_period;
  time_period = or_default spec.time_period defaults.time_period;
  ramp_up_time_period = or_default spec.ramp_up_time_period defaults.ramp_up_time_period;
  ramp_down_time_period = or_default spec.ramp_down_time_period defaults.ramp_down_time_period;
  clients = given_or spec.clients 1;
  completes_parent = is_name name defaults.completed_by_name;
  schedule = spec.schedule;
}

-- Warm-up iterations with a time period, or iterations with a warm-up period.
abbrev pub mixes_periods : Task → Bool
mixes_periods task =
    (is_some task.warmup_iterations && is_some task.time_period)
    || (is_some task.warmup_time_period && is_some task.iterations)

abbrev pub has_iterations : Task → Bool
has_iterations task = is_some task.warmup_iterations || is_some task.iterations

-- A ramp needs the period that it is part of.
abbrev pub exceeds_period : Option ℕ → Option ℕ → Bool
exceeds_period none period = false
exceeds_period (some ramp) none = true
exceeds_period (some ramp) (some period) = ltb period ramp

abbrev pub check_task : Task → Result Task
check_task task =
    raise_if (mixes_periods task) workload_syntax_error
    >> (raise_if (has_iterations task && is_some task.ramp_up_time_period) workload_syntax_error
        >> (raise_if (exceeds_period task.ramp_up_time_period task.warmup_time_period)
              workload_syntax_error
            >> (raise_if (exceeds_period task.ramp_down_time_period task.time_period)
                  workload_syntax_error
                >> (raise_if (has_iterations task && is_some task.ramp_down_time_period)
                      workload_syntax_error
                    >> ok task))))

pub parse_task : TaskSpec → Operations → Defaults → Result Task
parse_task spec ops defaults = do
  op ← operation_of spec.operation ops
  check_task (new_task spec defaults op (given_or spec.name op.name))
