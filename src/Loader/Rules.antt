-- ===== src/Loader/Rules.antt =====
-- osbenchmark/workload/loader.py: the tasks that the reader lets pass.
use mathlib.Core.Path.{subst}
use solr_benchmark.Prelude.{
  ℕ, ◌≤◌, ◌≡◌, refl, Bool, true, false, ◌&&◌, ◌||◌, Option, none, some, is_some, arith,
}
use solr_benchmark.Result.{ok, raise_if-eq-ok, bind-eq-ok, workload_syntax_error}
use solr_benchmark.Workload.{Task}
use solr_benchmark.Loader.{
  TaskSpec, Defaults, Operations, operation_of, given_or, new_task, mixes_periods, has_iterations,
  exceeds_period, check_task, parse_task,
}

-- A ramp is no longer than the period that it is part of.
abbrev pub IsWithin : Option ℕ → Option ℕ → Type 0
IsWithin none period = Unit
IsWithin (some ramp) none = ⊥
IsWithin (some ramp) (some period) = ramp ≤ period

-- No mix of iterations and periods; ramps are within their periods, and of periods only.
abbrev pub IsWellFormed : Task → Type 0
IsWellFormed task =
    (mixes_periods task ≡ false)
    × IsWithin task.ramp_up_time_period task.warmup_time_period
    × IsWithin task.ramp_down_time_period task.time_period
    × ((has_iterations task
          && (is_some task.ramp_up_time_period || is_some task.ramp_down_time_period))
        ≡ false)

within : (ramp period : Option ℕ) → exceeds_period ramp period ≡ false → IsWithin ramp period
within none period e = tt
within (some ramp) none e = cc e
within (some ramp) (some period) e = ground (arith, e)

neither : (a b c : Bool) → (a && b) ≡ false → (a && c) ≡ false → (a && (b || c)) ≡ false
neither true false false e f = refl
neither true true c e f = e
neither true false true e f = f
neither false b c e f = refl

IsWellFormed-check_task :
    (task : Task) {checked : Task} → check_task task ≡ ok checked → IsWellFormed checked
IsWellFormed-check_task task {checked} e =
    let (unmixed, e1) = raise_if-eq-ok (mixes_periods task) workload_syntax_error _ e in
    let (up_free, e2) =
      raise_if-eq-ok (has_iterations task && is_some task.ramp_up_time_period) workload_syntax_error
        _ e1 in
    let (up, e3) =
      raise_if-eq-ok (exceeds_period task.ramp_up_time_period task.warmup_time_period)
        workload_syntax_error _ e2 in
    let (down, e4) =
      raise_if-eq-ok (exceeds_period task.ramp_down_time_period task.time_period)
        workload_syntax_error _ e3 in
    let (down_free, e5) =
      raise_if-eq-ok (has_iterations task && is_some task.ramp_down_time_period)
        workload_syntax_error (ok task) e4 in
    let whole : IsWellFormed task = (
      unmixed,
      within task.ramp_up_time_period task.warmup_time_period up,
      within task.ramp_down_time_period task.time_period down,
      neither (has_iterations task) (is_some task.ramp_up_time_period)
          (is_some task.ramp_down_time_period) up_free down_free,
    ) in
    let same : task ≡ checked = cc e5 in subst IsWellFormed same whole

pub IsWellFormed-parse_task :
    (spec : TaskSpec) (ops : Operations) (defaults : Defaults) {task : Task}
    → parse_task spec ops defaults ≡ ok task
    → IsWellFormed task
unfolding parse_task
IsWellFormed-parse_task spec ops defaults e =
    let (op, found, checked) = bind-eq-ok (operation_of spec.operation ops) _ e in
    IsWellFormed-check_task (new_task spec defaults op (given_or spec.name op.name)) checked

abbrev pub one_if : Bool → ℕ
one_if true = 1
one_if false = 0
