-- ===== src/Loader/Parallels.antt =====
-- osbenchmark/workload/loader.py: the `parallel` elements that the reader lets pass.
use mathlib.Core.Path.{subst}
use text.Mathlib.Text.{◌==◌ as str_eq}
use solr_benchmark.Prelude.{
  ℕ, ◌+◌, ◌≡◌, refl, sym, Bool, true, false, not, ◌||◌, Option, none, some, List, [], ◌∷◌, arith,
  All, String, Bool-cases, ◌⊎◌, inl, inr,
}
use solr_benchmark.Result.{
  ok, raise, ◌>>=◌, raise_if, raise_if-eq-ok, bind-eq-ok, then-eq-both, workload_syntax_error,
}
use solr_benchmark.Workload.{Task, Element, parallel}
use solr_benchmark.Loader.{TaskSpec, Defaults, Operations, parse_task, mandatory}
use solr_benchmark.Loader.Procedures.{
  ParallelSpec, parse_tasks, differs, check_ramps, find_completing, check_completed_by,
  parse_parallel,
}
use solr_benchmark.Loader.Rules.{IsWellFormed, IsWellFormed-parse_task, one_if}

parse_tasks-IsWellFormed :
    (specs : List TaskSpec) (ops : Operations) (defaults : Defaults) {tasks : List Task}
    → parse_tasks specs ops defaults ≡ ok tasks
    → All IsWellFormed tasks
unfolding parse_tasks
parse_tasks-IsWellFormed [] ops defaults {tasks} e =
    let same : [] ≡ tasks = cc e in subst (All IsWellFormed) same tt
parse_tasks-IsWellFormed (spec ∷ specs) ops defaults {tasks} e =
    let (task, one, e1) = bind-eq-ok (parse_task spec ops defaults) _ e in
    let (rest, others, e2) = bind-eq-ok (parse_tasks specs ops defaults) _ e1 in
    let same : task ∷ rest ≡ tasks = cc e2 in
    let whole : All IsWellFormed (task ∷ rest) = (
      IsWellFormed-parse_task spec ops defaults one,
      parse_tasks-IsWellFormed specs ops defaults others,
    ) in
    subst (All IsWellFormed) same whole

-- The ramps of a task in a `parallel` element are those of the element.
abbrev pub IsRamped : Defaults → Task → Type 0
IsRamped defaults task =
    (task.ramp_up_time_period ≡ defaults.ramp_up_time_period)
    × (task.ramp_down_time_period ≡ defaults.ramp_down_time_period)

same_ramp : (a b : Option ℕ) → differs a b ≡ false → a ≡ b
same_ramp none none e = refl
same_ramp none (some n) e = cc e
same_ramp (some m) none e = cc e
same_ramp (some m) (some n) e = ground (arith, e)

check_ramps-IsRamped :
    (tasks : List Task) (defaults : Defaults)
    → check_ramps tasks defaults ≡ ok tt
    → All (IsRamped defaults) tasks
unfolding check_ramps
check_ramps-IsRamped [] defaults e = tt
check_ramps-IsRamped (task ∷ tasks) defaults e =
    let up = differs task.ramp_up_time_period defaults.ramp_up_time_period in
    let down = differs task.ramp_down_time_period defaults.ramp_down_time_period in
    let (same, rest) =
      raise_if-eq-ok (up || down) workload_syntax_error (check_ramps tasks defaults) e in
    (
      (
        same_ramp task.ramp_up_time_period defaults.ramp_up_time_period (or_left up down same),
        same_ramp task.ramp_down_time_period defaults.ramp_down_time_period (or_right up down same),
      ),
      check_ramps-IsRamped tasks defaults rest,
    )
  where
    or_left : (a b : Bool) → (a || b) ≡ false → a ≡ false
    or_left false b e = refl
    or_left true b e = cc e

    or_right : (a b : Bool) → (a || b) ≡ false → b ≡ false
    or_right false b e = e
    or_right true b e = cc e

abbrev pub completing : List Task → ℕ
completing [] = 0
completing (task ∷ tasks) = one_if task.completes_parent + completing tasks

find_completing-completing :
    (found : Bool) (tasks : List Task) {result : Bool}
    → find_completing found tasks ≡ ok result
    → one_if found + completing tasks ≡ one_if result
unfolding find_completing
find_completing-completing found [] {result} e =
    let same : found ≡ result = cc e in rw same (omega arith)
find_completing-completing true (task ∷ tasks) {result} e =
    elim (Bool-cases task.completes_parent) [
      | inl completes ↦
          let refused : raise workload_syntax_error ≡ ok result = rw completes at e in cc refused
      | inr other ↦
          let further = find_completing-completing true tasks (rw other at e) in
          rw other (omega (arith, further))
    ]
find_completing-completing false (task ∷ tasks) {result} e =
    elim (Bool-cases task.completes_parent) [
      | inl completes ↦
          let further = find_completing-completing true tasks (rw completes at e) in
          rw completes (omega (arith, further))
      | inr other ↦
          let further = find_completing-completing false tasks (rw other at e) in
          rw other (omega (arith, further))
    ]

-- With the name of a completing task there is exactly one of it; an empty name asks for none.
abbrev pub IsCompletedBy : Option String → List Task → Type 0
IsCompletedBy none tasks = Unit
IsCompletedBy (some name) tasks = (str_eq name "" ≡ true) ⊎ (completing tasks ≡ 1)

check_completed_by-IsCompletedBy :
    (name : Option String) (tasks : List Task)
    → check_completed_by name tasks ≡ ok tt
    → IsCompletedBy name tasks
check_completed_by-IsCompletedBy none tasks e = tt
check_completed_by-IsCompletedBy (some name) tasks e = elim (Bool-cases (str_eq name "")) [
  | inl empty ↦ inl empty
  | inr given ↦
      let sought : find_completing false tasks
            >>= (λ found. raise_if (not found) workload_syntax_error)
          ≡ ok tt =
        rw given at e in
      let (found, one, known) = bind-eq-ok (find_completing false tasks) _ sought in
      inr (completed found (find_completing-completing false tasks one) known)
]
  where
    completed :
        (found : Bool)
        → 0 + completing tasks ≡ one_if found
        → raise_if (not found) workload_syntax_error ≡ ok tt
        → completing tasks ≡ 1
    completed true count known = omega (arith, count)
    completed false count known = cc known

-- A `parallel` element that is read: its tasks are well-formed, they have the ramps of the element, and
-- if it names the task that completes it, exactly one of its tasks does.
pub parse_parallel_lem :
    (spec : ParallelSpec) (ops : Operations) {element : Element}
    → parse_parallel spec ops ≡ ok element
    → (tasks : List Task) × (element ≡ parallel tasks spec.clients)
      × All IsWellFormed tasks
      × All (IsRamped spec.defaults) tasks
      × IsCompletedBy spec.defaults.completed_by_name tasks
unfolding parse_parallel
parse_parallel_lem spec ops e =
    let (specs, given, e1) = bind-eq-ok (mandatory spec.tasks) _ e in
    let (tasks, parsed, e2) = bind-eq-ok (parse_tasks specs ops spec.defaults) _ e1 in
    let (ramps, e3) = then-eq-both (check_ramps tasks spec.defaults) _ e2 in
    let (completes, e4) =
      then-eq-both (check_completed_by spec.defaults.completed_by_name tasks) _ e3 in
    (
      tasks,
      sym (cc e4),
      parse_tasks-IsWellFormed specs ops spec.defaults parsed,
      check_ramps-IsRamped tasks spec.defaults ramps,
      check_completed_by-IsCompletedBy spec.defaults.completed_by_name tasks completes,
    )
