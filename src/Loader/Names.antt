-- ===== src/Loader/Names.antt =====
-- osbenchmark/workload/loader.py: the tasks of a schedule and their names.
use mathlib.Core.Path.{subst}
use solr_benchmark.Prelude.{ℕ, ◌≡◌, refl, sym, String, false, some, List, [], ◌∷◌, All}
use solr_benchmark.Result.{Result, ok, raise, raise_if-eq-ok, bind-eq-ok, workload_syntax_error}
use solr_benchmark.Workload.{Task, Element, single, sub_tasks}
use solr_benchmark.Loader.{TaskSpec, no_defaults, Operations, parse_task}
use solr_benchmark.Loader.Procedures.{
  ElementSpec, task_spec, clients_list, parallel_spec, parse_parallel, clients_name,
  parse_clients_list, as_single, as_element, parse_element, joined, parse_schedule, is_known,
  add_names, check_names,
}
use solr_benchmark.Loader.Rules.{IsWellFormed, IsWellFormed-parse_task}
use solr_benchmark.Loader.Parallels.{parse_parallel_lem}

-- No name is among those behind it.
abbrev pub AreDistinct : List String → Type 0
AreDistinct [] = Unit
AreDistinct (name ∷ names) = (is_known name names ≡ false) × AreDistinct names

-- The names in front of `names`, the last first.
abbrev pub task_names : List Task → List String → List String
task_names [] names = names
task_names (task ∷ tasks) names = task_names tasks (task.name ∷ names)

abbrev pub element_names : List Element → List String → List String
element_names [] names = names
element_names (element ∷ elements) names =
    element_names elements (task_names (sub_tasks element) names)

add_names-AreDistinct :
    (tasks : List Task) (names : List String) {found : List String}
    → AreDistinct names
    → add_names tasks names ≡ ok found
    → (found ≡ task_names tasks names) × AreDistinct found
unfolding add_names
add_names-AreDistinct [] names {found} d e =
    let same : names ≡ found = cc e in (sym same, subst AreDistinct same d)
add_names-AreDistinct (task ∷ tasks) names d e =
    let (new, rest) = raise_if-eq-ok (is_known task.name names) workload_syntax_error _ e in
    add_names-AreDistinct tasks (task.name ∷ names) (new, d) rest

pub check_names-AreDistinct :
    (elements : List Element) (names : List String) {found : List String}
    → AreDistinct names
    → check_names elements names ≡ ok found
    → (found ≡ element_names elements names) × AreDistinct found
unfolding check_names
check_names-AreDistinct [] names {found} d e =
    let same : names ≡ found = cc e in (sym same, subst AreDistinct same d)
check_names-AreDistinct (element ∷ elements) names {found} d e =
    let (more, one, rest) = bind-eq-ok (add_names (sub_tasks element) names) _ e in
    let (same, distinct) = add_names-AreDistinct (sub_tasks element) names d one in
    let (all_same, all_distinct) = check_names-AreDistinct elements more distinct rest in
    (subst (λ n. found ≡ element_names elements n) same all_same, all_distinct)

abbrev pub IsSound : Element → Type 0
IsSound element = All IsWellFormed (sub_tasks element)

All-joined :
    (elements later : List Element)
    → All IsSound elements
    → All IsSound later
    → All IsSound (joined elements later)
All-joined [] later h k = k
All-joined (element ∷ elements) later h k = (h.0, All-joined elements later h.1 k)

parse_clients_list-IsSound :
    (numbers : List ℕ) (spec : TaskSpec) (ops : Operations) (name : String)
    {elements : List Element}
    → parse_clients_list numbers spec ops name ≡ ok elements
    → All IsSound elements
unfolding parse_clients_list sub_tasks
parse_clients_list-IsSound [] spec ops name {elements} e =
    let same : [] ≡ elements = cc e in subst (All IsSound) same tt
parse_clients_list-IsSound (number ∷ numbers) spec ops name {elements} e =
    let (task, one, e1) =
      bind-eq-ok (parse_task (record spec { clients = some number }) ops no_defaults) _ e in
    let (rest, others, e2) = bind-eq-ok (parse_clients_list numbers spec ops name) _ e1 in
    let same : single (record task { name = clients_name name number }) ∷ rest ≡ elements = cc e2 in
    let formed =
      IsWellFormed-parse_task (record spec { clients = some number }) ops no_defaults one in
    subst (All IsSound) same ((formed, tt), parse_clients_list-IsSound numbers spec ops name others)

as_single-IsSound :
    (parsed : Result Task) {elements : List Element}
    → ((task : Task) → parsed ≡ ok task → IsWellFormed task)
    → as_single parsed ≡ ok elements
    → All IsSound elements
unfolding sub_tasks
as_single-IsSound (raise failure) formed e = cc e
as_single-IsSound (ok task) {elements} formed e =
    let same : single task ∷ [] ≡ elements = cc e in
    subst (All IsSound) same ((formed task refl, tt), tt)

as_element-IsSound :
    (parsed : Result Element) {elements : List Element}
    → ((element : Element) → parsed ≡ ok element → IsSound element)
    → as_element parsed ≡ ok elements
    → All IsSound elements
as_element-IsSound (raise failure) formed e = cc e
as_element-IsSound (ok element) {elements} formed e =
    let same : element ∷ [] ≡ elements = cc e in subst (All IsSound) same (formed element refl, tt)

parse_element-IsSound :
    (spec : ElementSpec) (ops : Operations) (name : String) {elements : List Element}
    → parse_element spec ops name ≡ ok elements
    → All IsSound elements
unfolding parse_element sub_tasks
parse_element-IsSound (task_spec spec) ops name e =
    as_single-IsSound (parse_task spec ops no_defaults)
      (λ task p. IsWellFormed-parse_task spec ops no_defaults p) e
parse_element-IsSound (clients_list numbers spec) ops name e =
    parse_clients_list-IsSound numbers spec ops name e
parse_element-IsSound (parallel_spec spec) ops name e =
    as_element-IsSound (parse_parallel spec ops)
      (λ element p.
        let (tasks, same, formed, ramped, completes) = parse_parallel_lem spec ops p in
        subst IsSound (sym same) formed)
      e

pub parse_schedule-IsSound :
    (specs : List ElementSpec) (ops : Operations) (name : String) {schedule : List Element}
    → parse_schedule specs ops name ≡ ok schedule
    → All IsSound schedule
unfolding parse_schedule
parse_schedule-IsSound [] ops name {schedule} e =
    let same : [] ≡ schedule = cc e in subst (All IsSound) same tt
parse_schedule-IsSound (spec ∷ specs) ops name {schedule} e =
    let (elements, one, e1) = bind-eq-ok (parse_element spec ops name) _ e in
    let (later, others, e2) = bind-eq-ok (parse_schedule specs ops name) _ e1 in
    let same : joined elements later ≡ schedule = cc e2 in
    subst (All IsSound) same (
      All-joined elements later (parse_element-IsSound spec ops name one)
        (parse_schedule-IsSound specs ops name others))
