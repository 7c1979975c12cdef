-- ===== src/Filters/Leaves.antt =====
-- What the task filters leave of a schedule.
use solr_benchmark.Prelude.{
  ℕ, ◌≡◌, refl, ap, Bool, true, false, not, Option, none, some, List, [], ◌∷◌, map, if◌then◌else◌,
  ◌==◌, Bool-cases, inl, inr, filterb, All, arith,
}
use solr_benchmark.Prelude.Dict.{same_self, string_key}
use solr_benchmark.Result.{Result, ok}
use solr_benchmark.Workload.{Task, Element, single, parallel, sub_tasks}
use solr_benchmark.Filters.{
  same_text, same_option, same_bool, same_task, same_tasks, same_element, TaskFilter,
  element_matches, filter_out_element, filter_out_task, without_leafs, filter_elements,
  filter_schedule,
}
use solr_benchmark.Filters.Removal.{AreDistinct, remove_each-filterb}

same_option_self {ℓ} :
    {A : Type ℓ} (same : A → A → Bool)
    → ((a : A) → same a a ≡ true)
    → (o : Option A) → same_option same o o ≡ true
same_option_self same reflexive none = refl
same_option_self same reflexive (some a) = reflexive a

same_bool_self : (b : Bool) → same_bool b b ≡ true
same_bool_self true = refl
same_bool_self false = refl

eq_self : (n : ℕ) → (n == n) ≡ true
eq_self n = ground arith

same_task_self : (t : Task) → same_task t t ≡ true
unfolding same_task
same_task_self t =
    let number = same_option_self (λ m n. m == n) eq_self in
    let text = same_option_self same_text (same_self ⦃key = string_key⦄) in
    rw
      (
        same_self ⦃key = string_key⦄ t.name,
        same_self ⦃key = string_key⦄ t.operation.name,
        number t.warmup_iterations,
        number t.iterations,
        number t.warmup_time_period,
        number t.time_period,
        number t.ramp_up_time_period,
        number t.ramp_down_time_period,
        eq_self t.clients,
        text t.schedule,
        same_bool_self t.completes_parent,
      )
      refl

same_element_self : (e : Element) → same_element e e ≡ true
unfolding same_element same_tasks
same_element_self (single t) = same_task_self t
same_element_self (parallel ts clients) = all ts
  where
    all : (ts : List Task) → same_tasks ts ts ≡ true
    all [] = refl
    all (t ∷ ts) = rw (same_task_self t, all ts) refl

map-same {ℓ} : {A : Type ℓ} (xs : List A) → map (λ (x : A). x) xs ≡ xs
map-same [] = refl
map-same (x ∷ xs) = ap (λ l. x ∷ l) (map-same xs)

module _ (exclude : Bool) (filters : List TaskFilter) where
  abbrev out_task : Task → Bool
  out_task = filter_out_task exclude filters

  abbrev pub stays : Element → Bool
  stays e = not (filter_out_element exclude filters e)

  -- An element without the tasks that are out, if it stays.
  abbrev pub left_of : Element → Element
  left_of (single t) = single t
  left_of (parallel ts clients) =
      parallel (filterb (λ t. not (filter_out_task exclude filters t)) ts) clients

  abbrev pub trimmed : Element → Element
  trimmed e = if filter_out_element exclude filters e then e else left_of e

  abbrev pub DistinctTasks : Element → Type 0
  DistinctTasks (single t) = Unit
  DistinctTasks (parallel ts clients) = AreDistinct same_task ts

  without_leafs-eq-ok :
      (e : Element) → DistinctTasks e → without_leafs exclude filters e ≡ ok (left_of e)
  without_leafs-eq-ok (single t) distinct = refl
  without_leafs-eq-ok (parallel ts clients) distinct =
      let removed =
        remove_each-filterb same_task same_task_self out_task (λ t. t) (λ t e. refl) ts
          (rw (map-same ts) distinct) in
      let plain = rw (map-same ts, map-same (filterb (λ t. not (out_task t)) ts)) at removed in
      rw plain refl

  filter_elements-eq-ok :
      (schedule : List Element)
      → All DistinctTasks schedule
      → filter_elements exclude filters schedule ≡ ok (map trimmed schedule)
  unfolding filter_elements
  filter_elements-eq-ok [] distinct = refl
  filter_elements-eq-ok (e ∷ schedule) distinct =
      let others = filter_elements-eq-ok schedule distinct.1 in
      elim (Bool-cases (filter_out_element exclude filters e)) [
        | inl out ↦ rw (out, others) refl
        | inr here ↦ rw (here, without_leafs-eq-ok e distinct.0, others) refl
      ]

  -- Every leaf of the element passes the filters.
  abbrev pub Passes : Element → Type 0
  Passes e = All (λ t. filter_out_task exclude filters t ≡ false) (sub_tasks e)

  All-filterb-not :
      {A : Type 0} (p : A → Bool) (xs : List A)
      → All (λ x. p x ≡ false) (filterb (λ x. not (p x)) xs)
  All-filterb-not p [] = tt
  All-filterb-not p (x ∷ xs) = elim (Bool-cases (p x)) [
    | inl out ↦ rw out (All-filterb-not p xs)
    | inr here ↦ rw here (here, All-filterb-not p xs)
  ]

  Passes-left_of : (e : Element) → filter_out_element exclude filters e ≡ false → Passes (left_of e)
  unfolding sub_tasks element_matches
  Passes-left_of (single t) here = (here, tt)
  Passes-left_of (parallel ts clients) here = All-filterb-not out_task ts

  Passes-trimmed : (schedule : List Element) → All Passes (map trimmed (filterb stays schedule))
  Passes-trimmed [] = tt
  Passes-trimmed (e ∷ schedule) = elim (Bool-cases (filter_out_element exclude filters e)) [
    | inl out ↦ rw out (Passes-trimmed schedule)
    | inr here ↦ rw here (rw here (Passes-left_of e here), Passes-trimmed schedule)
  ]

  abbrev pub IsFiltered : List Element → Result (List Element) → Type 0
  IsFiltered schedule r =
      (r ≡ ok (map trimmed (filterb stays schedule)))
      × All Passes (map trimmed (filterb stays schedule))

  -- If the tasks of each parallel element differ from each other, and so do the elements when their
  -- tasks are filtered, then filtering a schedule succeeds: the elements that are out are gone, the
  -- others are in their order, a parallel one without the tasks that are out, and each task that
  -- is left is one that the filters let pass.
  pub IsFiltered-filter_schedule :
      (schedule : List Element)
      → All DistinctTasks schedule
      → AreDistinct same_element (map trimmed schedule)
      → IsFiltered schedule (filter_schedule exclude filters schedule)
  unfolding filter_schedule
  IsFiltered-filter_schedule schedule tasks_distinct distinct =
      let removed =
        remove_each-filterb same_element same_element_self (filter_out_element exclude filters)
          trimmed (λ e out. rw out refl) schedule distinct in
      (rw (filter_elements-eq-ok schedule tasks_distinct) removed, Passes-trimmed schedule)
