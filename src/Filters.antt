-- ===== src/Filters.antt =====
-- osbenchmark/workload/workload.py: the equality of schedule elements and the task filters;
-- osbenchmark/workload/loader.py: `TaskFilterWorkloadProcessor` on one schedule. A filter's text is
-- taken as already split at its colons.
pub mod Removal
pub mod Leaves
mod Tests
use solr_benchmark.Prelude.{
  ℕ, String, Bool, true, false, not, ◌&&◌, Option, none, some, List, [], ◌∷◌, map, ◌==◌,
  if◌then◌else◌, any, filterb,
}
use solr_benchmark.Prelude.Dict.{string_key}
use solr_benchmark.Result.{Result, ok, raise, system_setup_error, value_error, ◌>>=◌}
use solr_benchmark.Workload.{Task, Element, single, parallel}

abbrev pub same_text : String → String → Bool
same_text s t = string_key.same s t

abbrev pub same_option {ℓ} : {A : Type ℓ} → (A → A → Bool) → Option A → Option A → Bool
same_option same none none = true
same_option same (some a) (some b) = same a b
same_option same _ _ = false

abbrev pub same_number : Option ℕ → Option ℕ → Bool
same_number = same_option (λ m n. m == n)

abbrev pub same_bool : Bool → Bool → Bool
same_bool true b = b
same_bool false b = not b

-- `Task.__eq__`, without the tags; operations are equal by their names.
pub same_task : Task → Task → Bool
same_task t u =
    same_text t.name u.name
    && (same_text t.operation.name u.operation.name
        && (same_number t.warmup_iterations u.warmup_iterations
            && (same_number t.iterations u.iterations
                && (same_number t.warmup_time_period u.warmup_time_period
                    && (same_number t.time_period u.time_period
                        && (same_number t.ramp_up_time_period u.ramp_up_time_period
                            && (same_number t.ramp_down_time_period u.ramp_down_time_period
                                && ((t.clients == u.clients)
                                    && (same_option same_text t.schedule u.schedule
                                        && same_bool t.completes_parent u.completes_parent)))))))))

pub same_tasks : List Task → List Task → Bool
unfolding same_task
same_tasks [] [] = true
same_tasks (t ∷ ts) (u ∷ us) = same_task t u && same_tasks ts us
same_tasks _ _ = false

-- `Parallel.__eq__`, without the number of clients.
pub same_element : Element → Element → Bool
unfolding same_tasks same_task
same_element (single t) (single u) = same_task t u
same_element (parallel ts _) (parallel us _) = same_tasks ts us
same_element _ _ = false

pub data TaskFilter : Type 0 where
  task_name_filter : String → TaskFilter
  task_op_type_filter : String → TaskFilter
  task_tag_filter : String → TaskFilter

pub matches : TaskFilter → Task → Bool
matches (task_name_filter name) t = same_text name t.name
matches (task_op_type_filter op_type) t = same_text op_type t.operation.op_type
matches (task_tag_filter tag_name) t = any (same_text tag_name) t.tags

-- `matches` of a schedule element: a parallel one matches if one of its tasks does.
pub element_matches : TaskFilter → Element → Bool
unfolding matches
element_matches f (single t) = matches f t
element_matches f (parallel ts _) = any (matches f) ts

abbrev pub typed_filter : String → String → Result TaskFilter
typed_filter kind text =
    if same_text kind "type"
    then ok (task_op_type_filter text)
    else if same_text kind "tag"
    then ok (task_tag_filter text)
    else raise system_setup_error

abbrev pub filter_of : List String → Result TaskFilter
filter_of (name ∷ []) = ok (task_name_filter name)
filter_of (kind ∷ text ∷ []) = typed_filter kind text
filter_of _ = raise system_setup_error

pub filters_from_filtered_tasks : List (List String) → Result (List TaskFilter)
filters_from_filtered_tasks [] = ok []
filters_from_filtered_tasks (spec ∷ specs) = do
  f ← filter_of spec
  filters ← filters_from_filtered_tasks specs
  ok (f ∷ filters)

abbrev pub is_parallel : Element → Bool
is_parallel (single t) = false
is_parallel (parallel ts _) = true

-- list.remove
pub remove {ℓ} : {A : Type ℓ} → (A → A → Bool) → A → List A → Result (List A)
remove same x [] = raise value_error
remove same x (y ∷ ys) =
    let further = remove same x ys >>= λ zs. ok (y ∷ zs) in if same y x then ok ys else further

pub remove_each {ℓ} : {A : Type ℓ} → (A → A → Bool) → List A → List A → Result (List A)
unfolding remove
remove_each same [] ys = ok ys
remove_each same (x ∷ xs) ys = remove same x ys >>= remove_each same xs

module _ (exclude : Bool) (filters : List TaskFilter) where
  -- `_filter_out_match`, by whether the element has tasks and which filters it matches.
  abbrev pub out_match : Bool → (TaskFilter → Bool) → Bool
  out_match has_tasks match =
      if any match filters then (if has_tasks && exclude then false else exclude) else not exclude

  abbrev pub filter_out_element : Element → Bool
  filter_out_element e = out_match (is_parallel e) (λ f. element_matches f e)

  abbrev pub filter_out_task : Task → Bool
  filter_out_task t = out_match false (λ f. matches f t)

  -- The body of the loop for an element that stays. A single task is its own leaf and stays, too.
  abbrev pub without_leafs : Element → Result Element
  without_leafs (single t) = ok (single t)
  without_leafs (parallel ts clients) = do
    left ← remove_each same_task (filterb filter_out_task ts) ts
    ok (parallel left clients)

  abbrev pub filter_element : Element → Result Element
  filter_element e = if filter_out_element e then ok e else without_leafs e

  pub filter_elements : List Element → Result (List Element)
  unfolding remove_each element_matches matches
  filter_elements [] = ok []
  filter_elements (e ∷ schedule) = do
    kept ← filter_element e
    others ← filter_elements schedule
    ok (kept ∷ others)

  -- One schedule of `on_after_load_workload`: first the leaves, then the elements that are out.
  pub filter_schedule : List Element → Result (List Element)
  unfolding filter_elements remove_each element_matches
  filter_schedule schedule = do
    elements ← filter_elements schedule
    remove_each same_element (filterb filter_out_element schedule) elements

-- Without filters nothing is changed.
pub on_after_load_workload : Bool → List TaskFilter → List Element → Result (List Element)
unfolding filter_schedule
on_after_load_workload exclude [] schedule = ok schedule
on_after_load_workload exclude (f ∷ filters) schedule =
    filter_schedule exclude (f ∷ filters) schedule
