-- ===== src/Worker/Columns.antt =====
-- The columns of the allocation matrix that a worker has ahead of it.
use solr_benchmark.Prelude.{
  ℕ, zero, suc, ◌+◌, ◌<◌, ◌≡◌, refl, inl, inr, true, false, some, List, [], ◌∷◌, arith,
  Option-cases, length, get_elem?, all,
}
use solr_benchmark.Result.{ok}
use solr_benchmark.Allocator.{is_join}
use solr_benchmark.Worker.{
  ClientTasks, ClientAllocation, tasks, Worker, columns, current_tasks_and_advance, skip_non_tasks,
}

-- From the index on, the columns hold these allocations, and a column is empty where all is idle.
abbrev pub Ahead : List ClientTasks → ℕ → List (List ClientAllocation) → Type 0
Ahead allocations task_index [] = Unit
Ahead allocations task_index (column ∷ more) =
    (tasks allocations task_index true ≡ ok column) × Ahead allocations (task_index + 1) more

-- A column of join points; a column with tasks, or an empty one.
abbrev pub AreJoins : List ClientAllocation → Type 0
AreJoins column = all (λ t. is_join t.task) column ≡ true

abbrev pub HaveTask : List ClientAllocation → Type 0
HaveTask [] = Unit
HaveTask (t ∷ column) = all (λ s. is_join s.task) (t ∷ column) ≡ false

lt-length_of_get {ℓ} :
    {A : Type ℓ} (xs : List A) (i : ℕ) {x : A} → get_elem? xs i ≡ some x → i < length xs
lt-length_of_get [] i e = cc e
lt-length_of_get (y ∷ xs) zero e = omega arith
lt-length_of_get (y ∷ xs) (suc i) e = omega (arith, lt-length_of_get xs i e)

-- An index at which the tasks can be read is a column of the matrix.
lt-columns_of_tasks :
    (allocations : List ClientTasks) (task_index : ℕ) {column : List ClientAllocation}
    → 0 < length allocations
    → tasks allocations task_index true ≡ ok column
    → task_index < columns allocations
unfolding tasks
lt-columns_of_tasks [] task_index some_client e = absurd (omega (arith, some_client))
lt-columns_of_tasks (a ∷ allocations) task_index some_client e =
    elim (Option-cases (get_elem? a.tasks task_index)) [
      | inl missing ↦ cc (rw missing at e)
      | inr (entry, found) ↦ lt-length_of_get a.tasks task_index found
    ]

pub Ahead-lt-columns :
    (allocations : List ClientTasks) (task_index : ℕ) (column : List ClientAllocation)
    (more : List (List ClientAllocation))
    → 0 < length allocations
    → Ahead allocations task_index (column ∷ more)
    → task_index + length more < columns allocations
Ahead-lt-columns allocations task_index column [] some_client ahead =
    omega (arith, lt-columns_of_tasks allocations task_index some_client ahead.0)
Ahead-lt-columns allocations task_index column (next ∷ more) some_client ahead =
    omega (arith, Ahead-lt-columns allocations (task_index + 1) next more some_client ahead.1)

abbrev pub at_index : Worker → ℕ → Worker
at_index w i = record w { current_task_index = i; next_task_index = i + 1 }

pub skip-empty :
    (fuel : ℕ) (w : Worker)
    → tasks w.client_allocations w.next_task_index true ≡ ok []
    → skip_non_tasks (suc fuel) w ≡ skip_non_tasks fuel (at_index w w.next_task_index)
unfolding skip_non_tasks current_tasks_and_advance
skip-empty fuel w e = rw e refl

pub skip-tasks :
    (fuel : ℕ) (w : Worker) (t : ClientAllocation) (column : List ClientAllocation)
    → tasks w.client_allocations w.next_task_index true ≡ ok (t ∷ column)
    → skip_non_tasks (suc fuel) w ≡ ok (at_index w w.next_task_index, t ∷ column)
unfolding skip_non_tasks current_tasks_and_advance
skip-tasks fuel w t column e = rw e refl
