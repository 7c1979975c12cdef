-- ===== src/Allocator/Coverage.antt =====
-- Every client of every task gets exactly one allocation, on the physical client of its index.
use native.Mathlib.Nat.{mod-lt}
use mathlib.Core.List.{Perm, perm_middle, perm_append_comm}
use mathlib.Core.List.Perm
use solr_benchmark.Prelude.{
  ℕ, zero, suc, ◌+◌, ◌-◌, ◌%◌, ◌<◌, ◌≡◌, refl, ap, ◌∙◌, List, [], ◌∷◌, ◌++◌, append-nil,
  append_assoc, arith, length, replicate, length-replicate,
}
use solr_benchmark.Workload.{Task, Element, sub_tasks, clients_of}
use solr_benchmark.Allocator.{
  JoinPoint, TaskAllocation, Entry, work, join, idle, Matrix, Placement, append_at, append_all,
  place_client, place_clients, place_sub_tasks, append_idle, pad, place_element, place_schedule,
  clients, allocations,
}
use solr_benchmark.Allocator.Rows.{length-append_at, length-append_idle, length-append_all}
use solr_benchmark.Allocator.Plan.{clients_pos, first_join_point}

-- The task allocations of a row, and of all rows.
pub works : List Entry → List TaskAllocation
works [] = []
works (work a ∷ row) = a ∷ works row
works (join j ∷ row) = works row
works (idle ∷ row) = works row

pub all_works : Matrix → List TaskAllocation
unfolding works
all_works [] = []
all_works (row ∷ rows) = works row ++ all_works rows

-- One allocation for each index that a task's clients have, and so for each element in turn.
pub task_allocations : ℕ → Task → ℕ → ℕ → ℕ → List TaskAllocation
task_allocations total task start k zero = []
task_allocations total task start k (suc n) =
    record {
      task = task;
      client_index_in_task = k - start;
      global_client_index = k;
      total_clients = total;
    }
    ∷ task_allocations total task start (k + 1) n

pub element_allocations : ℕ → List Task → ℕ → List TaskAllocation
element_allocations total [] start = []
element_allocations total (task ∷ tasks) start =
    task_allocations total task start start task.clients
    ++ element_allocations total tasks (start + task.clients)

pub schedule_allocations : List Element → List TaskAllocation
unfolding task_allocations element_allocations sub_tasks clients_of
schedule_allocations [] = []
schedule_allocations (element ∷ schedule) =
    element_allocations (clients_of element) (sub_tasks element) 0 ++ schedule_allocations schedule

works-snoc : (row : List Entry) (e : Entry) → works (row ++ e ∷ []) ≡ works row ++ works (e ∷ [])
unfolding works
works-snoc [] e = refl
works-snoc (work a ∷ row) e = ap (λ l. a ∷ l) (works-snoc row e)
works-snoc (join j ∷ row) e = works-snoc row e
works-snoc (idle ∷ row) e = works-snoc row e

works-append_at :
    (i : ℕ) (a : TaskAllocation) (rows : Matrix)
    → i < length rows
    → Perm (all_works (append_at i (work a) rows)) (a ∷ all_works rows)
unfolding append_at all_works
works-append_at i a [] h = elim h [ ]
works-append_at zero a (row ∷ rows) h =
    rw (works-snoc row (work a), append_assoc) (perm_middle (works row) (all_works rows))
works-append_at (suc i) a (row ∷ rows) h =
    Perm.trans (Perm.append_left (works row) (works-append_at i a rows (omega arith)))
      (perm_middle (works row) (all_works rows))

works-append_idle_at : (i : ℕ) (rows : Matrix) → all_works (append_at i idle rows) ≡ all_works rows
unfolding append_at all_works
works-append_idle_at i [] = refl
works-append_idle_at zero (row ∷ rows) = rw (works-snoc row idle, append-nil)
works-append_idle_at (suc i) (row ∷ rows) = ap (λ l. works row ++ l) (works-append_idle_at i rows)

works-append_idle : (i n : ℕ) (rows : Matrix) → all_works (append_idle i n rows) ≡ all_works rows
unfolding append_idle
works-append_idle i zero rows = refl
works-append_idle i (suc n) rows =
    works-append_idle (i + 1) n (append_at i idle rows) ∙ works-append_idle_at i rows

works-append_all :
    (j : JoinPoint) (rows : Matrix) → all_works (append_all (join j) rows) ≡ all_works rows
unfolding append_all all_works
works-append_all j [] = refl
works-append_all j (row ∷ rows) =
    rw (works-snoc row (join j), append-nil) (ap (λ l. works row ++ l) (works-append_all j rows))

perm_exchange {ℓ} : {A : Type ℓ} (xs ys zs : List A) → Perm (ys ++ (xs ++ zs)) ((xs ++ ys) ++ zs)
perm_exchange xs ys zs = rw (← append_assoc) (Perm.append_right zs (perm_append_comm ys xs))

length-pad : (m used : ℕ) (rows : Matrix) → length (pad m used rows) ≡ length rows
unfolding pad
length-pad m used rows = ground (arith, length-append_idle (used % m) (m - used % m) rows)

works-pad : (m used : ℕ) (rows : Matrix) → all_works (pad m used rows) ≡ all_works rows
unfolding pad
works-pad m used rows = ground (arith, works-append_idle (used % m) (m - used % m) rows)

module _ (m total : ℕ) (pos : 0 < m) where
  length-place_clients :
      (task : Task) (start n k : ℕ) (p : Placement)
      → length (place_clients m total task start n k p).rows ≡ length p.rows
  unfolding place_clients place_client
  length-place_clients task start zero k p = refl
  length-place_clients task start (suc n) k p =
      length-place_clients task start n (k + 1) _ ∙ length-append_at (k % m) _ p.rows

  works-place_clients :
      (task : Task) (start n k : ℕ) (p : Placement)
      → length p.rows ≡ m
      → Perm
          (all_works (place_clients m total task start n k p).rows)
          (task_allocations total task start k n ++ all_works p.rows)
  unfolding place_clients place_client task_allocations
  works-place_clients task start zero k p size = Perm.refl _
  works-place_clients task start (suc n) k p size =
      Perm.trans
        (works-place_clients task start n (k + 1) _ (length-append_at (k % m) _ p.rows ∙ size))
        (Perm.trans
          (Perm.append_left (task_allocations total task start (k + 1) n)
            (works-append_at (k % m) _ p.rows (omega (arith, size, mod-lt k pos))))
          (perm_middle (task_allocations total task start (k + 1) n) (all_works p.rows)))

  length-place_sub_tasks :
      (tasks : List Task) (start : ℕ) (p : Placement)
      → length (place_sub_tasks m total tasks start p).rows ≡ length p.rows
  unfolding place_sub_tasks
  length-place_sub_tasks [] start p = refl
  length-place_sub_tasks (task ∷ tasks) start p =
      length-place_sub_tasks tasks (start + task.clients) _
      ∙ length-place_clients task start task.clients start p

  works-place_sub_tasks :
      (tasks : List Task) (start : ℕ) (p : Placement)
      → length p.rows ≡ m
      → Perm
          (all_works (place_sub_tasks m total tasks start p).rows)
          (element_allocations total tasks start ++ all_works p.rows)
  unfolding place_sub_tasks element_allocations
  works-place_sub_tasks [] start p size = Perm.refl _
  works-place_sub_tasks (task ∷ tasks) start p size =
      Perm.trans
        (works-place_sub_tasks tasks (start + task.clients) _
          (length-place_clients task start task.clients start p ∙ size))
        (Perm.trans
          (Perm.append_left (element_allocations total tasks (start + task.clients))
            (works-place_clients task start task.clients start p size))
          (perm_exchange (task_allocations total task start start task.clients)
            (element_allocations total tasks (start + task.clients)) (all_works p.rows)))

module _ (m : ℕ) (pos : 0 < m) where
  length-place_element :
      (element : Element) (id : ℕ) (rows : Matrix)
      → length (place_element m element id rows) ≡ length rows
  unfolding place_element
  length-place_element element id rows =
      length-append_all _ _
      ∙ length-pad m _ _
      ∙ length-place_sub_tasks m (clients_of element) pos (sub_tasks element) 0 _

  works-place_element :
      (element : Element) (id : ℕ) (rows : Matrix)
      → length rows ≡ m
      → Perm
          (all_works (place_element m element id rows))
          (element_allocations (clients_of element) (sub_tasks element) 0 ++ all_works rows)
  unfolding place_element
  works-place_element element id rows size =
      rw (works-append_all, works-pad)
        (works-place_sub_tasks m (clients_of element) pos (sub_tasks element) 0 _ size)

  works-place_schedule :
      (schedule : List Element) (id : ℕ) (rows : Matrix)
      → length rows ≡ m
      → Perm
          (all_works (place_schedule m schedule id rows))
          (schedule_allocations schedule ++ all_works rows)
  unfolding place_schedule schedule_allocations
  works-place_schedule [] id rows size = Perm.refl _
  works-place_schedule (element ∷ schedule) id rows size =
      Perm.trans
        (works-place_schedule schedule (id + 1) _ (length-place_element element id rows ∙ size))
        (Perm.trans
          (Perm.append_left (schedule_allocations schedule)
            (works-place_element element id rows size))
          (perm_exchange (element_allocations (clients_of element) (sub_tasks element) 0)
            (schedule_allocations schedule) (all_works rows)))

works-replicate : (n : ℕ) → all_works (replicate n []) ≡ []
unfolding all_works
works-replicate zero = refl
works-replicate (suc n) = works-replicate n

-- The matrix holds one allocation for each client of each task of each element of the schedule,
-- with its index in the task, its index in the element and the clients of the element, and no
-- other allocation.
pub works-allocations :
    (schedule : List Element)
    → Perm (all_works (allocations schedule)) (schedule_allocations schedule)
unfolding allocations
works-allocations schedule =
    let m = clients schedule in
    let first = append_all (join first_join_point) (replicate m []) in
    let placed =
      works-place_schedule m (clients_pos schedule) schedule 1 first
        (length-append_all (join first_join_point) (replicate m []) ∙ length-replicate m []) in
    rw (works-append_all, works-replicate, append-nil) at placed
