-- ===== src/Allocator/Plan.antt =====
-- The rows of `Allocator.allocations` follow the plan, so all clients meet at the same columns.
use native.Mathlib.Nat.{zero-div, zero-mod}
use solr_benchmark.Prelude.{
  ℕ, ◌+◌, ◌≤◌, ◌<◌, ◌≡◌, sym, ap, ◌∙◌, Option, none, some, List, [], ◌∷◌, ◌++◌, append-nil,
  append_assoc, map-append, arith, length, replicate, length-replicate,
}
use solr_benchmark.Prelude.Rounding.{ceil_div, share}
use solr_benchmark.Workload.{Task, Element, sub_tasks, clients_of, total_clients_of}
use solr_benchmark.Allocator.{
  JoinPoint, join, Matrix, Placement, append_all, end_index, place_element, place_schedule,
  max_clients_of, clients, allocations,
}
use solr_benchmark.Allocator.Rows.{row, length-append_all, row-append_all, row-replicate}
use solr_benchmark.Allocator.Layout.{
  marks, completing_clients, plan, Filled, Level, Filled-place_sub_tasks, Level-pad,
  completing-place_sub_tasks, end_index-eq-add,
}

end_index_zero : (tasks : List Task) → end_index tasks 0 ≡ total_clients_of tasks
end_index_zero tasks = omega (arith, end_index-eq-add tasks 0)

module _ (m : ℕ) (pos : 0 < m) where
  Level-append_all :
      (base : List (Option JoinPoint)) (j : JoinPoint) (rows : Matrix)
      → Level m base rows
      → Level m (base ++ some j ∷ []) (append_all (join j) rows)
  Level-append_all base j rows l = record {
    size = length-append_all (join j) rows ∙ l.size;
    shape = λ r h.
        rw (row-append_all (join j) rows r (omega (arith, l.size)), map-append)
          (ap (λ t. t ++ some j ∷ []) (l.shape r h));
  }

  Filled-start :
      (base : List (Option JoinPoint)) (rows : Matrix) → Level m base rows → Filled m base 0 rows
  Filled-start base rows l = record {
    size = l.size;
    shape = λ r h.
        l.shape r h ∙ sym (append-nil base) ∙ ap (λ t. base ++ replicate t none) (none_yet r);
  }
    where
      none_yet : (r : ℕ) → 0 ≡ share m 0 r
      none_yet r = ground (arith, zero-div m, zero-mod m)

  Level-place_element :
      (element : Element) (id : ℕ) (base : List (Option JoinPoint)) (rows : Matrix)
      → Level m base rows
      → Level m
          ((base ++ replicate (ceil_div (total_clients_of (sub_tasks element)) m) none)
            ++ some (record {
              id = id;
              clients_executing_completing_task = completing_clients m (sub_tasks element) 0;
            })
              ∷ [])
          (place_element m element id rows)
  unfolding place_element
  Level-place_element element id base rows l =
      let tasks = sub_tasks element in
      let start : Placement = record { rows = rows; completing = [] } in
      let filled =
        Filled-place_sub_tasks m base (clients_of element) pos tasks 0 start
          (Filled-start base rows l) in
      rw (← completing-place_sub_tasks m (clients_of element) tasks 0 start, ← end_index_zero tasks)
        (Level-append_all _ _ _ (Level-pad m base (end_index tasks 0) _ pos filled))

  Level-place_schedule :
      (schedule : List Element) (id : ℕ) (base : List (Option JoinPoint)) (rows : Matrix)
      → Level m base rows
      → Level m (base ++ plan m schedule id) (place_schedule m schedule id rows)
  unfolding place_schedule plan
  Level-place_schedule [] id base rows l = rw append-nil l
  Level-place_schedule (element ∷ schedule) id base rows l =
      let columns = replicate (ceil_div (total_clients_of (sub_tasks element)) m) none in
      let rest =
        Level-place_schedule schedule (id + 1) _ _ (Level-place_element element id base rows l) in
      rw (append_assoc (base ++ columns), append_assoc base columns) at rest

one-le-max_clients_of : (schedule : List Element) (k : ℕ) → 1 ≤ k → 1 ≤ max_clients_of schedule k
unfolding max_clients_of
one-le-max_clients_of [] k h = h
one-le-max_clients_of (element ∷ schedule) k h = one-le-max_clients_of schedule _ (omega arith)

pub clients_pos : (schedule : List Element) → 0 < clients schedule
unfolding clients
clients_pos schedule = one-le-max_clients_of schedule 1 (omega arith)

Level-empty : (m : ℕ) → Level m [] (replicate m [])
Level-empty m = record { size = length-replicate m []; shape = λ r h. ap marks (row-replicate m r) }

abbrev pub first_join_point : JoinPoint
first_join_point = record { id = 0; clients_executing_completing_task = [] }

-- There is a row for each client, and each row shows the first join point and then the plan of the
-- schedule: for each element the same number of columns in every row, enough for its clients, and
-- one join point, with the clients that execute the completing task.
pub marks-allocations :
    (schedule : List Element) (r : ℕ)
    → r < clients schedule
    → (length (allocations schedule) ≡ clients schedule)
      × (marks (row (allocations schedule) r)
          ≡ some first_join_point ∷ plan (clients schedule) schedule 1)
unfolding allocations
marks-allocations schedule r h =
    let m = clients schedule in
    let start = Level-append_all m (clients_pos schedule) [] _ _ (Level-empty m) in
    let all = Level-place_schedule m (clients_pos schedule) schedule 1 _ _ start in
    (all.size, all.shape r h)
