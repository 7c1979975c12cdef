-- ===== src/Allocator/Home.antt =====
-- The client of an allocation is its index in the element, modulo the number of clients.
use native.Mathlib.Nat.{mod-lt}
use solr_benchmark.Prelude.{
  ℕ, zero, suc, ◌+◌, ◌%◌, ◌<◌, ◌≡◌, refl, sym, ap, ◌∙◌, inl, inr, ◌&&◌, List, [], ◌∷◌, arith, ltb,
  leb, ◌==◌, ==_iff, Bool-cases, length, replicate, length-replicate, All, All-append,
}
use solr_benchmark.Workload.{Task, Element, sub_tasks, clients_of}
use solr_benchmark.Allocator.{
  JoinPoint, TaskAllocation, Entry, work, join, idle, Matrix, Placement, append_at, append_all,
  place_client, place_clients, place_sub_tasks, pad, place_element, place_schedule, clients,
  allocations,
}
use solr_benchmark.Allocator.Rows.{
  row, length-append_at, row-append_at, length-append_all, row-append_all, row-replicate,
}
use solr_benchmark.Allocator.Layout.{row-pad, length-pad}
use solr_benchmark.Allocator.Plan.{clients_pos}

abbrev pub IsHome : ℕ → ℕ → Entry → Type 0
IsHome m r (work a) = a.global_client_index % m ≡ r
IsHome m r _ = Unit

-- Each allocation stands in the row of its physical client.
record AtHome (m : ℕ) (rows : Matrix) : Type 0 where
  size : length rows ≡ m
  home : (r : ℕ) → r < m → All (IsHome m r) (row rows r)

module _ (m : ℕ) (pos : 0 < m) where
  AtHome-append_at :
      (k : ℕ) (a : TaskAllocation) (rows : Matrix)
      → a.global_client_index ≡ k
      → AtHome m rows
      → AtHome m (append_at (k % m) (work a) rows)
  AtHome-append_at k a rows own g = record {
    size = length-append_at (k % m) (work a) rows ∙ g.size;
    home = λ r h.
        rw (row-append_at (k % m) (work a) rows r (omega (arith, g.size, mod-lt k pos)))
          (elim (Bool-cases (r == k % m)) [
            | inl same ↦ rw same (
                All-append (IsHome m r) (row rows r) (work a ∷ []) (g.home r h)
                  (ap (λ t. t % m) own ∙ sym ((==_iff r (k % m)).0 same), tt))
            | inr other ↦ rw other (g.home r h)
          ]);
  }

  module _ (total : ℕ) where
    AtHome-place_clients :
        (task : Task) (start n k : ℕ) (p : Placement)
        → AtHome m p.rows
        → AtHome m (place_clients m total task start n k p).rows
    unfolding place_clients place_client
    AtHome-place_clients task start zero k p g = g
    AtHome-place_clients task start (suc n) k p g =
        AtHome-place_clients task start n (k + 1) _ (AtHome-append_at k _ p.rows refl g)

    AtHome-place_sub_tasks :
        (tasks : List Task) (start : ℕ) (p : Placement)
        → AtHome m p.rows
        → AtHome m (place_sub_tasks m total tasks start p).rows
    unfolding place_sub_tasks
    AtHome-place_sub_tasks [] start p g = g
    AtHome-place_sub_tasks (task ∷ tasks) start p g =
        AtHome-place_sub_tasks tasks (start + task.clients) _
          (AtHome-place_clients task start task.clients start p g)

  AtHome-pad : (used : ℕ) (rows : Matrix) → AtHome m rows → AtHome m (pad m used rows)
  AtHome-pad used rows g = record {
    size = length-pad m used rows ∙ g.size;
    home = λ r h.
        rw (row-pad m used rows r g.size h)
          (elim (Bool-cases (ltb 0 (used % m) && leb (used % m) r)) [
            | inl short ↦
                rw short (All-append (IsHome m r) (row rows r) (idle ∷ []) (g.home r h) (tt, tt))
            | inr full ↦ rw full (g.home r h)
          ]);
  }

  AtHome-append_all :
      (j : JoinPoint) (rows : Matrix) → AtHome m rows → AtHome m (append_all (join j) rows)
  AtHome-append_all j rows g = record {
    size = length-append_all (join j) rows ∙ g.size;
    home = λ r h.
        rw (row-append_all (join j) rows r (omega (arith, g.size)))
          (All-append (IsHome m r) (row rows r) (join j ∷ []) (g.home r h) (tt, tt));
  }

  AtHome-place_schedule :
      (schedule : List Element) (id : ℕ) (rows : Matrix)
      → AtHome m rows
      → AtHome m (place_schedule m schedule id rows)
  unfolding place_schedule place_element
  AtHome-place_schedule [] id rows g = g
  AtHome-place_schedule (element ∷ schedule) id rows g = AtHome-place_schedule schedule (id + 1) _ (
      AtHome-append_all _ _
        (AtHome-pad _ _ (AtHome-place_sub_tasks (clients_of element) (sub_tasks element) 0 _ g)))

AtHome-empty : (m : ℕ) → AtHome m (replicate m [])
AtHome-empty m = record { size = length-replicate m []; home = λ r h. rw (row-replicate m r) tt }

-- Every allocation in the row of client `r` has a client index that is `r` modulo the number of
-- clients.
pub IsHome-allocations :
    (schedule : List Element) (r : ℕ)
    → r < clients schedule
    → All (IsHome (clients schedule) r) (row (allocations schedule) r)
unfolding allocations
IsHome-allocations schedule r h =
    let m = clients schedule in
    (AtHome-place_schedule m (clients_pos schedule) schedule 1 _
        (AtHome-append_all m (clients_pos schedule) _ _ (AtHome-empty m))).home
      r h
