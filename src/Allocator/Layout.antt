-- ===== src/Allocator/Layout.antt =====
-- `Allocator.allocations` against a plan of its rows: where each client finds its join points, and
-- what the join points say.
use native.Mathlib.Nat.{mod-lt}
use solr_benchmark.Prelude.{
  ℕ, zero, suc, ◌+◌, ◌-◌, ◌%◌, ◌<◌, ◌≡◌, refl, sym, ap, ◌∙◌, inl, inr, ◌&&◌, Option, none, some,
  List, [], ◌∷◌, ◌++◌, map, append-nil, append_assoc, map-append, arith, ltb, leb, ◌==◌,
  if◌then◌else◌, Bool-cases, length, replicate, replicate-snoc, range_from,
}
use solr_benchmark.Prelude.Rounding.{ceil_div, share, share-suc, share-le-ceil}
use solr_benchmark.Workload.{Task, Element, sub_tasks, total_clients_of}
use solr_benchmark.Allocator.{
  JoinPoint, Entry, join, idle, Matrix, Placement, append_at, place_client, place_clients,
  place_sub_tasks, end_index, pad,
}
use solr_benchmark.Allocator.Rows.{
  row, length-append_at, row-append_at, length-append_idle, row-append_idle,
}

-- The join point at an entry, if it is one.
abbrev pub mark : Entry → Option JoinPoint
mark (join j) = some j
mark _ = none

abbrev pub marks : List Entry → List (Option JoinPoint)
marks entries = map mark entries

-- The physical clients of the tasks that complete their parent, by the tasks' own index ranges.
pub completing_clients : ℕ → List Task → ℕ → List ℕ
completing_clients m [] start = []
completing_clients m (task ∷ tasks) start =
    (if task.completes_parent then map (λ i. i % m) (range_from start task.clients) else [])
    ++ completing_clients m tasks (start + task.clients)

-- For each element as many columns as its clients fill, rounded up, and a join point.
unfoldable pub plan : ℕ → List Element → ℕ → List (Option JoinPoint)
unfolding completing_clients total_clients_of sub_tasks
plan m [] id = []
plan m (element ∷ schedule) id =
    replicate (ceil_div (total_clients_of (sub_tasks element)) m) none
    ++ some (record {
      id = id;
      clients_executing_completing_task = completing_clients m (sub_tasks element) 0;
    })
      ∷ plan m schedule (id + 1)

-- After `k` client indices of an element, client `r` holds its share of them behind `base`.
pub record Filled (m : ℕ) (base : List (Option JoinPoint)) (k : ℕ) (rows : Matrix) : Type 0 where
  pub size : length rows ≡ m
  pub shape : (r : ℕ) → r < m → marks (row rows r) ≡ base ++ replicate (share m k r) none

module _ (m : ℕ) (base : List (Option JoinPoint)) where
  same_count : {a b : ℕ} → a ≡ b → base ++ replicate a none ≡ base ++ replicate b none
  same_count e = ap (λ t. base ++ replicate t none) e

  snoc_none :
      (entries : List Entry) (e : Entry) (n : ℕ)
      → mark e ≡ none
      → marks entries ≡ base ++ replicate n none
      → marks (entries ++ e ∷ []) ≡ base ++ replicate (n + 1) none
  snoc_none entries e n unmarked h =
      rw (map-append, h, append_assoc, unmarked, replicate-snoc)
        (same_count {a = suc n} (omega arith))

  Filled-append_at :
      (k : ℕ) (e : Entry) (rows : Matrix)
      → 0 < m
      → mark e ≡ none
      → Filled m base k rows
      → Filled m base (k + 1) (append_at (k % m) e rows)
  Filled-append_at k e rows pos unmarked f = record {
    size = length-append_at (k % m) e rows ∙ f.size;
    shape = λ r h.
        rw (row-append_at (k % m) e rows r (omega (arith, f.size, mod-lt k pos)), share-suc m k r h)
          (elim (Bool-cases (r == k % m)) [
            | inl same ↦ rw same (snoc_none (row rows r) e (share m k r) unmarked (f.shape r h))
            | inr other ↦ rw other (f.shape r h ∙ same_count (omega arith))
          ]);
  }

  module _ (total : ℕ) (pos : 0 < m) where
    Filled-place_clients :
        (sub_task : Task) (start n k j : ℕ) (p : Placement)
        → k + n ≡ j
        → Filled m base k p.rows
        → Filled m base j (place_clients m total sub_task start n k p).rows
    unfolding place_clients place_client
    Filled-place_clients sub_task start zero k j p e f = let e' : k ≡ j = omega arith in rw (← e') f
    Filled-place_clients sub_task start (suc n) k j p e f =
        Filled-place_clients sub_task start n (k + 1) j _ (omega arith)
          (Filled-append_at k _ p.rows pos refl f)

    pub Filled-place_sub_tasks :
        (tasks : List Task) (start : ℕ) (p : Placement)
        → Filled m base start p.rows
        → Filled m base (end_index tasks start) (place_sub_tasks m total tasks start p).rows
    unfolding place_sub_tasks end_index
    Filled-place_sub_tasks [] start p f = f
    Filled-place_sub_tasks (task ∷ tasks) start p f =
        Filled-place_sub_tasks tasks (start + task.clients) _
          (Filled-place_clients task start task.clients start (start + task.clients) p refl f)

  -- All rows have the marks `base`.
  pub record Level (rows : Matrix) : Type 0 where
    pub size : length rows ≡ m
    pub shape : (r : ℕ) → r < m → marks (row rows r) ≡ base

module _ (m : ℕ) where
  pub length-pad : (k : ℕ) (rows : Matrix) → length (pad m k rows) ≡ length rows
  unfolding pad
  length-pad k rows = ground (arith, length-append_idle (k % m) (m - k % m) rows)

  pub row-pad :
      (k : ℕ) (rows : Matrix) (r : ℕ)
      → length rows ≡ m
      → r < m
      → row (pad m k rows) r
        ≡ (if ltb 0 (k % m) && leb (k % m) r then row rows r ++ idle ∷ [] else row rows r)
  unfolding pad
  row-pad k rows r size h = ground (
    arith,
    mod-lt k {m = m} (omega arith),
    row-append_idle (k % m) (m - k % m) rows r (omega (arith, mod-lt k {m = m} (omega arith))),
  )

  pub Level-pad :
      (base : List (Option JoinPoint)) (k : ℕ) (rows : Matrix)
      → 0 < m
      → Filled m base k rows
      → Level m (base ++ replicate (ceil_div k m) none) (pad m k rows)
  Level-pad base k rows pos f = record {
    size = length-pad k rows ∙ f.size;
    shape = λ r h.
        rw (row-pad k rows r f.size h, share-le-ceil m k r h)
          (elim (Bool-cases (ltb 0 (k % m) && leb (k % m) r)) [
            | inl short ↦
                rw short (snoc_none m base (row rows r) idle (share m k r) refl (f.shape r h))
            | inr full ↦ rw full (f.shape r h ∙ same_count m base (omega arith))
          ]);
  }

module _ (m total : ℕ) where
  completing-place_clients :
      (sub_task : Task) (start n k : ℕ) (p : Placement)
      → (place_clients m total sub_task start n k p).completing
        ≡ p.completing
          ++ (if sub_task.completes_parent then map (λ i. i % m) (range_from k n) else [])
  unfolding place_clients place_client
  completing-place_clients sub_task start zero k p = ground (arith, append-nil p.completing)
  completing-place_clients sub_task start (suc n) k p = ground (
    arith,
    completing-place_clients sub_task start n (k + 1) (place_client m total sub_task start k p),
    append_assoc p.completing (k % m ∷ []) (map (λ i. i % m) (range_from (k + 1) n)),
  )

  pub completing-place_sub_tasks :
      (tasks : List Task) (start : ℕ) (p : Placement)
      → (place_sub_tasks m total tasks start p).completing
        ≡ p.completing ++ completing_clients m tasks start
  unfolding place_sub_tasks completing_clients
  completing-place_sub_tasks [] start p = sym (append-nil p.completing)
  completing-place_sub_tasks (task ∷ tasks) start p = rw (
    completing-place_sub_tasks tasks (start + task.clients) _,
    completing-place_clients task start task.clients start p,
    append_assoc,
  )

pub end_index-eq-add :
    (tasks : List Task) (start : ℕ) → end_index tasks start ≡ start + total_clients_of tasks
unfolding end_index total_clients_of
end_index-eq-add [] start = omega arith
end_index-eq-add (task ∷ tasks) start = omega (arith, end_index-eq-add tasks (start + task.clients))
