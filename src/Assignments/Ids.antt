-- ===== src/Assignments/Ids.antt =====
-- The client ids that `calculate_worker_assignments` hands out are 0, 1, ... in order.
use native.Mathlib.Nat.{mod-lt}
use solr_benchmark.Prelude.{
  ℕ, zero, suc, ◌+◌, ◌-◌, ◌*◌, ◌%◌, ◌≤◌, ◌<◌, min, ◌≡◌, ◌==◌, false, refl, ap, ◌∙◌, List, [], ◌∷◌,
  ◌++◌, arith, length, length-replicate, replicate, range_from, range_from-append, sum, All,
}
use solr_benchmark.Prelude.Rounding.{ceil_div, le-ceil_div}
use solr_benchmark.Result.{ok}
use solr_benchmark.Assignments.{
  HostConfig, Assignment, increment_at, spread, assign_ids, worker_counts, assign_hosts,
  calculate_worker_assignments,
}

-- All client ids of a host, and of all hosts, in the order of the workers.
pub ids_of_workers : List (List ℕ) → List ℕ
ids_of_workers [] = []
ids_of_workers (ids ∷ workers) = ids ++ ids_of_workers workers

pub ids_of_hosts : List Assignment → List ℕ
unfolding ids_of_workers
ids_of_hosts [] = []
ids_of_hosts (a ∷ assignments) = ids_of_workers a.workers ++ ids_of_hosts assignments

pub length-increment_at : (i : ℕ) (counts : List ℕ) → length (increment_at i counts) ≡ length counts
unfolding increment_at
length-increment_at i [] = refl
length-increment_at zero (n ∷ counts) = refl
length-increment_at (suc i) (n ∷ counts) = ap suc (length-increment_at i counts)

sum-increment_at :
    (i : ℕ) (counts : List ℕ) → i < length counts → sum (increment_at i counts) ≡ sum counts + 1
unfolding increment_at
sum-increment_at i [] h = elim h [ ]
sum-increment_at zero (n ∷ counts) h = omega arith
sum-increment_at (suc i) (n ∷ counts) h = omega (arith, sum-increment_at i counts (omega arith))

sum-spread :
    (w n c : ℕ) (counts : List ℕ)
    → 0 < w
    → length counts ≡ w
    → sum (spread w n c counts) ≡ sum counts + n
unfolding spread
sum-spread w zero c counts pos size = omega arith
sum-spread w (suc n) c counts pos size =
    let bound : c % w < length counts = omega (arith, mod-lt c pos) in
    omega (
      arith,
      sum-increment_at (c % w) counts bound,
      sum-spread w n (c + 1) (increment_at (c % w) counts) pos
          (length-increment_at (c % w) counts ∙ size),
    )

sum-replicate : (w : ℕ) → sum (replicate w 0) ≡ 0
sum-replicate zero = refl
sum-replicate (suc w) = omega (arith, sum-replicate w)

pub sum-worker_counts : (cores n : ℕ) → 0 < cores → sum (worker_counts cores n) ≡ n
sum-worker_counts cores n pos = omega (
  arith,
  sum-spread cores n 0 (replicate cores 0) pos (length-replicate cores 0),
  sum-replicate cores,
)

ids-assign_ids :
    (idx : ℕ) (counts : List ℕ)
    → ids_of_workers (assign_ids idx counts) ≡ range_from idx (sum counts)
unfolding ids_of_workers assign_ids
ids-assign_ids idx [] = refl
ids-assign_ids idx (n ∷ counts) =
    rw (ids-assign_ids (idx + n) counts) (range_from-append idx n (sum counts) (idx + n) refl)

abbrev pub HasCores : HostConfig → Type 0
HasCores config = 0 < config.cores

ids-assign_hosts :
    (per_host : ℕ) (hosts : List HostConfig) (idx remaining : ℕ)
    → All HasCores hosts
    → remaining ≤ per_host * length hosts
    → (assignments : List Assignment) × (assign_hosts per_host hosts idx remaining ≡ ok assignments)
      × (ids_of_hosts assignments ≡ range_from idx remaining)
unfolding assign_hosts ids_of_hosts
ids-assign_hosts per_host [] idx remaining cores fits =
    let none_left : remaining ≡ 0 = omega arith in ([], rw none_left refl, rw none_left refl)
ids-assign_hosts per_host (config ∷ configs) idx remaining cores fits =
    let here = min per_host remaining in
    let counts = worker_counts config.cores here in
    let total : sum counts ≡ here = sum-worker_counts config.cores here cores.0 in
    let (rest, runs, ids) =
      ids-assign_hosts per_host configs (idx + sum counts) (remaining - here) cores.1
        (omega arith) in
    let some_cores : (config.cores == 0) ≡ false = ground (arith, cores.0) in
    let assigned : range_from idx (sum counts) ++ range_from (idx + sum counts) (remaining - here)
        ≡ range_from idx remaining =
      range_from-append idx (sum counts) (remaining - here) (idx + sum counts) refl
      ∙ ap (range_from idx) (omega arith) in
    (
      record { host = config.host; workers = assign_ids idx counts } ∷ rest,
      rw (some_cores, runs) refl,
      rw (ids-assign_ids, ids) assigned,
    )

-- With at least one host, and cores on every host, the assignment succeeds, and the ids of all
-- workers of all hosts, in order, are 0, ..., client_count - 1: each client exactly once.
pub ids-calculate_worker_assignments :
    (hosts : List HostConfig) (client_count : ℕ)
    → 0 < length hosts
    → All HasCores hosts
    → (assignments : List Assignment) × (calculate_worker_assignments hosts client_count
        ≡ ok assignments)
      × (ids_of_hosts assignments ≡ range_from 0 client_count)
unfolding calculate_worker_assignments
ids-calculate_worker_assignments [] n h cores = elim h [ ]
ids-calculate_worker_assignments (config ∷ configs) n h cores =
    let hosts = config ∷ configs in
    ids-assign_hosts (ceil_div n (length hosts)) hosts 0 n cores
      (le-ceil_div n (length hosts) (omega arith))
