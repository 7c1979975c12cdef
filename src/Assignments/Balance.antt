-- ===== src/Assignments/Balance.antt =====
-- How `calculate_worker_assignments` spreads clients over the workers of a host and over hosts.
use native.Mathlib.Nat.{mod-lt, zero-div, zero-mod}
use solr_benchmark.Prelude.{
  ℕ, zero, suc, ◌+◌, ◌-◌, ◌%◌, ◌≤◌, ◌<◌, min, ◌≡◌, refl, sym, ap, ◌∙◌, List, [], ◌∷◌, arith, ◌==◌,
  ltb, if◌then◌else◌, length, get_or, replicate, length-replicate, length-range_from, sum, ◌&&◌,
}
use solr_benchmark.Prelude.Rounding.{share, share-suc}
use solr_benchmark.Result.{Result, ok, raise_if, zero_division, ◌>>=◌, bind-eq-ok, then-eq-ok}
use solr_benchmark.Assignments.{
  HostConfig, Assignment, increment_at, spread, assign_ids, worker_counts, assign_hosts,
  calculate_worker_assignments,
}
use solr_benchmark.Assignments.Ids.{length-increment_at}

get_or-increment_at :
    (i : ℕ) (counts : List ℕ) (r : ℕ)
    → i < length counts
    → get_or (increment_at i counts) r 0 ≡ get_or counts r 0 + (if r == i then 1 else 0)
unfolding increment_at
get_or-increment_at i [] r h = elim h [ ]
get_or-increment_at zero (n ∷ counts) zero h = refl
get_or-increment_at zero (n ∷ counts) (suc r) h = ground arith
get_or-increment_at (suc i) (n ∷ counts) zero h = ground arith
get_or-increment_at (suc i) (n ∷ counts) (suc r) h =
    ground (arith, get_or-increment_at i counts r (omega arith))

length-spread : (w n c : ℕ) (counts : List ℕ) → length (spread w n c counts) ≡ length counts
unfolding spread
length-spread w zero c counts = refl
length-spread w (suc n) c counts = length-spread w n (c + 1) _ ∙ length-increment_at (c % w) counts

-- A count grows by the share of the worker in the clients spread so far.
get_or-spread :
    (w n c r : ℕ) (counts : List ℕ)
    → r < w
    → length counts ≡ w
    → get_or counts r 0 ≡ share w c r
    → get_or (spread w n c counts) r 0 ≡ share w (c + n) r
unfolding spread
get_or-spread w zero c r counts h size start = start ∙ ap (λ t. share w t r) (omega arith)
get_or-spread w (suc n) c r counts h size start =
    let grown : get_or (increment_at (c % w) counts) r 0 ≡ share w (c + 1) r = omega (
      arith,
      get_or-increment_at (c % w) counts r (omega (arith, mod-lt c {m = w} (omega arith))),
      share-suc w c r h,
    ) in
    get_or-spread w n (c + 1) r _ h (length-increment_at (c % w) counts ∙ size) grown
    ∙ ap (λ t. share w t r) (omega arith)

get_or-replicate : (w r : ℕ) → get_or {A = ℕ} (replicate w 0) r 0 ≡ 0
get_or-replicate zero r = refl
get_or-replicate (suc w) zero = refl
get_or-replicate (suc w) (suc r) = get_or-replicate w r

get_or-worker_counts :
    (cores n r : ℕ) → r < cores → get_or (worker_counts cores n) r 0 ≡ share cores n r
get_or-worker_counts cores n r h =
    let none_yet : share cores 0 r ≡ 0 = ground (arith, zero-div cores, zero-mod cores) in
    get_or-spread cores n 0 r (replicate cores 0) h (length-replicate cores 0)
      (get_or-replicate cores r ∙ sym none_yet)
    ∙ ap (λ t. share cores t r) (omega arith)

length-assign_ids : (idx : ℕ) (counts : List ℕ) → length (assign_ids idx counts) ≡ length counts
unfolding assign_ids
length-assign_ids idx [] = refl
length-assign_ids idx (n ∷ counts) = ap suc (length-assign_ids (idx + n) counts)

load-assign_ids :
    (idx : ℕ) (counts : List ℕ) (r : ℕ)
    → length (get_or (assign_ids idx counts) r []) ≡ get_or counts r 0
unfolding assign_ids
load-assign_ids idx [] r = refl
load-assign_ids idx (n ∷ counts) zero = length-range_from idx n
load-assign_ids idx (n ∷ counts) (suc r) = load-assign_ids (idx + n) counts r

-- A host has a worker for each core, and the numbers of clients of two workers differ by at most
-- one, where the earlier worker has the larger number.
abbrev pub IsBalanced : HostConfig → Assignment → Type 0
IsBalanced config a =
    (a.host ≡ config.host)
    × (length a.workers ≡ config.cores)
    × ((r s : ℕ)
        → r ≤ s
        → s < config.cores
        → (length (get_or a.workers s []) ≤ length (get_or a.workers r []))
          × (length (get_or a.workers r []) ≤ length (get_or a.workers s []) + 1))

abbrev pub AreBalanced : List HostConfig → List Assignment → Type 0
AreBalanced [] [] = Unit
AreBalanced (config ∷ configs) (a ∷ assignments) =
    IsBalanced config a × AreBalanced configs assignments
AreBalanced _ _ = ⊥

IsBalanced-assign_ids :
    (config : HostConfig) (idx n : ℕ)
    → IsBalanced config
        (record { host = config.host; workers = assign_ids idx (worker_counts config.cores n) })
IsBalanced-assign_ids config idx n =
    let counts = worker_counts config.cores n in
    (
      refl,
      length-assign_ids idx counts
          ∙ length-spread config.cores n 0 _
          ∙ length-replicate config.cores 0,
      λ r s le lt. ground (
        arith,
        load-assign_ids idx counts r,
        load-assign_ids idx counts s,
        get_or-worker_counts config.cores n r (omega arith),
        get_or-worker_counts config.cores n s lt,
      ),
    )

AreBalanced-assign_hosts :
    (per_host : ℕ) (hosts : List HostConfig) (idx remaining : ℕ) {assignments : List Assignment}
    → assign_hosts per_host hosts idx remaining ≡ ok assignments
    → AreBalanced hosts assignments
unfolding assign_hosts
AreBalanced-assign_hosts per_host [] idx remaining {assignments} e =
    let ends : assignments ≡ [] = ground arith in rw ends tt
AreBalanced-assign_hosts per_host (config ∷ configs) idx remaining {assignments} e =
    let here = min per_host remaining in
    let counts = worker_counts config.cores here in
    let this : Assignment = record { host = config.host; workers = assign_ids idx counts } in
    let others = assign_hosts per_host configs (idx + sum counts) (remaining - here) in
    let guard = raise_if (config.cores == 0 && ltb 0 here) zero_division in
    let add : List Assignment → Result (List Assignment) = λ assignments. ok (this ∷ assignments) in
    let after = then-eq-ok guard (others >>= add) e in
    let (rest, runs, made) = bind-eq-ok others add after in
    let whole : assignments ≡ this ∷ rest = cc in
    rw whole
      (IsBalanced-assign_ids config idx here, AreBalanced-assign_hosts per_host configs _ _ runs)

-- Whenever the assignment succeeds, there is one entry for each host, in order, with one worker for
-- each core, and the clients of two workers of a host differ in number by at most one.
pub AreBalanced-calculate_worker_assignments :
    (hosts : List HostConfig) (client_count : ℕ) (assignments : List Assignment)
    → calculate_worker_assignments hosts client_count ≡ ok assignments
    → AreBalanced hosts assignments
unfolding calculate_worker_assignments
AreBalanced-calculate_worker_assignments [] n assignments e = cc
AreBalanced-calculate_worker_assignments (config ∷ configs) n assignments e =
    AreBalanced-assign_hosts _ (config ∷ configs) 0 n e
