-- ===== src/Assignments.antt =====
-- osbenchmark/worker_coordinator/worker_coordinator.py: `calculate_worker_assignments`.
pub mod Ids
pub mod Balance
mod Tests
use solr_benchmark.Prelude.{
  ℕ, zero, suc, ◌+◌, ◌-◌, ◌%◌, min, String, List, [], ◌∷◌, ◌&&◌, ltb, ◌==◌, if◌then◌else◌, length,
  replicate, range_from, sum,
}
use solr_benchmark.Prelude.Rounding.{ceil_div}
use solr_benchmark.Result.{Result, ok, raise, zero_division, assertion_error, raise_if, ◌>>=◌, ◌>>◌}

pub record HostConfig : Type 0 where
  pub host : String
  pub cores : ℕ

pub record Assignment : Type 0 where
  pub host : String
  pub workers : List (List ℕ)

-- counts[i] += 1
pub increment_at : ℕ → List ℕ → List ℕ
increment_at i [] = []
increment_at zero (n ∷ counts) = (n + 1) ∷ counts
increment_at (suc i) (n ∷ counts) = n ∷ increment_at i counts

-- for c in range(c, c + n): clients_per_worker[c % workers_on_this_host] += 1
pub spread : ℕ → ℕ → ℕ → List ℕ → List ℕ
spread workers zero c counts = counts
spread workers (suc n) c counts = spread workers n (c + 1) (increment_at (c % workers) counts)

-- Consecutive client ids for each worker, from `client_idx` on.
pub assign_ids : ℕ → List ℕ → List (List ℕ)
assign_ids client_idx [] = []
assign_ids client_idx (n ∷ counts) = range_from client_idx n ∷ assign_ids (client_idx + n) counts

-- `clients_per_worker` of a host that simulates `n` clients.
abbrev pub worker_counts : ℕ → ℕ → List ℕ
worker_counts cores n = spread cores n 0 (replicate cores 0)

-- The loop over the hosts, and the assertion behind it. `c % 0` raises when a host without cores
-- is to simulate clients.
pub assign_hosts : ℕ → List HostConfig → ℕ → ℕ → Result (List Assignment)
unfolding spread increment_at assign_ids
assign_hosts clients_per_host [] client_idx remaining =
    if remaining == 0 then ok [] else raise assertion_error
assign_hosts clients_per_host (config ∷ configs) client_idx remaining =
    let clients_on_this_host = min clients_per_host remaining in
    let counts = worker_counts config.cores clients_on_this_host in
    let rest =
      assign_hosts clients_per_host configs (client_idx + sum counts)
        (remaining - clients_on_this_host) in
    do
      raise_if (config.cores == 0 && ltb 0 clients_on_this_host) zero_division
      assignments ← rest
      ok (record { host = config.host; workers = assign_ids client_idx counts } ∷ assignments)

-- With no host the division by `host_count` raises.
pub calculate_worker_assignments : List HostConfig → ℕ → Result (List Assignment)
unfolding assign_hosts
calculate_worker_assignments [] client_count = raise zero_division
calculate_worker_assignments (config ∷ configs) client_count =
    let hosts = config ∷ configs in
    assign_hosts (ceil_div client_count (length hosts)) hosts 0 client_count
