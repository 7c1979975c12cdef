-- ===== src/Assignments/Tests.antt =====
-- The theorems on worker assignments at concrete hosts, and runs of the function.
use solr_benchmark.Prelude.{◌≡◌, refl, List, [], ◌∷◌, arith, range_from}
use solr_benchmark.Result.{ok, raise, zero_division}
use solr_benchmark.Assignments.{HostConfig, Assignment, calculate_worker_assignments}
use solr_benchmark.Assignments.Ids.{ids_of_hosts, ids-calculate_worker_assignments}
use solr_benchmark.Assignments.Balance.{AreBalanced, AreBalanced-calculate_worker_assignments}

abbrev two_hosts : List HostConfig
two_hosts = record { host = "a"; cores = 2 } ∷ record { host = "b"; cores = 3 } ∷ []

abbrev spread_seven : List Assignment
spread_seven =
    record { host = "a"; workers = (0 ∷ 1 ∷ []) ∷ (2 ∷ 3 ∷ []) ∷ [] }
    ∷ record { host = "b"; workers = (4 ∷ []) ∷ (5 ∷ []) ∷ (6 ∷ []) ∷ [] }
    ∷ []

runs : calculate_worker_assignments two_hosts 7 ≡ ok spread_seven
unfolding calculate_worker_assignments
runs = refl

no_cores :
    calculate_worker_assignments (record { host = "a"; cores = 0 } ∷ []) 1 ≡ raise zero_division
unfolding calculate_worker_assignments
no_cores = refl

ids-calculate_worker_assignments_example :
    (assignments : List Assignment) × (calculate_worker_assignments two_hosts 7 ≡ ok assignments)
    × (ids_of_hosts assignments ≡ range_from 0 7)
ids-calculate_worker_assignments_example =
    ids-calculate_worker_assignments two_hosts 7 (omega arith) (omega arith)

AreBalanced-calculate_worker_assignments_example : AreBalanced two_hosts spread_seven
AreBalanced-calculate_worker_assignments_example =
    AreBalanced-calculate_worker_assignments two_hosts 7 spread_seven runs
