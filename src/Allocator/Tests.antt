-- ===== src/Allocator/Tests.antt =====
-- The theorems on the allocation matrix at concrete schedules, and runs of `allocations`.
use mathlib.Core.List.{Perm}
use solr_benchmark.Prelude.{
  ℕ, ◌<◌, ◌≡◌, refl, Bool, true, false, none, some, List, [], ◌∷◌, arith, length, All,
}
use solr_benchmark.Workload.{
  Operation, Task, Element, single, parallel, clients_of, sub_tasks, total_clients_of,
}
use solr_benchmark.Allocator.{
  append_at, append_all, place_client, place_clients, place_sub_tasks, append_idle, end_index, pad,
  place_element, place_schedule, max_clients_of, clients, allocations,
}
use solr_benchmark.Allocator.Rows.{row}
use solr_benchmark.Allocator.Layout.{marks, plan}
use solr_benchmark.Allocator.Plan.{marks-allocations, first_join_point}
use solr_benchmark.Allocator.Coverage.{all_works, schedule_allocations, works-allocations}
use solr_benchmark.Allocator.Home.{IsHome, IsHome-allocations}

abbrev task : Operation → ℕ → Bool → Task
task op n completes = record {
  name = op.name;
  operation = op;
  tags = [];
  warmup_iterations = none;
  iterations = none;
  warmup_time_period = none;
  time_period = none;
  ramp_up_time_period = none;
  ramp_down_time_period = none;
  clients = n;
  completes_parent = completes;
  schedule = none;
}

abbrev index : Task
index = task (record { name = "index"; op_type = "bulk" }) 3 true

abbrev query : Task
query = task (record { name = "search"; op_type = "search" }) 2 false

-- Five clients of a parallel element share the two clients that it allows.
abbrev mixed : List Element
mixed = parallel (index ∷ query ∷ []) (some 2) ∷ single query ∷ []

program : Unit {0}
unfolding allocations clients max_clients_of clients_of sub_tasks total_clients_of place_schedule
    place_element place_sub_tasks place_clients place_client append_at append_all append_idle pad
    end_index
program = tt

clients-mixed : clients mixed ≡ 2
unfolding program
clients-mixed = refl

shape-mixed :
    marks (row (allocations mixed) 1)
    ≡ some first_join_point
      ∷ none
      ∷ none
      ∷ none
      ∷ some (record { id = 1; clients_executing_completing_task = 0 ∷ 1 ∷ 0 ∷ [] })
      ∷ none
      ∷ some (record { id = 2; clients_executing_completing_task = [] })
      ∷ []
unfolding program
shape-mixed = refl

one-lt-clients : 1 < clients mixed
unfolding program
one-lt-clients = omega arith

marks-allocations_example :
    (length (allocations mixed) ≡ clients mixed)
    × (marks (row (allocations mixed) 1) ≡ some first_join_point ∷ plan (clients mixed) mixed 1)
marks-allocations_example = marks-allocations mixed 1 one-lt-clients

works-allocations_example : Perm (all_works (allocations mixed)) (schedule_allocations mixed)
works-allocations_example = works-allocations mixed

IsHome-allocations_example : All (IsHome (clients mixed) 1) (row (allocations mixed) 1)
IsHome-allocations_example = IsHome-allocations mixed 1 one-lt-clients
