-- ===== src/Coordinator/Tests.antt =====
-- The coordinator on two workers with two clients each, behind a task that completes its parent.
use solr_benchmark.Prelude.{
  ℕ, ◌+◌, ◌≡◌, refl, ◌⊎◌, true, false, [], ◌∷◌, ◌==◌, map, range_from, if◌then◌else◌, arith,
}
use solr_benchmark.Prelude.Dict.{get, put, nat_key}
use solr_benchmark.Allocator.{JoinPoint}
use solr_benchmark.Coordinator.{Reached, Options, Coordinator}
use solr_benchmark.Coordinator.Steps.{may_complete_current_task}
use solr_benchmark.Coordinator.Completion.{Notified, Silent, may_complete_current_task_lem}
use solr_benchmark.Coordinator.Round.{Arrival, reach_each, Held-reach_each, Held, start_of}
use solr_benchmark.Coordinator.Advance.{Advances, Advances-reach_each}

abbrev options : Options
options = record { redline_test = true; test_mode_enabled = false; quiet = false; second = 1000 }

abbrev join_point : JoinPoint
join_point = record { id = 1; clients_executing_completing_task = 0 ∷ 1 ∷ [] }

abbrev started : Coordinator
started = record {
  workers = 2;
  clients_per_worker = (0, 0) ∷ (1, 0) ∷ (2, 1) ∷ (3, 1) ∷ [];
  number_of_steps = 2;
  tasks_per_join_point = ("index" ∷ "search" ∷ []) ∷ ("search" ∷ []) ∷ [];
  join_points_passed = 1;
  currently_completed = 0;
  workers_completed_current_step = [];
  complete_current_task_sent = false;
  raw_samples = [];
  raw_profile_samples = [];
  most_recent_sample_per_client = [];
  metrics_store_open = true;
}

abbrev first_arrival : Arrival
first_arrival = record {
  worker_id = 0;
  worker_local_timestamp = 500;
  received_at = 20;
  now = 21;
  task_allocations = join_point ∷ join_point ∷ [];
}

abbrev last_arrival : Arrival
last_arrival = record {
  worker_id = 1;
  worker_local_timestamp = 900;
  received_at = 40;
  now = 41;
  task_allocations = join_point ∷ [];
}

abbrev time : ℕ → Reached
time w =
    if w == 0
    then record { worker_ended_task_at = 500; master_received_msg_at = 20 }
    else record { worker_ended_task_at = 900; master_received_msg_at = 40 }

abbrev half_way : Coordinator
half_way = record started {
  workers_completed_current_step =
      (0, record { worker_ended_task_at = 500; master_received_msg_at = 20 }) ∷ [];
}

may_complete_current_task_lem_example :
    Notified join_point half_way (may_complete_current_task (join_point ∷ []) half_way)
    ⊎ Silent join_point half_way (may_complete_current_task (join_point ∷ []) half_way)
unfolding get
may_complete_current_task_lem_example =
    may_complete_current_task_lem join_point [] (join_point ∷ []) half_way refl (refl, (refl, tt))

Held-reach_each_example : Held options (first_arrival ∷ []) started
unfolding get
Held-reach_each_example =
    Held-reach_each options (first_arrival ∷ []) started (omega arith)
      (((refl, (refl, tt)), ((refl, (refl, tt)), tt)), tt)

Advances-reach_each_example :
    Advances options 41 time started
      (reach_each options (first_arrival ∷ last_arrival ∷ []) started)
unfolding get put
Advances-reach_each_example =
    Advances-reach_each options (first_arrival ∷ []) last_arrival time started refl
      (((refl, (refl, tt)), ((refl, (refl, tt)), tt)), tt) (omega arith, refl) (refl, (refl, tt))

-- Each worker gets its own time for the same moment.
starts_together : map (start_of (41 + 1000) time) (range_from 0 2) ≡ (0, 1521) ∷ (1, 1901) ∷ []
starts_together = refl
