-- ===== src/Worker/Tests.antt =====
-- A worker with two clients, whose matrix has two columns of tasks between two join points.
use solr_benchmark.Prelude.{ℕ, ◌≡◌, refl, false, none, [], ◌∷◌, arith}
use solr_benchmark.Workload.{Task}
use solr_benchmark.Allocator.{Entry, work, join, idle}
use solr_benchmark.Coordinator.{Sample}
use solr_benchmark.Result.{ok}
use solr_benchmark.Worker.{ClientAllocation, tasks, Worker, receive_wakeup}
use solr_benchmark.Worker.Trip.{Arrives, free, finish}
use solr_benchmark.Worker.Arrival.{trip, Arrives-trip}
use solr_benchmark.Worker.Stall.{IsStuck, told, receive_wakeup-told}

abbrev index : Task
index = record {
  name = "index";
  operation = record { name = "index"; op_type = "bulk" };
  tags = [];
  warmup_iterations = none;
  iterations = none;
  warmup_time_period = none;
  time_period = none;
  ramp_up_time_period = none;
  ramp_down_time_period = none;
  clients = 3;
  completes_parent = false;
  schedule = none;
}

abbrev allocated : ℕ → Entry
allocated i =
    work (record {
      task = index;
      client_index_in_task = i;
      global_client_index = i;
      total_clients = 3;
    })

abbrev point : ℕ → Entry
point i = join (record { id = i; clients_executing_completing_task = [] })

abbrev worker : Worker
worker = record {
  client_allocations =
      record { client_id = 0; tasks = point 0 ∷ allocated 0 ∷ allocated 2 ∷ point 1 ∷ [] }
      ∷ record { client_id = 1; tasks = point 0 ∷ allocated 1 ∷ idle ∷ point 1 ∷ [] }
      ∷ [];
  current_task_index = 0;
  next_task_index = 1;
  cancel = false;
  complete = false;
  executor_future = none;
  sampler = none;
  profile_sampler = [];
  start_driving = false;
  wakeup_interval = 5;
}

abbrev of_client : ℕ → Entry → ClientAllocation
of_client i e = record { client_id = i; task = e }

abbrev sample : Sample
sample = record { client_id = 1; task_progress = none }

Arrives-trip_example :
    Arrives
      (free false worker)
      ((of_client 0 (allocated 0) ∷ of_client 1 (allocated 1) ∷ [])
        ∷ (of_client 0 (allocated 2) ∷ [])
        ∷ [])
      (of_client 0 (point 1) ∷ of_client 1 (point 1) ∷ [])
      ((sample ∷ sample ∷ []) ∷ [] ∷ [])
      (trip ((sample ∷ sample ∷ []) ∷ [] ∷ []) (free false worker))
unfolding tasks
Arrives-trip_example =
    Arrives-trip
      ((of_client 0 (allocated 0) ∷ of_client 1 (allocated 1) ∷ [])
        ∷ (of_client 0 (allocated 2) ∷ [])
        ∷ [])
      (of_client 0 (point 1) ∷ of_client 1 (point 1) ∷ []) ((sample ∷ sample ∷ []) ∷ [] ∷ []) false
      (free false worker) (omega arith) refl (refl, (refl, tt)) (omega arith) refl
      (refl, (refl, (refl, tt)))

receive_wakeup-told_example :
    IsStuck
      (record worker { current_task_index = 1; next_task_index = 2 })
      (receive_wakeup none (
        finish
          (sample ∷ [])
          (told (record worker { current_task_index = 1; next_task_index = 2 }))))
unfolding tasks
receive_wakeup-told_example =
    receive_wakeup-told (sample ∷ [])
      (record worker { current_task_index = 1; next_task_index = 2 }) (of_client 0 (allocated 2)) []
      refl refl

-- Without `remove_empty` the tasks of an index would include the empty ones; none is returned.
tasks_with_empty : tasks worker.client_allocations 1 false ≡ ok []
unfolding tasks
tasks_with_empty = refl
