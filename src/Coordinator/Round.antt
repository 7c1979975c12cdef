-- ===== src/Coordinator/Round.antt =====
-- A round of the join point protocol: the messages of all workers, in any order, from one join point
-- to the start of the next task.
use solr_benchmark.Coordinator.{complete_current_task}
use solr_benchmark.Prelude.{
  ℕ, zero, suc, ◌+◌, ◌-◌, ◌≤◌, ◌<◌, ◌≡◌, refl, ap, inl, inr, Bool, true, false, some, List, [], ◌∷◌,
  ◌++◌, map, arith, Bool-cases, filterb, if◌then◌else◌, All, length, ◌==◌, range_from,
}
use solr_benchmark.Prelude.Dict.{Dict, get, put, nat_key}
use solr_benchmark.Result.{ok, ◌>>=◌}
use solr_benchmark.Allocator.{JoinPoint, preceding_task_completes_parent}
use solr_benchmark.Coordinator.{
  Reached, Effect, drive_at, disable_feedback_scaling, Options, Coordinator, Step, progress_of,
  one_unit, or_none_reported,
}
use solr_benchmark.Coordinator.Steps.{
  drive_worker, drive_workers, complete_first, may_complete_current_task, joinpoint_reached,
}
use solr_benchmark.Coordinator.Completion.{IsKnown, complete_first_lem}

-- A message of a worker at a join point, with the values of the clock while it is handled.
pub record Arrival : Type 0 where
  pub worker_id : ℕ
  pub worker_local_timestamp : ℕ
  pub received_at : ℕ
  pub now : ℕ
  pub task_allocations : List JoinPoint

abbrev pub reach : Options → Arrival → Coordinator → Step
reach o a c =
    joinpoint_reached o a.received_at a.now a.worker_id a.worker_local_timestamp a.task_allocations
      c

-- The messages one after the other.
unfoldable pub reach_each : Options → List Arrival → Coordinator → Step
reach_each o [] c = ok (c, [])
reach_each o (a ∷ arrivals) c = do
  (next, effects) ← reach o a c
  (last, more) ← reach_each o arrivals next
  ok (last, effects ++ more)

-- The start times that are sent to the workers.
abbrev pub driven : List Effect → List (ℕ × ℕ)
driven [] = []
driven (drive_at worker_id t ∷ effects) = (worker_id, t) ∷ driven effects
driven (_ ∷ effects) = driven effects

-- What is known of the workers after their messages.
abbrev pub note : Arrival → Dict ℕ Reached → Dict ℕ Reached
note a reached =
    put a.worker_id
      (record {
        worker_ended_task_at = a.worker_local_timestamp;
        master_received_msg_at = a.received_at;
      })
      reached

abbrev pub notes : List Arrival → Dict ℕ Reached → Dict ℕ Reached
notes [] reached = reached
notes (a ∷ arrivals) reached = notes arrivals (note a reached)

-- All clients at a join point are assigned to workers.
abbrev pub IsServed : Coordinator → JoinPoint → Type 0
IsServed c j = All (IsKnown c) j.clients_executing_completing_task

abbrev pub AreServed : Coordinator → Arrival → Type 0
AreServed c a = All (IsServed c) a.task_allocations

-- The tasks of the step are known and the clients report in one unit.
abbrev pub IsDisplayable : Coordinator → Type 0
IsDisplayable c =
    (c.join_points_passed ≤ length c.tasks_per_join_point)
    × (one_unit (or_none_reported (progress_of c.most_recent_sample_per_client)) ≡ true)

pub driven-append : (xs ys : List Effect) → driven (xs ++ ys) ≡ driven xs ++ driven ys
driven-append [] ys = refl
driven-append (drive_at w t ∷ xs) ys = ap (λ l. (w, t) ∷ l) (driven-append xs ys)
driven-append (Effect.complete_current_task w ∷ xs) ys = driven-append xs ys
driven-append (Effect.on_task_finished w ∷ xs) ys = driven-append xs ys
driven-append (Effect.on_benchmark_complete ∷ xs) ys = driven-append xs ys
driven-append (Effect.on_benchmark_stop ∷ xs) ys = driven-append xs ys
driven-append (Effect.disable_feedback_scaling ∷ xs) ys = driven-append xs ys
driven-append (Effect.enable_feedback_scaling ∷ xs) ys = driven-append xs ys
driven-append (Effect.process_samples s ∷ xs) ys = driven-append xs ys
driven-append (Effect.process_profile_samples s ∷ xs) ys = driven-append xs ys
driven-append (Effect.print_progress t p b ∷ xs) ys = driven-append xs ys
driven-append (Effect.finish_progress ∷ xs) ys = driven-append xs ys

driven-complete_workers : (i n : ℕ) → driven (map complete_current_task (range_from i n)) ≡ []
driven-complete_workers i zero = refl
driven-complete_workers i (suc n) = driven-complete_workers (i + 1) n

All-filterb {ℓ κ} :
    {A : Type ℓ} (P : A → Type κ) (p : A → Bool) (xs : List A) → All P xs → All P (filterb p xs)
All-filterb P p [] h = tt
All-filterb P p (x ∷ xs) h = elim (Bool-cases (p x)) [
  | inl kept ↦ rw kept (h.0, All-filterb P p xs h.1)
  | inr lost ↦ rw lost (All-filterb P p xs h.1)
]

-- A result that changes nothing but the memory of the message, and starts no task.
abbrev pub Waits : Coordinator → Step → Type 0
Waits c r =
    (sent : Bool) × (effects : List Effect) × (r
      ≡ ok (record c { complete_current_task_sent = sent }, effects))
    × (driven effects ≡ [])

Waits-complete_first :
    (js : List JoinPoint) (c : Coordinator) → All (IsServed c) js → Waits c (complete_first js c)
Waits-complete_first [] c known = (c.complete_current_task_sent, [], refl, refl)
Waits-complete_first (j ∷ others) c known = elim (complete_first_lem j c others known.0) [
  | inl (_, e) ↦ (true, _, e, driven-complete_workers 0 c.workers)
  | inr (_, e) ↦ (c.complete_current_task_sent, [], e, refl)
]

abbrev pub counted : Arrival → Coordinator → Coordinator
counted a c = record c {
  currently_completed = c.currently_completed + 1;
  workers_completed_current_step = note a c.workers_completed_current_step;
}

Waits-reach :
    (o : Options) (a : Arrival) (c : Coordinator)
    → c.currently_completed + 1 < c.workers
    → AreServed c a
    → Waits (counted a c) (reach o a c)
unfolding joinpoint_reached may_complete_current_task
Waits-reach o a c early known =
    let apart : (c.currently_completed + 1 == c.workers) ≡ false = ground arith in
    let (sent, effects, e, quiet) =
      Waits-complete_first (filterb preceding_task_completes_parent a.task_allocations)
        (counted a c)
        (All-filterb (IsServed c) preceding_task_completes_parent a.task_allocations known) in
    let paused = if o.redline_test then disable_feedback_scaling ∷ [] else [] in
    let quiet_before : driven paused ≡ [] = ground arith in
    (
      sent,
      paused ++ effects,
      rw (apart, e) refl,
      rw (driven-append paused effects, quiet_before, quiet) refl,
    )

-- The messages are counted and noted, and no task starts.
abbrev pub Held : Options → List Arrival → Coordinator → Type 0
Held o arrivals c =
    (sent : Bool) × (effects : List Effect) × (reach_each o arrivals c
      ≡ ok (
        record c {
          currently_completed = c.currently_completed + length arrivals;
          workers_completed_current_step = notes arrivals c.workers_completed_current_step;
          complete_current_task_sent = sent;
        },
        effects,
      ))
    × (driven effects ≡ [])

-- As long as fewer messages than there are workers have come, in any order, and the clients at their
-- join points are assigned to workers, no message fails, no worker is told to start a task, and of
-- the coordinator's state only three things change: the number of messages, what is known of the
-- workers that sent them, and whether the clients were told to complete their tasks.
pub Held-reach_each :
    (o : Options) (arrivals : List Arrival) (c : Coordinator)
    → c.currently_completed + length arrivals < c.workers
    → All (AreServed c) arrivals
    → Held o arrivals c
unfolding reach_each
Held-reach_each o [] c early known =
    let all_counted : c.currently_completed + 0 ≡ c.currently_completed = omega arith in
    (c.complete_current_task_sent, [], rw all_counted refl, refl)
Held-reach_each o (a ∷ arrivals) c early known =
    let (sent, effects, e, quiet) = Waits-reach o a c (omega (arith, early)) known.0 in
    let next = record (counted a c) { complete_current_task_sent = sent } in
    let (sent', more, e', quiet') =
      Held-reach_each o arrivals next (omega (arith, early)) known.1 in
    let one_more : c.currently_completed + 1 + length arrivals
        ≡ c.currently_completed + suc (length arrivals) =
      omega arith in
    (
      sent',
      effects ++ more,
      rw (e, e', one_more) refl,
      rw (driven-append effects more, quiet, quiet') refl,
    )

module _ (start_next_task : ℕ) (time : ℕ → Reached) where
  abbrev pub start_of : ℕ → ℕ × ℕ
  start_of w =
      (w, (time w).worker_ended_task_at + start_next_task - (time w).master_received_msg_at)

  pub drive_workers-eq-ok :
      (reached : Dict ℕ Reached) (i n : ℕ)
      → All (λ w. get w reached ≡ some (time w)) (range_from i n)
      → (effects : List Effect) × (drive_workers start_next_task reached i n ≡ ok effects)
        × (driven effects ≡ map start_of (range_from i n))
  unfolding drive_workers
  drive_workers-eq-ok reached i zero all_there = ([], refl, refl)
  drive_workers-eq-ok reached i (suc n) all_there =
      let (effects, e, starts) = drive_workers-eq-ok reached (i + 1) n all_there.1 in
      let shown : drive_workers start_next_task reached i (suc n)
          ≡ drive_worker start_next_task i (some (time i)) (ok effects) =
        rw (all_there.0, e) refl in
      (_, shown, rw starts refl)
