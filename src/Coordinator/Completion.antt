-- ===== src/Coordinator/Completion.antt =====
-- When `may_complete_current_task` asks the workers to complete their current tasks.
use solr_benchmark.Prelude.{
  ℕ, zero, suc, ◌+◌, map, range_from, ◌≡◌, refl, ap, ◌∙◌, is_some, ◌⊎◌, inl, inr, true, false, some,
  List, [], ◌∷◌, arith, Bool-cases, Option-cases, filterb, All,
}
use solr_benchmark.Prelude.Dict.{get, has, nat_key}
use solr_benchmark.Result.{ok, bind-eq-ok}
use solr_benchmark.Allocator.{JoinPoint, preceding_task_completes_parent}
use solr_benchmark.Coordinator.{Coordinator, Step, Effect, complete_current_task}
use solr_benchmark.Coordinator.Steps.{
  note_client, pending_client_ids, complete_workers, complete_first, may_complete_current_task,
}

-- The worker of the client has reached the join point of the current step.
abbrev pub IsDone : Coordinator → ℕ → Type 0
IsDone c client_id =
    (worker_id : ℕ) × (get client_id c.clients_per_worker ≡ some worker_id)
    × (has worker_id c.workers_completed_current_step ≡ true)

abbrev pub IsKnown : Coordinator → ℕ → Type 0
IsKnown c client_id = has client_id c.clients_per_worker ≡ true

pub pending-eq-ok :
    (clients : List ℕ) (c : Coordinator)
    → All (IsKnown c) clients
    → (pending : List ℕ) × (pending_client_ids clients c ≡ ok pending)
unfolding pending_client_ids
pending-eq-ok [] c known = ([], refl)
pending-eq-ok (client_id ∷ clients) c known =
    elim (Option-cases (get client_id c.clients_per_worker)) [
      | inl missing ↦ cc (known.0, ap is_some missing)
      | inr (worker_id, found) ↦
          let (pending, e) = pending-eq-ok clients c known.1 in
          let shown : pending_client_ids (client_id ∷ clients) c
              ≡ note_client c client_id (some worker_id) (ok pending) =
            rw (found, e) refl in
          (_, shown)
    ]

All-IsDone_of_pending :
    (clients : List ℕ) (c : Coordinator)
    → pending_client_ids clients c ≡ ok []
    → All (IsDone c) clients
unfolding pending_client_ids
All-IsDone_of_pending [] c e = tt
All-IsDone_of_pending (client_id ∷ clients) c e =
    elim (Option-cases (get client_id c.clients_per_worker)) [
      | inl missing ↦ cc (rw missing at e)
      | inr (worker_id, found) ↦
          let noted : note_client c client_id (some worker_id) (pending_client_ids clients c)
              ≡ ok [] =
            rw found at e in
          let (pending, others, this) = bind-eq-ok (pending_client_ids clients c) _ noted in
          elim (Bool-cases (has worker_id c.workers_completed_current_step)) [
            | inl reached ↦
                let none_left : pending ≡ [] = ground (arith, reached) in
                (
                  (worker_id, found, reached),
                  All-IsDone_of_pending clients c (others ∙ ap ok none_left),
                )
            | inr waits ↦ cc (rw waits at this)
          ]
    ]

pending_of_All-IsDone :
    (clients : List ℕ) (c : Coordinator)
    → All (IsDone c) clients
    → pending_client_ids clients c ≡ ok []
unfolding pending_client_ids
pending_of_All-IsDone [] c done = refl
pending_of_All-IsDone (client_id ∷ clients) c ((worker_id, found, reached), others) =
    rw (found, pending_of_All-IsDone clients c others) (rw reached refl)

pub complete_workers-eq-map :
    (worker_id n : ℕ)
    → complete_workers worker_id n ≡ map complete_current_task (range_from worker_id n)
unfolding complete_workers
complete_workers-eq-map worker_id zero = refl
complete_workers-eq-map worker_id (suc n) =
    ap (λ l. complete_current_task worker_id ∷ l) (complete_workers-eq-map (worker_id + 1) n)

module _ (j : JoinPoint) (c : Coordinator) where
  -- No message of this kind was sent in the step, and all clients of the completing task are done.
  abbrev pub IsDue : Type 0
  IsDue =
      (c.complete_current_task_sent ≡ false) × All (IsDone c) j.clients_executing_completing_task

  -- One message to each worker, in the order of their numbers.
  abbrev pub told : List Effect
  told = map complete_current_task (range_from 0 c.workers)

  abbrev pub Notified : Step → Type 0
  Notified r = IsDue × (r ≡ ok (record c { complete_current_task_sent = true }, told))

  abbrev pub Silent : Step → Type 0
  Silent r = ¬ IsDue × (r ≡ ok (c, []))

  -- Of a fresh step, by the clients that are pending.
  complete_first_of_pending :
      (others : List JoinPoint) (pending : List ℕ)
      → c.complete_current_task_sent ≡ false
      → pending_client_ids j.clients_executing_completing_task c ≡ ok pending
      → Notified (complete_first (j ∷ others) c) ⊎ Silent (complete_first (j ∷ others) c)
  complete_first_of_pending others [] fresh e =
      let marked = record c { complete_current_task_sent = true } in
      let notified : complete_first (j ∷ others) c ≡ ok (marked, complete_workers 0 c.workers) =
        simp (fresh, e) in
      inl (
        (fresh, All-IsDone_of_pending j.clients_executing_completing_task c e),
        notified ∙ ap (λ effects. ok (marked, effects)) (complete_workers-eq-map 0 c.workers),
      )
  complete_first_of_pending others (client_id ∷ pending) fresh e = inr (
    λ due. cc (e, pending_of_All-IsDone j.clients_executing_completing_task c due.1),
    simp (fresh, e),
  )

  pub complete_first_lem :
      (others : List JoinPoint)
      → All (IsKnown c) j.clients_executing_completing_task
      → Notified (complete_first (j ∷ others) c) ⊎ Silent (complete_first (j ∷ others) c)
  complete_first_lem others known = elim (Bool-cases c.complete_current_task_sent) [
    | inl sent ↦ inr (λ due. cc (sent, due.0), rw sent refl)
    | inr fresh ↦
        let (pending, e) = pending-eq-ok j.clients_executing_completing_task c known in
        complete_first_of_pending others pending fresh e
  ]

-- With `j` the first join point behind a task that completes its parent, and its clients all
-- assigned to workers: if the message was not yet sent in this step and every client that executes
-- the completing task is on a worker that reached the join point, then each worker is told once to
-- complete its current task and this is remembered; otherwise nothing is sent and nothing changes.
pub may_complete_current_task_lem :
    (j : JoinPoint) (others task_allocations : List JoinPoint) (c : Coordinator)
    → filterb preceding_task_completes_parent task_allocations ≡ j ∷ others
    → All (IsKnown c) j.clients_executing_completing_task
    → Notified j c (may_complete_current_task task_allocations c)
      ⊎ Silent j c (may_complete_current_task task_allocations c)
unfolding may_complete_current_task
may_complete_current_task_lem j others task_allocations c first known =
    rw first (complete_first_lem j c others known)
