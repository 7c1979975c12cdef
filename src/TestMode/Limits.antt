-- ===== src/TestMode/Limits.antt =====
-- What test mode leaves of the tasks of a schedule.
use solr_benchmark.Prelude.{
  ℕ, min, ◌≤◌, ◌≡◌, refl, false, Option, none, some, List, [], ◌∷◌, ltb, Bool-cases, inl, inr,
  arith,
}
use solr_benchmark.Workload.{Task, Element, single, parallel, clients_of}
use solr_benchmark.TestMode.{reset_above, reduce_task, reduce_tasks, reduce_schedule}

abbrev pub IsAtMost : ℕ → Option ℕ → Type 0
IsAtMost limit none = Unit
IsAtMost limit (some n) = n ≤ limit

-- A short task, with at most one iteration for each client.
pub record IsShort (t : Task) : Type 0 where
  pub few_warmups : IsAtMost t.clients t.warmup_iterations
  pub few_iterations : IsAtMost t.clients t.iterations
  pub no_warmup_time : IsAtMost 0 t.warmup_time_period
  pub little_time : IsAtMost 10 t.time_period

IsAtMost-reset_above : (limit : ℕ) (n : Option ℕ) → IsAtMost limit (reset_above limit limit n)
IsAtMost-reset_above limit none = tt
IsAtMost-reset_above limit (some n) = elim (Bool-cases (ltb limit n)) [
  | inl above ↦ rw above (omega arith)
  | inr within ↦ rw within (ground (arith, within))
]

reset_above-small : (limit : ℕ) (n : Option ℕ) → IsAtMost limit n → reset_above limit limit n ≡ n
reset_above-small limit none small = refl
reset_above-small limit (some n) small =
    let within : ltb limit n ≡ false = ground (arith, small) in rw within refl

IsShort-reduce_task : (t : Task) → IsShort (reduce_task t)
unfolding reduce_task
IsShort-reduce_task t = record {
  few_warmups = IsAtMost-reset_above t.clients t.warmup_iterations;
  few_iterations = IsAtMost-reset_above t.clients t.iterations;
  no_warmup_time = IsAtMost-reset_above 0 t.warmup_time_period;
  little_time = IsAtMost-reset_above 10 t.time_period;
}

reduce_task-short : (t : Task) → IsShort t → reduce_task t ≡ t
unfolding reduce_task
reduce_task-short t short =
    rw
      (
        reset_above-small t.clients t.warmup_iterations short.few_warmups,
        reset_above-small t.clients t.iterations short.few_iterations,
        reset_above-small 0 t.warmup_time_period short.no_warmup_time,
        reset_above-small 10 t.time_period short.little_time,
      )
      refl

-- A number that is cut off at a limit.
abbrev pub cut : ℕ → Option ℕ → Option ℕ
cut limit none = none
cut limit (some n) = some (min n limit)

-- A task as it was but for its iterations, cut off at its number of clients, its warm-up time, which is
-- none if there was one, and its time, cut off at ten seconds.
abbrev pub IsReducedTask : Task → Task → Type 0
IsReducedTask t r =
    IsShort r
    × (r ≡ record t {
      warmup_iterations = cut t.clients t.warmup_iterations;
      iterations = cut t.clients t.iterations;
      warmup_time_period = cut 0 t.warmup_time_period;
      time_period = cut 10 t.time_period;
    })

abbrev pub AreReducedTasks : List Task → List Task → Type 0
AreReducedTasks [] [] = Unit
AreReducedTasks (t ∷ ts) (r ∷ rs) = IsReducedTask t r × AreReducedTasks ts rs
AreReducedTasks _ _ = ⊥

-- An element of the same kind, with the same tasks but for what is cut off.
abbrev pub IsReduced : Element → Element → Type 0
IsReduced (single t) (single r) = IsReducedTask t r
IsReduced (parallel ts clients) (parallel rs reduced_clients) =
    AreReducedTasks ts rs × (reduced_clients ≡ clients)
IsReduced _ _ = ⊥

abbrev pub AreReduced : List Element → List Element → Type 0
AreReduced [] [] = Unit
AreReduced (e ∷ schedule) (r ∷ reduced) =
    IsReduced e r × ((clients_of r ≡ clients_of e) × AreReduced schedule reduced)
AreReduced _ _ = ⊥

reduce_tasks-reduce_tasks : (ts : List Task) → reduce_tasks (reduce_tasks ts) ≡ reduce_tasks ts
unfolding reduce_tasks
reduce_tasks-reduce_tasks [] = refl
reduce_tasks-reduce_tasks (t ∷ ts) =
    rw (reduce_task-short (reduce_task t) (IsShort-reduce_task t), reduce_tasks-reduce_tasks ts)
      refl

-- Preparing a schedule for test mode once more changes nothing.
pub reduce_schedule-reduce_schedule :
    (schedule : List Element)
    → reduce_schedule (reduce_schedule schedule) ≡ reduce_schedule schedule
unfolding reduce_schedule
reduce_schedule-reduce_schedule [] = refl
reduce_schedule-reduce_schedule (single t ∷ schedule) =
    rw
      (
        reduce_task-short (reduce_task t) (IsShort-reduce_task t),
        reduce_schedule-reduce_schedule schedule,
      )
      refl
reduce_schedule-reduce_schedule (parallel ts clients ∷ schedule) =
    rw (reduce_tasks-reduce_tasks ts, reduce_schedule-reduce_schedule schedule) refl
