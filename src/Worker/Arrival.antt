-- ===== src/Worker/Arrival.antt =====
-- A worker whose tasks end well reaches its next join point.
use solr_benchmark.Prelude.{
  ℕ, zero, suc, ◌+◌, ◌<◌, ◌≡◌, refl, ap, ◌∙◌, Bool, true, false, none, List, [], ◌∷◌, ◌++◌,
  append_assoc, arith, length, length-append,
}
use solr_benchmark.Result.{ok, raise, ◌>>=◌}
use solr_benchmark.Coordinator.{Sample}
use solr_benchmark.Worker.{
  ClientAllocation, tasks, WorkerEffect, submit, send_join_point_reached, send_update_samples,
  wakeup_after, Worker, Handled, columns, drive_with, drive, send_samples, receive_wakeup,
}
use solr_benchmark.Worker.Columns.{Ahead, AreJoins, Ahead-lt-columns, at_index, skip-empty}
use solr_benchmark.Worker.Trip.{
  wake, go, submitted, reached, sent_samples, busy, HaveTasks, free, Arrives, go-join, released,
  running, go-tasks,
}

-- Effects sent before those of the rest of a run.
abbrev after : List WorkerEffect → Worker × List WorkerEffect → Handled
after before (last, effects) = ok (last, before ++ effects)

abbrev then_rest : (Worker → Handled) → Worker × List WorkerEffect → Handled
then_rest rest (next, first) = rest next >>= after first

prefix_last :
    (q : Handled) (before first : List WorkerEffect) {last : Worker} {effects : List WorkerEffect}
    → q >>= after first ≡ ok (last, effects)
    → q >>= after (before ++ first) ≡ ok (last, before ++ effects)
prefix_last (raise failure) before first e = cc
prefix_last (ok (l, more)) before first e =
    rw (append_assoc before first more) (ap (λ r. r >>= after before) e)

prefix_effects :
    (r : Handled) (rest : Worker → Handled) (before : List WorkerEffect) {last : Worker}
    {effects : List WorkerEffect}
    → r >>= then_rest rest ≡ ok (last, effects)
    → (r >>= after before) >>= then_rest rest ≡ ok (last, before ++ effects)
prefix_effects (raise failure) rest before e = cc
prefix_effects (ok (next, first)) rest before e = prefix_last (rest next) before first e

abbrev sending : List Sample → List WorkerEffect
sending [] = []
sending (s ∷ samples) = send_update_samples (s ∷ samples) [] ∷ []

wake-running :
    (samples : List Sample) (more : List (List Sample)) (w : Worker) {last : Worker}
    {effects : List WorkerEffect}
    → go (columns w.client_allocations + 1) more (released w) ≡ ok (last, effects)
    → wake (samples ∷ more) (running w) ≡ ok (last, sending samples ++ effects)
unfolding wake receive_wakeup send_samples drive
wake-running [] more w e =
    prefix_effects (drive_with (columns w.client_allocations + 1) none (released w)) (wake more) []
      e
wake-running (s ∷ samples) more w e =
    prefix_effects (drive_with (columns w.client_allocations + 1) none (released w)) (wake more)
      (sending (s ∷ samples)) e

sent_samples-sending :
    (samples : List Sample) (effects : List WorkerEffect)
    → sent_samples (sending samples ++ effects) ≡ samples ++ sent_samples effects
sent_samples-sending [] effects = refl
sent_samples-sending (s ∷ samples) effects = refl

submitted-sending :
    (samples : List Sample) (effects : List WorkerEffect)
    → submitted (sending samples ++ effects) ≡ submitted effects
submitted-sending [] effects = refl
submitted-sending (s ∷ samples) effects = refl

reached-sending :
    (samples : List Sample) (effects : List WorkerEffect)
    → reached (sending samples ++ effects) ≡ reached effects
reached-sending [] effects = refl
reached-sending (s ∷ samples) effects = refl

wake-none : (w : Worker) → wake [] w ≡ ok (w, [])
unfolding wake
wake-none w = refl

go-empty :
    (fuel : ℕ) (samples : List (List Sample)) (b : Bool) (w : Worker)
    → tasks w.client_allocations w.next_task_index true ≡ ok []
    → go (suc fuel) samples (free b w) ≡ go fuel samples (free b (at_index w w.next_task_index))
unfolding drive_with
go-empty fuel samples b w e = rw (skip-empty fuel (free b w) e) refl

Arrives-go :
    (before : List (List ClientAllocation)) (join_column : List ClientAllocation)
    (samples : List (List Sample)) (fuel : ℕ) (b : Bool) (w : Worker)
    → 0 < length w.client_allocations
    → length before < fuel
    → length samples ≡ length (busy before)
    → HaveTasks before
    → 0 < length join_column
    → AreJoins join_column
    → Ahead w.client_allocations w.next_task_index (before ++ join_column ∷ [])
    → Arrives w before join_column samples (go fuel samples (free b w))
Arrives-go before join_column samples zero b w e enough fits tasked full joins ahead =
    absurd (omega (arith, enough))
Arrives-go [] [] samples (suc fuel) b w e enough fits tasked full joins ahead =
    absurd (omega (arith, full))
Arrives-go [] (t ∷ column) (s ∷ samples) (suc fuel) b w e enough fits tasked full joins ahead =
    cc fits
Arrives-go [] (t ∷ column) [] (suc fuel) b w e enough fits tasked full joins ahead = (
  at_index w w.next_task_index,
  send_join_point_reached (t ∷ column) ∷ [],
  rw
      (
        go-join fuel b w t column ahead.0 joins,
        wake-none (free false (at_index w w.next_task_index)),
      )
      refl,
  refl,
  refl,
  refl,
  omega arith,
  refl,
  refl,
)
Arrives-go ([] ∷ before) join_column samples (suc fuel) b w e enough fits tasked full joins ahead =
    let (last, effects, run, s, j, sent, i, n, c) =
      Arrives-go before join_column samples fuel b (at_index w w.next_task_index) e
        (omega (arith, enough)) fits tasked.1 full joins ahead.1 in
    (last, effects, go-empty fuel samples b w ahead.0 ∙ run, s, j, sent, omega (arith, i), n, c)
Arrives-go ((t ∷ column) ∷ before) join_column [] (suc fuel) b w e enough fits tasked full joins
      ahead =
    cc fits
Arrives-go ((t ∷ column) ∷ before) join_column (s ∷ samples) (suc fuel) b w e enough fits tasked
      full joins ahead =
    let long =
      Ahead-lt-columns w.client_allocations w.next_task_index (t ∷ column)
        (before ++ join_column ∷ []) e ahead in
    let (last, effects, run, sub, j, sent, i, n, c) =
      Arrives-go before join_column samples (columns w.client_allocations + 1) true
        (record (at_index w w.next_task_index) { profile_sampler = [] }) e
        (omega (arith, long, length-append before (join_column ∷ []))) (omega (arith, fits))
        tasked.1 full joins ahead.1 in
    (
      last,
      submit (t ∷ column) ∷ wakeup_after w.wakeup_interval ∷ (sending s ++ effects),
      rw (go-tasks fuel b w t column ahead.0 tasked.0, wake-running s samples w run) refl,
      ap (λ l. (t ∷ column) ∷ l) (submitted-sending s effects ∙ sub),
      reached-sending s effects ∙ j,
      sent_samples-sending s effects ∙ ap (λ l. s ++ l) sent,
      omega (arith, i),
      n,
      c,
    )

-- Drive once, and wake up each time that the executor ends.
abbrev pub trip : List (List Sample) → Worker → Handled
trip samples w = drive none w >>= then_rest (wake samples)

-- Let a free worker have clients, and ahead of it columns that have tasks or are empty and then a
-- column of join points. If the tasks of each column that has some end without an exception, and the
-- worker wakes up then, it submits the tasks of exactly these columns, in order, sends exactly the
-- samples that they leave, in order, tells the coordinator once that it reached the join points, and
-- waits there, free again, at the column of the join points.
pub Arrives-trip :
    (before : List (List ClientAllocation)) (join_column : List ClientAllocation)
    (samples : List (List Sample)) (b : Bool) (w : Worker)
    → 0 < length w.client_allocations
    → length samples ≡ length (busy before)
    → HaveTasks before
    → 0 < length join_column
    → AreJoins join_column
    → Ahead w.client_allocations w.next_task_index (before ++ join_column ∷ [])
    → Arrives w before join_column samples (trip samples (free b w))
unfolding drive
Arrives-trip [] [] samples b w e fits tasked full joins ahead = absurd (omega (arith, full))
Arrives-trip [] (t ∷ column) samples b w e fits tasked full joins ahead =
    let long = Ahead-lt-columns w.client_allocations w.next_task_index (t ∷ column) [] e ahead in
    Arrives-go [] (t ∷ column) samples (columns w.client_allocations + 1) b w e (omega arith) fits
      tasked full joins ahead
Arrives-trip (first ∷ before) join_column samples b w e fits tasked full joins ahead =
    let long =
      Ahead-lt-columns w.client_allocations w.next_task_index first (before ++ join_column ∷ []) e
        ahead in
    Arrives-go (first ∷ before) join_column samples (columns w.client_allocations + 1) b w e
      (omega (arith, long, length-append before (join_column ∷ []))) fits tasked full joins ahead
