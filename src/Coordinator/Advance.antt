-- ===== src/Coordinator/Advance.antt =====
-- What the message of the last worker does: the step is left, and the next one starts on all workers.
use solr_benchmark.Prelude.{
  ℕ, zero, suc, ◌+◌, ◌-◌, ◌<◌, ◌≡◌, refl, sym, ap, ◌∙◌, inl, inr, String, true, false, not, ◌&&◌,
  some, List, [], ◌∷◌, ◌++◌, map, append-nil, append_assoc, arith, Bool-cases, if◌then◌else◌, All,
  length, ltb, ◌==◌, get_elem?, range_from,
}
use solr_benchmark.Prelude.Dict.{Dict, get, nat_key}
use solr_benchmark.Result.{Result, ok, bind-eq-ok}
use solr_benchmark.Coordinator.{
  Progress, Reached, Effect, on_task_finished, process_samples, disable_feedback_scaling,
  enable_feedback_scaling, process_profile_samples, on_benchmark_stop, on_benchmark_complete,
  print_progress, finish_progress, Options, Coordinator, Step, finished, progress_of, one_unit,
  or_none_reported, message_for, update_progress_message, post_process_samples,
}
use solr_benchmark.Coordinator.Steps.{move_to_next_task, joinpoint_reached, all_workers_reached}
use solr_benchmark.Coordinator.Round.{
  Arrival, reach, reach_each, driven, driven-append, note, notes, AreServed, IsDisplayable,
  start_of, drive_workers-eq-ok, Held-reach_each, counted,
}

get_elem?-eq-some {ℓ} :
    {A : Type ℓ} (xs : List A) (i : ℕ) → i < length xs → (x : A) × (get_elem? xs i ≡ some x)
get_elem?-eq-some [] i h = absurd (omega (arith, h))
get_elem?-eq-some (x ∷ xs) zero h = (x, refl)
get_elem?-eq-some (x ∷ xs) (suc i) h = get_elem?-eq-some xs i (omega (arith, h))

-- The steps that produce effects and start no task.
abbrev pub StartsNone : Result (List Effect) → Type 0
StartsNone r = (effects : List Effect) × (r ≡ ok effects) × (driven effects ≡ [])

StartsNone-message_for :
    (progress : List Progress) (tasks : List String)
    → one_unit progress ≡ true
    → StartsNone (message_for true progress (some tasks))
StartsNone-message_for progress tasks same = (_, shown, refl)
  where
    shown :
        message_for true progress (some tasks)
        ≡ ok (print_progress tasks progress true ∷ finish_progress ∷ [])
    shown = rw same refl

StartsNone-update_progress_message :
    (o : Options) (c : Coordinator)
    → IsDisplayable c
    → StartsNone (update_progress_message o true c)
unfolding update_progress_message
StartsNone-update_progress_message o c (known, same) =
    elim (Bool-cases (not o.quiet && ltb 0 c.join_points_passed)) [
      | inr silent ↦ ([], rw silent refl, refl)
      | inl shown ↦
          let inside : c.join_points_passed - 1 < length c.tasks_per_join_point =
            ground (arith, known) in
          let (tasks, found) =
            get_elem?-eq-some c.tasks_per_join_point (c.join_points_passed - 1) inside in
          let (effects, e, quiet) =
            StartsNone-message_for (or_none_reported (progress_of c.most_recent_sample_per_client))
              tasks same in
          (effects, rw (shown, found) e, quiet)
    ]

-- The coordinator in the next step.
abbrev pub advanced : Coordinator → Coordinator
advanced c = record c {
  currently_completed = 0;
  complete_current_task_sent = false;
  workers_completed_current_step = [];
  most_recent_sample_per_client = [];
  join_points_passed = c.join_points_passed + 1;
  raw_samples = [];
  raw_profile_samples = [];
}

abbrev pub waiting_period : Options → ℕ
waiting_period o = if o.test_mode_enabled then 0 else o.second

-- The step is left. The benchmark is complete and no task starts, or each worker is told once to
-- start, `waiting_period` after the coordinator's clock reads `now`, by the worker's own clock.
abbrev pub Advances : Options → ℕ → (ℕ → Reached) → Coordinator → Step → Type 0
Advances o now time c r =
    (effects : List Effect) × (r
      ≡ ok (
        record (advanced c) {
          metrics_store_open = if finished (advanced c) then false else c.metrics_store_open;
        },
        effects,
      ))
    × (driven effects ≡ (
        if finished (advanced c)
        then []
        else map (start_of (now + waiting_period o) time) (range_from 0 c.workers)))

Advances-all_workers_reached :
    (o : Options) (now : ℕ) (time : ℕ → Reached) (c : Coordinator)
    → IsDisplayable c
    → All (λ w. get w c.workers_completed_current_step ≡ some (time w)) (range_from 0 c.workers)
    → Advances o now time c (all_workers_reached o now c)
unfolding all_workers_reached move_to_next_task post_process_samples
Advances-all_workers_reached o now time c shown all_there =
    let cleared = record c {
      currently_completed = 0;
      complete_current_task_sent = false;
      workers_completed_current_step = [];
    } in
    let (progress, e, quiet) = StartsNone-update_progress_message o cleared shown in
    let profiles =
      if ltb 0 (length c.raw_profile_samples)
      then process_profile_samples c.raw_profile_samples ∷ []
      else [] in
    let quiet_profiles : driven profiles ≡ [] = ground arith in
    let enabled = if o.redline_test then enable_feedback_scaling ∷ [] else [] in
    let quiet_enabled : driven enabled ≡ [] = ground arith in
    let (starts, driving, at) =
      drive_workers-eq-ok (now + waiting_period o) time c.workers_completed_current_step 0 c.workers
        all_there in
    elim (Bool-cases (finished (advanced c))) [
      | inl over ↦ (
        progress
            ++ (process_samples c.raw_samples ∷ profiles)
            ++ on_benchmark_stop ∷ on_benchmark_complete ∷ [],
        rw (e, over) refl,
        rw over (simp (driven-append, quiet, quiet_profiles)),
      )
      | inr more ↦ (
        progress
            ++ (process_samples c.raw_samples ∷ profiles)
            ++ on_task_finished (waiting_period o) ∷ starts
            ++ enabled,
        rw (e, more, driving) refl,
        rw more (simp (driven-append, quiet, quiet_profiles, at, quiet_enabled, append-nil)),
      )
    ]

Advances-reach :
    (o : Options) (a : Arrival) (time : ℕ → Reached) (c : Coordinator)
    → c.currently_completed + 1 ≡ c.workers
    → IsDisplayable c
    → All
        (λ w. get w (note a c.workers_completed_current_step) ≡ some (time w))
        (range_from 0 c.workers)
    → Advances o a.now time c (reach o a c)
unfolding joinpoint_reached
Advances-reach o a time c last shown all_there =
    let complete : (c.currently_completed + 1 == c.workers) ≡ true = ground (arith, last) in
    let paused = if o.redline_test then disable_feedback_scaling ∷ [] else [] in
    let quiet : driven paused ≡ [] = ground arith in
    let (effects, e, starts) =
      Advances-all_workers_reached o a.now time (counted a c) shown all_there in
    (paused ++ effects, rw (complete, e) refl, rw (driven-append paused effects, quiet) starts)

notes-snoc :
    (arrivals : List Arrival) (a : Arrival) (reached : Dict ℕ Reached)
    → notes (arrivals ++ a ∷ []) reached ≡ note a (notes arrivals reached)
notes-snoc [] a reached = refl
notes-snoc (b ∷ arrivals) a reached = notes-snoc arrivals a (note b reached)

reach_each-snoc :
    (o : Options) (arrivals : List Arrival) (a : Arrival) (c : Coordinator)
    {waiting after : Coordinator} {before effects : List Effect}
    → reach_each o arrivals c ≡ ok (waiting, before)
    → reach o a waiting ≡ ok (after, effects)
    → reach_each o (arrivals ++ a ∷ []) c ≡ ok (after, before ++ effects)
unfolding reach_each
reach_each-snoc o [] a c {waiting} {after} {before} {effects} e e' =
    let nothing : before ≡ [] = cc e in
    let here : reach o a c ≡ ok (after, effects) = cc (e, e') in
    rw (here, append-nil effects, nothing) refl
reach_each-snoc o (b ∷ arrivals) a c {waiting} {after} {before} {effects} e e' =
    let ((next, first), e1, rest) = bind-eq-ok (reach o b c) _ e in
    let ((last, more), e2, done) = bind-eq-ok (reach_each o arrivals next) _ rest in
    let same : last ≡ waiting = cc done in
    let all : first ++ more ≡ before = cc done in
    let shown = reach_each-snoc o arrivals a next (e2 ∙ ap (λ s. ok (s, more)) same) e' in
    rw (e1, shown, ← all) (ap (λ l. ok (after, l)) (sym (append_assoc first more effects)))

-- Let the messages of all workers but one be handled, in any order, and then that one's; the message
-- of worker `w` says `time w`. Assume that the clients at the join points are assigned to
-- workers, that the tasks of the step are known and that the clients report in one unit. Then no
-- message fails, the step is left once, for the next one, with its counters, memories and samples
-- cleared, and either the benchmark is complete, its metrics store closed and no task started, or
-- each worker is told exactly once to start, at a time that by the coordinator's clock is the same
-- for all workers: the waiting period after the last message.
pub Advances-reach_each :
    (o : Options) (arrivals : List Arrival) (last : Arrival) (time : ℕ → Reached) (c : Coordinator)
    → c.currently_completed + length arrivals + 1 ≡ c.workers
    → All (AreServed c) arrivals
    → IsDisplayable c
    → All
        (λ w.
          get w (notes (arrivals ++ last ∷ []) c.workers_completed_current_step) ≡ some (time w))
        (range_from 0 c.workers)
    → Advances o last.now time c (reach_each o (arrivals ++ last ∷ []) c)
Advances-reach_each o arrivals last time c complete served shown all_there =
    let (sent, before, e, quiet) = Held-reach_each o arrivals c (omega (arith, complete)) served in
    let waiting = record c {
      currently_completed = c.currently_completed + length arrivals;
      workers_completed_current_step = notes arrivals c.workers_completed_current_step;
      complete_current_task_sent = sent;
    } in
    let (after, e', starts) =
      Advances-reach o last time waiting complete shown (rw notes-snoc at all_there) in
    (
      before ++ after,
      reach_each-snoc o arrivals last c e e',
      rw (driven-append before after, quiet) starts,
    )
