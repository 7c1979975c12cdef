-- ===== src/Feedback/Handling.antt =====
-- What the feedback actor does at a wakeup.
use solr_benchmark.Prelude.{
  ℕ, ◌-◌, ◌≤◌, ◌<◌, ◌≡◌, refl, String, ◌&&◌, List, [], ◌∷◌, leb, Bool-cases, inl, inr, arith,
}
use solr_benchmark.Result.{ok}
use solr_benchmark.Feedback.{
  FeedbackState, neutral, scaling_down, sleep, scaling_up, disabled, Feedback, Chance, by_state,
  by_errors, react, is_set, handle_state,
}
use solr_benchmark.Feedback.Counting.{IsCounted}
use solr_benchmark.Feedback.Scaling.{IsFair, HasPaused-scale_down}
use solr_benchmark.Feedback.Growing.{IsCounted-scale_up}

-- The number of active clients stays that of the dictionary, and it only grows when the actor is
-- scaling up and there were no errors.
abbrev pub IsSteady : Feedback → List String → Feedback → Type 0
IsSteady f errors g =
    IsCounted g
    × (f.total_active_client_count < g.total_active_client_count
        → (f.state ≡ scaling_up) × (errors ≡ []))

IsSteady-same :
    (f g : Feedback) (errors : List String)
    → IsCounted g
    → g.total_active_client_count ≤ f.total_active_client_count
    → IsSteady f errors g
IsSteady-same f g errors counted less = (counted, λ more. absurd (omega (arith, more, less)))

module _ (chance : Chance) (now later : ℕ) (f : Feedback) (counted : IsCounted f)
    (fair : IsFair chance f.shared_client_states) where
  IsSteady-by_state :
      (s : FeedbackState) → f.state ≡ s → IsSteady f [] (by_state chance now later f s)
  IsSteady-by_state neutral e =
      elim (Bool-cases (
        leb f.post_scaledown_seconds (now - f.last_error_time)
        && leb f.wakeup_interval (now - f.last_scaleup_time))) [
          | inl due ↦ rw due (IsSteady-same f f [] counted (omega arith))
          | inr waits ↦ rw waits (IsSteady-same f f [] counted (omega arith))
        ]
  IsSteady-by_state scaling_up e =
      (IsCounted-scale_up chance later f counted fair, λ more. (e, refl))
  IsSteady-by_state scaling_down e = IsSteady-same f f [] counted (omega arith)
  IsSteady-by_state sleep e = IsSteady-same f f [] counted (omega arith)
  IsSteady-by_state disabled e = IsSteady-same f f [] counted (omega arith)

  IsSteady-by_errors :
      (errors : List String) → IsSteady f errors (by_errors chance now later f errors)
  IsSteady-by_errors [] = IsSteady-by_state f.state refl
  IsSteady-by_errors (error ∷ errors) =
      let (down, fewer, ceiling, queue, asleep_now) =
        HasPaused-scale_down chance later (record f { state = scaling_down }) counted fair in
      (down, λ more. absurd (omega (arith, more, fewer)))

  IsSteady-react :
      (errors : List String) (s : FeedbackState)
      → IsSteady f errors (react chance now later f errors s)
  IsSteady-react errors disabled = IsSteady-same f f errors counted (omega arith)
  IsSteady-react errors sleep =
      elim (Bool-cases (leb f.post_scaledown_seconds (now - f.sleep_start_time))) [
        | inl over ↦ rw over (IsSteady-same f f errors counted (omega arith))
        | inr waits ↦ rw waits (IsSteady-same f f errors counted (omega arith))
      ]
  IsSteady-react errors neutral = IsSteady-by_errors errors
  IsSteady-react errors scaling_up = IsSteady-by_errors errors
  IsSteady-react errors scaling_down = IsSteady-by_errors errors

-- After every wakeup that does not fail for its check of the CPU, the number of active clients is
-- that of the dictionary, if it was before; and it is larger only if the actor was scaling up and its
-- error queue was empty.
pub IsSteady-handle_state :
    (chance : Chance) (now later : ℕ) (f g : Feedback)
    → IsCounted f
    → IsFair chance f.shared_client_states
    → handle_state chance now later f ≡ ok g
    → IsSteady f f.error_queue g
unfolding handle_state
IsSteady-handle_state chance now later f g counted fair e =
    elim (Bool-cases
      (is_set f.max_cpu_threshold && leb f.cpu_check_interval (now - f.last_cpu_check))) [
        | inl checks ↦ cc (rw checks at e)
        | inr goes ↦
            let done = rw goes at e in
            let same : react chance now later (record f { error_queue = [] }) f.error_queue f.state
                ≡ g =
              cc done in
            rw (← same) (
              IsSteady-react chance now later (record f { error_queue = [] }) counted fair
                f.error_queue f.state)
      ]
