-- ===== src/Feedback/Scaling.antt =====
-- How the feedback actor pauses clients.
use solr_benchmark.Prelude.{
  ℕ, zero, suc, ◌⊎◌, ◌+◌, ◌-◌, ◌*◌, ◌<◌, ◌≤◌, ◌≡◌, refl, ◌∙◌, min, Bool, true, false, some, List,
  [], ◌∷◌, ◌==◌, Bool-cases, inl, inr, arith, length,
}
use solr_benchmark.Prelude.Dict.{Dict, put}
use solr_benchmark.Prelude.Rounding.{ceil_div, le-ceil_div, ceil_div-least}
use native.Mathlib.Decide.{dec_le}
use solr_benchmark.Feedback.{
  client_key, sleep, Client, Feedback, Chance, clients_with, pause, clients_to_pause, scale_down,
}
use solr_benchmark.Feedback.Counting.{
  active_count, IsCounted, AreApart, HaveStatus, IsCounted-pause, length-clients_with,
}

-- A sample has so many active clients, none twice, and a shuffle only inactive ones, none twice.
pub record IsFair (chance : Chance) (states : Dict Client Bool) : Type 0 where
  pub sample_size :
      (n : ℕ) → n ≤ active_count states → length (chance.sample (clients_with true states) n) ≡ n
  pub sample_apart :
      (n : ℕ) → n ≤ active_count states → AreApart (chance.sample (clients_with true states) n)
  pub sample_active :
      (n : ℕ)
      → n ≤ active_count states
      → HaveStatus true states (chance.sample (clients_with true states) n)
  pub shuffle_apart : AreApart (chance.shuffle (clients_with false states))
  pub shuffle_inactive : HaveStatus false states (chance.shuffle (clients_with false states))

max_error_threshold-pause :
    (clients : List Client) (f : Feedback)
    → (pause clients f).max_error_threshold ≡ f.max_error_threshold
unfolding pause
max_error_threshold-pause [] f = refl
max_error_threshold-pause (c ∷ clients) f = max_error_threshold-pause clients (record f {
  shared_client_states = put c false f.shared_client_states;
  total_active_client_count = f.total_active_client_count - 1;
})

-- What scaling down leaves, with the number that the code computes.
abbrev pub HasPaused : Feedback → Feedback → Type 0
HasPaused f g =
    IsCounted g
    × (g.total_active_client_count + min (clients_to_pause f) f.total_active_client_count
        ≡ f.total_active_client_count)
    × (g.max_error_threshold ≡ some f.total_active_client_count)
    × (g.error_queue ≡ [])
    × (g.state ≡ sleep)

pub HasPaused-scale_down :
    (chance : Chance) (now : ℕ) (f : Feedback)
    → IsCounted f
    → IsFair chance f.shared_client_states
    → HasPaused f (scale_down chance now f)
unfolding scale_down
HasPaused-scale_down chance now f counted fair =
    let n = clients_to_pause f in
    let total = f.total_active_client_count in
    let size : length (clients_with true f.shared_client_states) ≡ total =
      length-clients_with f.shared_client_states ∙ counted in
    elim (Bool-cases (n == 0)) [
      | inl nobody ↦
          let none_left : total + min n total ≡ total = ground (arith, nobody) in
          rw nobody (counted, none_left, refl, refl, refl)
      | inr somebody ↦
          let m = min n (length (clients_with true f.shared_client_states)) in
          let inside : m ≤ active_count f.shared_client_states = omega (arith, size, counted) in
          let chosen = chance.sample (clients_with true f.shared_client_states) m in
          let ceiling = record f { max_error_threshold = some total } in
          let (counted', left) =
            IsCounted-pause chosen ceiling counted (fair.sample_apart m inside)
              (fair.sample_active m inside) in
          rw somebody (
            counted',
            omega (arith, left, fair.sample_size m inside, size),
            max_error_threshold-pause chosen ceiling,
            refl,
            refl,
          )
    ]

-- The share of so many clients, rounded up to a whole one, or all of them if it is more: it reaches the
-- share, and with one client less it would not.
abbrev pub IsShare : ℕ × ℕ → ℕ → ℕ → Type 0
IsShare percentage total paused =
    (paused ≤ total)
    × (total * percentage.0 ≤ paused * percentage.1 ⊎ (paused ≡ total))
    × ((paused ≡ 0)
        ⊎ ((fewer : ℕ) × (paused ≡ suc fewer) × (fewer * percentage.1 < total * percentage.0)))

module _ (percentage : ℕ × ℕ) (total : ℕ) (positive : 0 < percentage.1) where
  abbrev share_of : ℕ
  share_of = ceil_div (total * percentage.0) percentage.1

  reaches_share :
      (total * percentage.0 ≤ min share_of total * percentage.1) ⊎ (min share_of total ≡ total)
  reaches_share = elim (dec_le share_of total) [
    | no all ↦ inr (omega arith)
    | yes some_left ↦
        let kept : min share_of total ≡ share_of = omega arith in
        inl (rw kept (le-ceil_div (total * percentage.0) percentage.1 positive))
  ]

  fewer_miss :
      (paused : ℕ)
      → paused ≤ share_of
      → (paused ≡ 0)
        ⊎ ((fewer : ℕ) × (paused ≡ suc fewer) × (fewer * percentage.1 < total * percentage.0))
  fewer_miss zero least = inl refl
  fewer_miss (suc fewer) least = elim (dec_le (total * percentage.0) (fewer * percentage.1)) [
    | no misses ↦ inr (fewer, refl, omega arith)
    | yes reaches ↦
        let enough = ceil_div-least (total * percentage.0) percentage.1 fewer positive reaches in
        absurd (omega (arith, enough, least))
  ]

  IsShare-ceil_div : IsShare percentage total (min share_of total)
  IsShare-ceil_div = (omega arith, reaches_share, fewer_miss (min share_of total) (omega arith))

abbrev pub IsScaledDown : Feedback → Feedback → Type 0
IsScaledDown f g =
    (paused : ℕ) × (g.total_active_client_count + paused ≡ f.total_active_client_count)
    × IsShare f.percentage_clients_to_scale_down f.total_active_client_count paused
    × IsCounted g
    × (g.max_error_threshold ≡ some f.total_active_client_count)
    × (g.error_queue ≡ [])
    × (g.state ≡ sleep)

-- If the number of active clients is that of the dictionary, scaling down pauses the given share
-- of the active clients, rounded up, or all of them if it is more; the number stays that of the dictionary, the new ceiling is the number before, the error
-- queue is empty, and the actor sleeps. The share is a
-- fraction with a denominator that is not 0; the sample is assumed to have so many
-- active clients and none twice.
pub IsScaledDown-scale_down :
    (chance : Chance) (now : ℕ) (f : Feedback)
    → 0 < f.percentage_clients_to_scale_down.1
    → IsCounted f
    → IsFair chance f.shared_client_states
    → IsScaledDown f (scale_down chance now f)
IsScaledDown-scale_down chance now f positive counted fair =
    let (counted', left, ceiling, empty, asleep) = HasPaused-scale_down chance now f counted fair in
    (
      min (clients_to_pause f) f.total_active_client_count,
      left,
      IsShare-ceil_div f.percentage_clients_to_scale_down f.total_active_client_count positive,
      counted',
      ceiling,
      empty,
      asleep,
    )
