-- ===== src/Feedback/Growing.antt =====
-- How the feedback actor activates clients.
use solr_benchmark.Prelude.{
  ℕ, zero, suc, ◌⊎◌, ◌+◌, ◌-◌, ◌<◌, ◌≤◌, Option, none, ◌≡◌, refl, ap, min, true, false, ◌||◌, some,
  List, [], ◌∷◌, ◌==◌, leb, Bool-cases, inl, inr, if◌then◌else◌, arith, length, take,
}
use native.Mathlib.Decide.{dec_le}
use solr_benchmark.Feedback.{
  client_key, neutral, Client, Feedback, Chance, clients_with, limit_of, add_clients, probe_above,
  scale_up,
}
use solr_benchmark.Feedback.Counting.{IsCounted, IsCounted-activate, All-take, AreApart-take}
use solr_benchmark.Feedback.Scaling.{IsFair}

-- The growth by some clients, which keeps the number of active ones that of the dictionary.
abbrev pub HasGrown : Feedback → ℕ → Feedback → Type 0
HasGrown f n g = IsCounted g × (g.total_active_client_count ≡ f.total_active_client_count + n)

length-take {ℓ} : {A : Type ℓ} (n : ℕ) (xs : List A) → length (take n xs) ≡ min n (length xs)
length-take zero xs = omega arith
length-take (suc n) [] = omega arith
length-take (suc n) (x ∷ xs) = omega (arith, length-take n xs)

module _ (chance : Chance) (f : Feedback) (counted : IsCounted f)
    (fair : IsFair chance f.shared_client_states) where
  abbrev shuffled : List Client
  shuffled = chance.shuffle (clients_with false f.shared_client_states)

  HasGrown-add_clients :
      (most : ℕ) → HasGrown f (min most (length shuffled)) (add_clients chance most f)
  HasGrown-add_clients most =
      let (counted', sum) =
        IsCounted-activate (take most shuffled) f counted
          (AreApart-take most shuffled fair.shuffle_apart)
          (All-take _ most shuffled fair.shuffle_inactive) in
      (counted', omega (arith, sum, length-take most shuffled))

module _ (step active : ℕ) where
  -- Whether clients may be added: there is a step, and a ceiling, if any, is above the active ones.
  abbrev pub HasRoom : Option ℕ → Type 0
  HasRoom none = 0 < step
  HasRoom (some ceiling) = (0 < step) × (active < ceiling)

  abbrev pub IsBelow : Option ℕ → ℕ → Type 0
  IsBelow none total = Unit
  IsBelow (some ceiling) total = total ≤ ceiling

  -- With so many paused clients the total is the most that the step, the ceiling and they allow.
  abbrev pub IsFilled : Option ℕ → ℕ → ℕ → Type 0
  IsFilled threshold paused total =
      (total ≤ active + step)
      × IsBelow threshold total
      × ((total ≡ active + step) ⊎ ((threshold ≡ some total) ⊎ (total ≡ active + paused)))

  HasRoom-limit_of :
      (threshold : Option ℕ) → (limit_of step active threshold == 0) ≡ false → HasRoom threshold
  HasRoom-limit_of none e = ground (arith, e)
  HasRoom-limit_of (some ceiling) e = (ground (arith, e), ground (arith, e))

  not_HasRoom :
      (threshold : Option ℕ) → (limit_of step active threshold == 0) ≡ true → ¬ HasRoom threshold
  not_HasRoom none e h = ground (arith, e, h)
  not_HasRoom (some ceiling) e h = ground (arith, e, h)

  IsFilled-limit_of :
      (threshold : Option ℕ) (paused total : ℕ)
      → HasRoom threshold
      → total ≡ active + min (limit_of step active threshold) paused
      → IsFilled threshold paused total
  IsFilled-limit_of none paused total room e = elim (dec_le step paused) [
    | yes fits ↦ (omega (arith, e), tt, inl (omega (arith, e)))
    | no all ↦ (omega (arith, e), tt, inr (inr (omega (arith, e))))
  ]
  IsFilled-limit_of (some ceiling) paused total room e =
      elim (dec_le (min step (ceiling - active)) paused) [
        | no all ↦ (omega (arith, e), omega (arith, e, room), inr (inr (omega (arith, e))))
        | yes fits ↦ elim (dec_le step (ceiling - active)) [
          | yes small ↦ (omega (arith, e), omega (arith, e, room), inl (omega (arith, e)))
          | no large ↦
              let full : ceiling ≡ total = omega (arith, e, room) in
              (omega (arith, e), omega (arith, full), inr (inl (ap some full)))
        ]
      ]

-- A probe is made by chance, or at the end of a number of cycles.
abbrev pub IsProbed : Chance → Feedback → Type 0
IsProbed chance f = (chance.probe ≡ true) ⊎ (f.probe_interval ≤ f.cycles_since_probe + 1)

-- Without room for a step: one of the paused clients for a probe, and none without one.
abbrev pub IsProbedOrKept : Chance → Feedback → Feedback → Type 0
IsProbedOrKept chance f g =
    let active = f.total_active_client_count in
    let paused = length (clients_with false f.shared_client_states) in
    (IsProbed chance f × (g.total_active_client_count ≡ active + min 1 paused))
    ⊎ (¬ IsProbed chance f × (g.total_active_client_count ≡ active))

abbrev pub IsScaledUp : Chance → Feedback → Feedback → Type 0
IsScaledUp chance f g =
    let step = f.num_clients_to_scale_up in
    let active = f.total_active_client_count in
    let paused = length (clients_with false f.shared_client_states) in
    IsCounted g
    × (g.state ≡ neutral)
    × ((HasRoom step active f.max_error_threshold
          × IsFilled step active f.max_error_threshold paused g.total_active_client_count)
        ⊎ (¬ HasRoom step active f.max_error_threshold × IsProbedOrKept chance f g))

IsProbed-or :
    (chance : Chance) (f : Feedback)
    → (chance.probe || leb f.probe_interval (f.cycles_since_probe + 1)) ≡ true
    → IsProbed chance f
IsProbed-or chance f e = elim (Bool-cases chance.probe) [
  | inl probes ↦ inl probes
  | inr waits ↦ inr (ground (arith, e, waits))
]

not_IsProbed :
    (chance : Chance) (f : Feedback)
    → (chance.probe || leb f.probe_interval (f.cycles_since_probe + 1)) ≡ false
    → ¬ IsProbed chance f
not_IsProbed chance f e (inl probes) = ground (arith, e, probes)
not_IsProbed chance f e (inr over) = ground (arith, e, over)

module _ (chance : Chance) (now : ℕ) (f : Feedback) (counted : IsCounted f)
    (fair : IsFair chance f.shared_client_states) where
  abbrev step_of : ℕ
  step_of = limit_of f.num_clients_to_scale_up f.total_active_client_count f.max_error_threshold

  IsProbedOrKept-probe_above :
      length (chance.shuffle (clients_with false f.shared_client_states))
        ≡ length (clients_with false f.shared_client_states)
      → IsCounted (probe_above chance f) × IsProbedOrKept chance f (probe_above chance f)
  IsProbedOrKept-probe_above all =
      let waited = leb f.probe_interval (f.cycles_since_probe + 1) in
      let g = record f { cycles_since_probe = if waited then 0 else f.cycles_since_probe + 1 } in
      elim (Bool-cases (chance.probe || waited)) [
        | inl probes ↦
            let (counted', sum) = HasGrown-add_clients chance g counted fair 1 in
            rw probes (counted', inl (IsProbed-or chance f probes, omega (arith, sum, all)))
        | inr rests ↦ rw rests (counted, inr (not_IsProbed chance f rests, refl))
      ]

  -- The state counts what was activated, without the assumption on the size of the shuffle.
  pub IsCounted-scale_up : IsCounted (scale_up chance now f)
  unfolding scale_up
  IsCounted-scale_up = elim (Bool-cases (step_of == 0)) [
    | inr room ↦ rw room (HasGrown-add_clients chance f counted fair step_of).0
    | inl full ↦
        let waited = leb f.probe_interval (f.cycles_since_probe + 1) in
        let g = record f { cycles_since_probe = if waited then 0 else f.cycles_since_probe + 1 } in
        elim (Bool-cases (chance.probe || waited)) [
          | inl probes ↦ rw (full, probes) (HasGrown-add_clients chance g counted fair 1).0
          | inr rests ↦ rw (full, rests) counted
        ]
  ]

-- If the number of active clients is that of the dictionary, it stays so when scaling up, and the actor
-- is neutral behind it. Where there is a step, and no ceiling or one above the active clients, the
-- clients grow by the step at most and not above the ceiling, and by the step, to the ceiling, or by
-- all that are paused. Otherwise one paused client is activated if it is probed, by chance or at the
-- end of the cycles, and none if not. The shuffle is assumed to give all inactive clients, none twice.
pub IsScaledUp-scale_up :
    (chance : Chance) (now : ℕ) (f : Feedback)
    → IsCounted f
    → IsFair chance f.shared_client_states
    → length (chance.shuffle (clients_with false f.shared_client_states))
      ≡ length (clients_with false f.shared_client_states)
    → IsScaledUp chance f (scale_up chance now f)
unfolding scale_up
IsScaledUp-scale_up chance now f counted fair all =
    let limit =
      limit_of f.num_clients_to_scale_up f.total_active_client_count f.max_error_threshold in
    elim (Bool-cases (limit == 0)) [
      | inl full ↦
          let (counted', probed) = IsProbedOrKept-probe_above chance now f counted fair all in
          rw full (
            counted',
            refl,
            inr (
              not_HasRoom f.num_clients_to_scale_up f.total_active_client_count
                  f.max_error_threshold full,
              probed,
            ),
          )
      | inr room ↦
          let (counted', sum) = HasGrown-add_clients chance f counted fair limit in
          let enough =
            HasRoom-limit_of f.num_clients_to_scale_up f.total_active_client_count
              f.max_error_threshold room in
          let filled =
            IsFilled-limit_of f.num_clients_to_scale_up f.total_active_client_count
              f.max_error_threshold (length (clients_with false f.shared_client_states)) _ enough
              (omega (arith, sum, all)) in
          rw room (counted', refl, inl (enough, filled))
    ]
