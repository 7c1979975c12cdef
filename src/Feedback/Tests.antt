-- ===== src/Feedback/Tests.antt =====
-- A redline test with three clients on two workers, two of them active.
use solr_benchmark.Prelude.{
  ℕ, zero, suc, ◌≤◌, ◌≡◌, refl, ap, true, false, none, some, List, [], ◌∷◌, arith, take, length,
}
use solr_benchmark.Prelude.Dict.{get, put}
use solr_benchmark.Feedback.{
  client_key, neutral, scaling_up, Feedback, Chance, clients_with, scale_down, scale_up,
  handle_state, activate,
}
use solr_benchmark.Feedback.Counting.{All-take, AreApart-take}
use solr_benchmark.Feedback.Scaling.{IsFair, IsScaledDown, IsScaledDown-scale_down}
use solr_benchmark.Feedback.Growing.{IsScaledUp, IsScaledUp-scale_up}
use solr_benchmark.Feedback.Handling.{IsSteady, IsSteady-handle_state}

abbrev feedback : Feedback
feedback = record {
  state = scaling_up;
  shared_client_states = ((0, 0), true) ∷ ((0, 1), false) ∷ ((1, 2), true) ∷ [];
  total_client_count = 3;
  total_active_client_count = 2;
  num_clients_to_scale_up = 5;
  percentage_clients_to_scale_down = (1, 10);
  sleep_start_time = 0;
  last_error_time = 0;
  last_scaleup_time = 0;
  max_stable_clients = 0;
  error_queue = [];
  max_error_threshold = some 10000;
  probe_interval = 10;
  cycles_since_probe = 0;
  post_scaledown_seconds = 30;
  wakeup_interval = 1;
  last_cpu_check = 0;
  max_cpu_threshold = none;
  cpu_check_interval = 10;
}

-- The first clients are sampled, and a shuffle changes nothing.
abbrev chance : Chance
chance = record {
  sample = λ clients n. take n clients;
  shuffle = λ clients. clients;
  probe = false;
}

length-take {ℓ} : {A : Type ℓ} (n : ℕ) (xs : List A) → n ≤ length xs → length (take n xs) ≡ n
length-take zero xs h = refl
length-take (suc n) [] h = omega (arith, h)
length-take (suc n) (x ∷ xs) h = ap suc (length-take n xs (omega (arith, h)))

IsFair-chance : IsFair chance feedback.shared_client_states
unfolding clients_with get
IsFair-chance = record {
  sample_size = λ n h. length-take n ((0, 0) ∷ (1, 2) ∷ []) h;
  sample_apart = λ n h. AreApart-take n ((0, 0) ∷ (1, 2) ∷ []) ((refl, tt), (tt, tt));
  sample_active = λ n h. All-take _ n ((0, 0) ∷ (1, 2) ∷ []) (refl, (refl, tt));
  shuffle_apart = (tt, tt);
  shuffle_inactive = (refl, tt);
}

IsScaledDown-scale_down_example : IsScaledDown feedback (scale_down chance 7 feedback)
IsScaledDown-scale_down_example =
    IsScaledDown-scale_down chance 7 feedback (omega arith) refl IsFair-chance

IsScaledUp-scale_up_example : IsScaledUp chance feedback (scale_up chance 7 feedback)
IsScaledUp-scale_up_example = IsScaledUp-scale_up chance 7 feedback refl IsFair-chance refl

abbrev scaled_up : Feedback
scaled_up = record feedback {
  state = neutral;
  shared_client_states = ((0, 0), true) ∷ ((0, 1), true) ∷ ((1, 2), true) ∷ [];
  total_active_client_count = 3;
  last_scaleup_time = 8;
}

IsSteady-handle_state_example : IsSteady feedback [] scaled_up
unfolding handle_state scale_up activate clients_with put
IsSteady-handle_state_example =
    IsSteady-handle_state chance 7 8 feedback scaled_up refl IsFair-chance refl
