-- ===== src/Feedback.antt =====
-- osbenchmark/worker_coordinator/worker_coordinator.py: `FeedbackActor`, which pauses and activates
-- clients in a redline test. Its shared dictionaries are one, by worker and client, in their order.
-- The clock's readings, the random numbers, samples and shuffles are arguments.
pub mod Counting
pub mod Scaling
pub mod Growing
pub mod Handling
mod Tests
use solr_benchmark.Prelude.{
  ℕ, zero, suc, ◌+◌, ◌-◌, ◌*◌, min, max, String, Bool, true, false, not, ◌&&◌, ◌||◌, Option, none,
  some, List, [], ◌∷◌, ◌==◌, ==_iff, ltb, leb, if◌then◌else◌, length, take, ◌≡◌, ◌↔◌, refl, ap,
  Bool-cases, inl, inr, arith,
}
use solr_benchmark.Prelude.Rounding.{ceil_div}
use solr_benchmark.Prelude.Dict.{Key, Dict, put}
use solr_benchmark.Result.{Result, ok, raise, system_setup_error}

pub data FeedbackState : Type 0 where
  neutral scaling_down sleep scaling_up disabled : FeedbackState

abbrev pub Client : Type 0
Client = ℕ × ℕ

abbrev pub same_client : Client → Client → Bool
same_client (v, c) (w, d) = (v == w) && (c == d)

pub same_client_iff : (j k : Client) → (same_client j k ≡ true) ↔ (j ≡ k)
same_client_iff (v, c) (w, d) = (
  λ e. let p : v ≡ w = ground (arith, e) in let q : c ≡ d = ground (arith, e) in rw (p, q) refl,
  λ e. let p : v ≡ w = ap (λ x. x.0) e in let q : c ≡ d = ap (λ x. x.1) e in ground (arith, p, q),
)

instance abbrev pub client_key : Key Client
client_key = record { same = same_client; same_iff = same_client_iff }

-- `percentage_clients_to_scale_down` is a fraction; an absent `max_error_threshold` is infinite.
pub record Feedback : Type 0 where
  pub state : FeedbackState
  pub shared_client_states : Dict Client Bool
  pub total_client_count : ℕ
  pub total_active_client_count : ℕ
  pub num_clients_to_scale_up : ℕ
  pub percentage_clients_to_scale_down : ℕ × ℕ
  pub sleep_start_time : ℕ
  pub last_error_time : ℕ
  pub last_scaleup_time : ℕ
  pub max_stable_clients : ℕ
  pub error_queue : List String
  pub max_error_threshold : Option ℕ
  pub probe_interval : ℕ
  pub cycles_since_probe : ℕ
  pub post_scaledown_seconds : ℕ
  pub wakeup_interval : ℕ
  pub last_cpu_check : ℕ
  pub max_cpu_threshold : Option ℕ
  pub cpu_check_interval : ℕ

-- What `random.sample` and `random.shuffle` do, and whether `random.random() < probe_probability`.
pub record Chance : Type 0 where
  pub sample : List Client → ℕ → List Client
  pub shuffle : List Client → List Client
  pub probe : Bool

-- The clients with this status, in the order of the dictionary.
pub clients_with : Bool → Dict Client Bool → List Client
clients_with status [] = []
clients_with status ((client, active) ∷ clients) =
    let rest = clients_with status clients in
    if active
    then (if status then client ∷ rest else rest)
    else (if status then rest else client ∷ rest)

pub pause : List Client → Feedback → Feedback
pause [] f = f
pause (client ∷ clients) f = pause clients (record f {
  shared_client_states = put client false f.shared_client_states;
  total_active_client_count = f.total_active_client_count - 1;
})

pub activate : List Client → Feedback → Feedback
activate [] f = f
activate (client ∷ clients) f = activate clients (record f {
  shared_client_states = put client true f.shared_client_states;
  total_active_client_count = f.total_active_client_count + 1;
})

abbrev pub clients_to_pause : Feedback → ℕ
clients_to_pause f =
    ceil_div (f.total_active_client_count * f.percentage_clients_to_scale_down.0)
      f.percentage_clients_to_scale_down.1

-- `finally` of `scale_down`
abbrev pub asleep : ℕ → Feedback → Feedback
asleep now f = record f {
  state = sleep;
  error_queue = [];
  sleep_start_time = now;
  last_scaleup_time = now;
}

pub scale_down : Chance → ℕ → Feedback → Feedback
unfolding pause clients_with
scale_down chance now f =
    let ceiling = record f { max_error_threshold = some f.total_active_client_count } in
    let all_active_clients = clients_with true f.shared_client_states in
    asleep now (
      if clients_to_pause f == 0
      then ceiling
      else pause
          (chance.sample all_active_clients (min (clients_to_pause f) (length all_active_clients)))
          ceiling)

abbrev pub limit_of : ℕ → ℕ → Option ℕ → ℕ
limit_of step active none = step
limit_of step active (some threshold) = min step (threshold - active)

-- `finally` of `scale_up`
abbrev pub scaled : ℕ → Feedback → Feedback
scaled now f = record f { last_scaleup_time = now; state = neutral }

abbrev pub add_clients : Chance → ℕ → Feedback → Feedback
add_clients chance max_clients_to_add f =
    activate (take max_clients_to_add (chance.shuffle (clients_with false f.shared_client_states)))
      f

-- The branch at the ceiling.
abbrev pub probe_above : Chance → Feedback → Feedback
probe_above chance f =
    let cycles = f.cycles_since_probe + 1 in
    let waited = leb f.probe_interval cycles in
    let counted = record f { cycles_since_probe = if waited then 0 else cycles } in
    if chance.probe || waited then add_clients chance 1 counted else counted

pub scale_up : Chance → ℕ → Feedback → Feedback
unfolding activate clients_with
scale_up chance now f =
    let limit =
      limit_of f.num_clients_to_scale_up f.total_active_client_count f.max_error_threshold in
    scaled now (if limit == 0 then probe_above chance f else add_clients chance limit f)

abbrev pub is_set : Option ℕ → Bool
is_set none = false
is_set (some n) = not (n == 0)

-- The branches without errors, by the state. `later` is the clock's value at the end of scaling.
abbrev pub by_state : Chance → ℕ → ℕ → Feedback → FeedbackState → Feedback
by_state chance now later f neutral =
    let stable = record f {
      max_stable_clients = max f.max_stable_clients f.total_active_client_count;
    } in
    if leb f.post_scaledown_seconds (now - f.last_error_time)
      && leb f.wakeup_interval (now - f.last_scaleup_time)
    then record stable { state = scaling_up }
    else stable
by_state chance now later f scaling_up = record (scale_up chance later f) { state = neutral }
by_state chance now later f _ = f

abbrev pub by_errors : Chance → ℕ → ℕ → Feedback → List String → Feedback
by_errors chance now later f [] = by_state chance now later f f.state
by_errors chance now later f (error ∷ errors) =
    record (scale_down chance later (record f { state = scaling_down })) { last_error_time = now }

abbrev pub react : Chance → ℕ → ℕ → Feedback → List String → FeedbackState → Feedback
react chance now later f errors disabled = f
react chance now later f errors sleep =
    if leb f.post_scaledown_seconds (now - f.sleep_start_time)
    then record f { state = neutral; sleep_start_time = now }
    else f
react chance now later f errors _ = by_errors chance now later f errors

-- The errors are taken from the queue also where they are not looked at.
pub handle_state : Chance → ℕ → ℕ → Feedback → Result Feedback
unfolding scale_down scale_up
handle_state chance now later f =
    if is_set f.max_cpu_threshold && leb f.cpu_check_interval (now - f.last_cpu_check)
    then raise system_setup_error
    else ok (react chance now later (record f { error_queue = [] }) f.error_queue f.state)

unfoldable pub enable_feedback_scaling : Feedback → Feedback
enable_feedback_scaling f = record f {
  max_error_threshold = some 10000;
  cycles_since_probe = 0;
  state = scaling_up;
}

unfoldable pub disable_feedback_scaling : Feedback → Feedback
disable_feedback_scaling f = record f { state = disabled }

unfoldable pub reset_error_threshold : Feedback → Feedback
reset_error_threshold f = record f { max_error_threshold = none }
