-- ===== src/Feedback/Counting.antt =====
-- The feedback actor's number of active clients against its dictionary.
use solr_benchmark.Prelude.{
  ℕ, zero, suc, ◌+◌, ◌-◌, ◌≤◌, ◌≡◌, refl, ap, Bool, true, false, some, List, [], ◌∷◌, Bool-cases,
  inl, inr, if◌then◌else◌, arith, length, take, All,
}
use solr_benchmark.Prelude.Dict.{Dict, get, put, get-put}
use solr_benchmark.Feedback.{
  Client, client_key, same_client, Feedback, clients_with, pause, activate,
}

-- So many entries of the dictionary are active.
abbrev pub active_count : Dict Client Bool → ℕ
active_count [] = 0
active_count ((client, active) ∷ clients) =
    if active then suc (active_count clients) else active_count clients

abbrev pub IsCounted : Feedback → Type 0
IsCounted f = active_count f.shared_client_states ≡ f.total_active_client_count

-- Clients of one status, none of them twice.
abbrev pub AreApart : List Client → Type 0
AreApart [] = Unit
AreApart (c ∷ clients) = All (λ d. same_client c d ≡ false) clients × AreApart clients

abbrev pub HaveStatus : Bool → Dict Client Bool → List Client → Type 0
HaveStatus status states = All (λ c. get c states ≡ some status)

active_count-put_paused :
    (c : Client) (states : Dict Client Bool)
    → get c states ≡ some true
    → active_count states ≡ suc (active_count (put c false states))
unfolding get put
active_count-put_paused c [] e = cc e
active_count-put_paused c ((d, active) ∷ states) e = elim (Bool-cases (same_client d c)) [
  | inl same ↦
      let found : some active ≡ some true = rw same at e in
      let status : active ≡ true = cc found in rw (same, status) refl
  | inr other ↦
      let further = active_count-put_paused c states (rw other at e) in
      rw other (ground (arith, further))
]

active_count-put_activated :
    (c : Client) (states : Dict Client Bool)
    → get c states ≡ some false
    → active_count (put c true states) ≡ suc (active_count states)
unfolding get put
active_count-put_activated c [] e = cc
active_count-put_activated c ((d, active) ∷ states) e = elim (Bool-cases (same_client d c)) [
  | inl same ↦
      let found : some active ≡ some false = rw same at e in
      let status : active ≡ false = cc found in rw (same, status) refl
  | inr other ↦
      let further = active_count-put_activated c states (rw other at e) in
      rw other (ground (arith, further))
]

HaveStatus-put :
    (status new : Bool) (c : Client) (states : Dict Client Bool) (clients : List Client)
    → All (λ d. same_client c d ≡ false) clients
    → HaveStatus status states clients
    → HaveStatus status (put c new states) clients
HaveStatus-put status new c states [] apart have = tt
HaveStatus-put status new c states (d ∷ clients) apart have =
    (rw (get-put, apart.0) have.0, HaveStatus-put status new c states clients apart.1 have.1)

pub IsCounted-pause :
    (clients : List Client) (f : Feedback)
    → IsCounted f
    → AreApart clients
    → HaveStatus true f.shared_client_states clients
    → IsCounted (pause clients f)
      × ((pause clients f).total_active_client_count + length clients ≡ f.total_active_client_count)
unfolding pause
IsCounted-pause [] f counted apart have = (counted, omega arith)
IsCounted-pause (c ∷ clients) f counted apart have =
    let less = active_count-put_paused c f.shared_client_states have.0 in
    let (counted', left) =
      IsCounted-pause clients
        (record f {
          shared_client_states = put c false f.shared_client_states;
          total_active_client_count = f.total_active_client_count - 1;
        })
        (omega (arith, less, counted)) apart.1
        (HaveStatus-put true false c f.shared_client_states clients apart.0 have.1) in
    (counted', omega (arith, left, less, counted))

pub IsCounted-activate :
    (clients : List Client) (f : Feedback)
    → IsCounted f
    → AreApart clients
    → HaveStatus false f.shared_client_states clients
    → IsCounted (activate clients f)
      × ((activate clients f).total_active_client_count
          ≡ f.total_active_client_count + length clients)
unfolding activate
IsCounted-activate [] f counted apart have = (counted, omega arith)
IsCounted-activate (c ∷ clients) f counted apart have =
    let more = active_count-put_activated c f.shared_client_states have.0 in
    let (counted', sum) =
      IsCounted-activate clients
        (record f {
          shared_client_states = put c true f.shared_client_states;
          total_active_client_count = f.total_active_client_count + 1;
        })
        (omega (arith, more, counted)) apart.1
        (HaveStatus-put false true c f.shared_client_states clients apart.0 have.1) in
    (counted', omega (arith, sum))

pub All-take {ℓ κ} :
    {A : Type ℓ} (P : A → Type κ) (n : ℕ) (xs : List A) → All P xs → All P (take n xs)
All-take P zero xs all = tt
All-take P (suc n) [] all = tt
All-take P (suc n) (x ∷ xs) all = (all.0, All-take P n xs all.1)

pub AreApart-take : (n : ℕ) (clients : List Client) → AreApart clients → AreApart (take n clients)
AreApart-take zero clients apart = tt
AreApart-take (suc n) [] apart = tt
AreApart-take (suc n) (c ∷ clients) apart =
    (All-take (λ d. same_client c d ≡ false) n clients apart.0, AreApart-take n clients apart.1)

pub length-take_le {ℓ} : {A : Type ℓ} (n : ℕ) (xs : List A) → length (take n xs) ≤ n
length-take_le zero xs = omega arith
length-take_le (suc n) [] = omega arith
length-take_le (suc n) (x ∷ xs) = omega (arith, length-take_le n xs)

pub length-clients_with :
    (states : Dict Client Bool) → length (clients_with true states) ≡ active_count states
unfolding clients_with
length-clients_with [] = refl
length-clients_with ((c, true) ∷ states) = ap suc (length-clients_with states)
length-clients_with ((c, false) ∷ states) = length-clients_with states
