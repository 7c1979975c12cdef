-- ===== src/Context/Nesting.antt =====
-- osbenchmark/context.py: the contexts of the requests that one logical request makes in turn.
use solr_benchmark.Prelude.{
  ℕ, ◌≤◌, ◌<◌, ◌≡◌, refl, ap, ◌∙◌, Option, some, List, [], ◌∷◌, ◌++◌, max, lt→ltb, arith,
  append_assoc, append-nil,
}
use solr_benchmark.Result.{ok, ◌>>=◌}
use solr_benchmark.Context.{
  Context, empty_context, Stack, Event, entering, leaving, on_client_request_start,
  on_request_start, on_request_end, on_client_request_end, steps, step, exit, propagate,
  request_start, request_end, client_request_start, client_request_end, valid_ends, request_end_of,
  maximum, maximum_from, update_request_start, update_request_end, update_client_request_start,
  update_client_request_end,
}

-- The four times of a request.
pub record Request : Type 0 where
  pub client_start : ℕ
  pub start : ℕ
  pub end : ℕ
  pub client_end : ℕ

-- A request in a context of its own.
abbrev pub events_of : Request → List Event
events_of r =
    entering
    ∷ on_client_request_start r.client_start
    ∷ on_request_start r.start
    ∷ on_request_end r.end
    ∷ on_client_request_end r.client_end
    ∷ leaving
    ∷ []

abbrev pub events : List Request → List Event
events [] = []
events (r ∷ rs) = events_of r ++ events rs

-- Each request begins when the one before it has ended, and its answer is in before the client is done.
abbrev pub AreInTurn : ℕ → List Request → Type 0
AreInTurn now [] = Unit
AreInTurn now (r ∷ rs) =
    (now ≤ r.client_start)
    × (r.client_start ≤ r.start)
    × (r.start ≤ r.end)
    × (r.end < r.client_end)
    × AreInTurn r.client_end rs

-- The context of one request tells its four times to its parent.
steps-events_of :
    (r : Request) (parent : Context) (contexts : Stack) (more : List Event)
    → r.end < r.client_end
    → steps (events_of r ++ more) (parent ∷ contexts)
      ≡ steps more (
          propagate (some r.start) (some r.end) (some r.client_start) (some r.client_end) parent
          ∷ contexts)
unfolding steps step exit request_end valid_ends update_request_start update_request_end
    update_client_request_start update_client_request_end
steps-events_of r parent contexts more h = rw (lt→ltb r.end r.client_end h) refl

abbrev pub ends : List Request → List (Option ℕ)
ends [] = []
ends (r ∷ rs) = some r.end ∷ ends rs

abbrev pub end_times : List Request → List ℕ
end_times [] = []
end_times (r ∷ rs) = r.end ∷ end_times rs

abbrev pub last_client_end : ℕ → List Request → ℕ
last_client_end now [] = now
last_client_end now (r ∷ rs) = last_client_end r.client_end rs

abbrev pub last_end : ℕ → List Request → ℕ
last_end now [] = now
last_end now (r ∷ rs) = last_end r.end rs

-- A parent that has its two starts keeps them.
abbrev pub open_context : ℕ → ℕ → List (Option ℕ) → Option ℕ → Context
open_context client_start start end_list client_end = record {
  start_entry = some (some start);
  end_list = end_list;
  client_start_entry = some (some client_start);
  client_end_entry = client_end;
}

abbrev pub closing : Option ℕ → List Request → Option ℕ
closing client_end [] = client_end
closing client_end (r ∷ rs) = closing (some r.client_end) rs

steps-open :
    (rs : List Request) (client_start start now : ℕ) (before : List (Option ℕ))
    (client_end : Option ℕ)
    → (contexts : Stack) → AreInTurn now rs
    → steps (events rs) (open_context client_start start before client_end ∷ contexts)
      ≡ ok (open_context client_start start (before ++ ends rs) (closing client_end rs) ∷ contexts)
unfolding steps
steps-open [] client_start start now before client_end contexts h = rw (append-nil before) refl
steps-open (r ∷ rs) client_start start now before client_end contexts h =
    let further =
      steps-open rs client_start start r.client_end (before ++ (some r.end ∷ []))
        (some r.client_end) contexts h.4 in
    steps-events_of r (open_context client_start start before client_end) contexts (events rs) h.3
    ∙ (further
        ∙ ap
            (λ l.
              ok (open_context client_start start l (closing (some r.client_end) rs) ∷ contexts))
            (append_assoc before (some r.end ∷ []) (ends rs)))

client_end-le-last : (rs : List Request) (now : ℕ) → AreInTurn now rs → now ≤ last_client_end now rs
client_end-le-last [] now h = omega arith
client_end-le-last (r ∷ rs) now h =
    let further = client_end-le-last rs r.client_end h.4 in
    omega (arith, h.0, h.1, h.2, h.3, further)

valid_ends-ends :
    (rs : List Request) (now bound : ℕ)
    → AreInTurn now rs
    → last_client_end now rs ≤ bound
    → valid_ends bound (ends rs) ≡ ok (end_times rs)
unfolding valid_ends
valid_ends-ends [] now bound h fits = refl
valid_ends-ends (r ∷ rs) now bound h fits =
    let later = client_end-le-last rs r.client_end h.4 in
    let in_time : r.end < bound = omega (arith, h.3, later, fits) in
    rw (valid_ends-ends rs r.client_end bound h.4 fits, lt→ltb r.end bound in_time) refl

maximum_from-ends :
    (rs : List Request) (best now : ℕ)
    → best ≤ now
    → AreInTurn now rs
    → maximum_from best (end_times rs) ≡ last_end best rs
maximum_from-ends [] best now b h = refl
maximum_from-ends (r ∷ rs) best now b h =
    let larger : max best r.end ≡ r.end = omega (arith, h.0, h.1, h.2, b) in
    ap (λ m. maximum_from m (end_times rs)) larger
    ∙ maximum_from-ends rs r.end r.client_end (omega (arith, h.3)) h.4

closing_lem : (rs : List Request) (now : ℕ) → closing (some now) rs ≡ some (last_client_end now rs)
closing_lem [] now = refl
closing_lem (r ∷ rs) now = closing_lem rs r.client_end

spanned_end :
    (r : Request) (rs : List Request) (now : ℕ)
    → AreInTurn now (r ∷ rs)
    → request_end_of (ends (r ∷ rs)) (some (last_client_end r.client_end rs))
      ≡ ok (some (last_end r.end rs))
spanned_end r rs now h =
    let read = valid_ends-ends (r ∷ rs) now (last_client_end r.client_end rs) h (omega arith) in
    let largest = maximum_from-ends rs r.end r.client_end (omega (arith, h.3)) h.4 in
    ap (λ v. v >>= λ valid. ok (maximum valid)) read ∙ ap (λ m. ok (some m)) largest

-- A logical request that starts its own clock and then makes one request or more in turn, each in a
-- context of its own: its context spans them. It starts on the wire with the first of them, ends on the
-- wire with the last one, and the client's times are its own start and the end of the last one.
pub events-spanned :
    (client_start : ℕ) (r : Request) (rs : List Request) (contexts : Stack)
    → AreInTurn client_start (r ∷ rs)
    → (ctx : Context) × (steps
          (on_client_request_start client_start ∷ events (r ∷ rs))
          (empty_context ∷ contexts)
        ≡ ok (ctx ∷ contexts))
      × (client_request_start ctx ≡ some client_start)
      × (request_start ctx ≡ some r.start)
      × (request_end ctx ≡ ok (some (last_end r.end rs)))
      × (client_request_end ctx ≡ some (last_client_end r.client_end rs))
unfolding steps step request_end propagate update_request_start update_request_end
    update_client_request_start update_client_request_end
events-spanned client_start r rs contexts h = (
  open_context client_start r.start (ends (r ∷ rs)) (some (last_client_end r.client_end rs)),
  steps-events_of r (record empty_context { client_start_entry = some (some client_start) })
        contexts (events rs) h.3
      ∙ steps-open rs client_start r.start r.client_end (some r.end ∷ []) (some r.client_end)
          contexts h.4
      ∙ ap (λ e. ok (open_context client_start r.start (ends (r ∷ rs)) e ∷ contexts))
          (closing_lem rs r.client_end),
  refl,
  refl,
  spanned_end r rs client_start h,
  refl,
)
