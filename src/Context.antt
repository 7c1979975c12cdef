-- ===== src/Context.antt =====
-- osbenchmark/context.py: the contexts that measure requests. The variable holds a stack of contexts,
-- the innermost first; a key of a context may be absent, or present with `None`.
pub mod Nesting
mod Tests
use solr_benchmark.Prelude.{
  ℕ, ◌≡◌, refl, Bool, true, false, not, ◌&&◌, Option, none, some, List, [], ◌∷◌, ◌++◌, ltb, max,
  if◌then◌else◌, is_some,
}
use solr_benchmark.Result.{Result, ok, raise, ◌>>=◌, type_error, lookup_error}

pub record Context : Type 0 where
  pub start_entry : Option (Option ℕ)
  -- request_end_list, absent when it is empty
  pub end_list : List (Option ℕ)
  pub client_start_entry : Option (Option ℕ)
  pub client_end_entry : Option ℕ

-- ctx = {}
abbrev pub empty_context : Context
empty_context = record {
  start_entry = none;
  end_list = [];
  client_start_entry = none;
  client_end_entry = none;
}

-- ctx.get(key) of an entry that may hold `None`.
abbrev pub entry : Option (Option ℕ) → Option ℕ
entry none = none
entry (some value) = value

abbrev pub request_start : Context → Option ℕ
request_start ctx = entry ctx.start_entry

abbrev pub client_request_start : Context → Option ℕ
client_request_start ctx = entry ctx.client_start_entry

abbrev pub client_request_end : Context → Option ℕ
client_request_end ctx = ctx.client_end_entry

-- `[v for v in end_list if v < client_end]`: `None` is not comparable with a number.
pub valid_ends : ℕ → List (Option ℕ) → Result (List ℕ)
valid_ends client_end [] = ok []
valid_ends client_end (none ∷ ends) = raise type_error
valid_ends client_end (some v ∷ ends) =
    valid_ends client_end ends >>= (λ valid. ok (if ltb v client_end then v ∷ valid else valid))

abbrev pub maximum_from : ℕ → List ℕ → ℕ
maximum_from best [] = best
maximum_from best (v ∷ vs) = maximum_from (max best v) vs

-- `max(valid) if valid else None`
abbrev pub maximum : List ℕ → Option ℕ
maximum [] = none
maximum (v ∷ vs) = some (maximum_from v vs)

abbrev pub request_end_of : List (Option ℕ) → Option ℕ → Result (Option ℕ)
request_end_of [] client_end = ok none
request_end_of (v ∷ ends) none = ok none
request_end_of (v ∷ ends) (some client_end) =
    valid_ends client_end (v ∷ ends) >>= (λ valid. ok (maximum valid))

pub request_end : Context → Result (Option ℕ)
unfolding valid_ends
request_end ctx = request_end_of ctx.end_list ctx.client_end_entry

abbrev pub start_kept : Option ℕ → Option (Option ℕ) → Bool → Option (Option ℕ)
start_kept new_start none true = some new_start
start_kept new_start none false = none
start_kept new_start (some old) has_client_start = some old

pub update_request_start : Option ℕ → Context → Context
update_request_start new_start ctx = record ctx {
  start_entry = start_kept new_start ctx.start_entry (is_some ctx.client_start_entry);
}

pub update_request_end : Option ℕ → Context → Context
update_request_end new_end ctx = record ctx { end_list = ctx.end_list ++ (new_end ∷ []) }

abbrev pub first_kept : Option ℕ → Option (Option ℕ) → Option (Option ℕ)
first_kept new_start none = some new_start
first_kept new_start (some old) = some old

pub update_client_request_start : Option ℕ → Context → Context
update_client_request_start new_start ctx = record ctx {
  client_start_entry = first_kept new_start ctx.client_start_entry;
}

pub update_client_request_end : Option ℕ → Context → Context
update_client_request_end new_end ctx = record ctx { client_end_entry = new_end }

-- What the end of a context tells its parent, with the four values that it read.
pub propagate : Option ℕ → Option ℕ → Option ℕ → Option ℕ → Context → Context
unfolding update_request_start update_request_end update_client_request_start
    update_client_request_end
propagate start end client_start client_end parent = update_client_request_end client_end (
    update_client_request_start client_start
      (update_request_end end (update_request_start start parent)))

abbrev pub Stack : Type 0
Stack = List Context

-- __aenter__
abbrev pub enter : Stack → Stack
enter contexts = empty_context ∷ contexts

abbrev pub to_parent : Option ℕ → Option ℕ → Option ℕ → Option ℕ → Stack → Stack
to_parent start end client_start client_end [] = []
to_parent start end client_start client_end (parent ∷ contexts) =
    propagate start end client_start client_end parent ∷ contexts

-- __aexit__: the values are read before the context of the parent is restored.
pub exit : Stack → Result Stack
unfolding request_end propagate
exit [] = raise lookup_error
exit (ctx ∷ contexts) = request_end ctx >>= (λ end. ok (
    to_parent (request_start ctx) end (client_request_start ctx) (client_request_end ctx) contexts))

-- A method of the holder on the context that the variable has, with a reading of the clock.
pub data Event : Type 0 where
  entering leaving : Event
  on_client_request_start on_request_start on_request_end on_client_request_end : ℕ → Event

abbrev pub on_top : (Context → Context) → Stack → Result Stack
on_top update [] = raise lookup_error
on_top update (ctx ∷ contexts) = ok (update ctx ∷ contexts)

pub step : Event → Stack → Result Stack
unfolding exit
step entering contexts = ok (enter contexts)
step leaving contexts = exit contexts
step (on_client_request_start now) contexts =
    on_top (update_client_request_start (some now)) contexts
step (on_request_start now) contexts = on_top (update_request_start (some now)) contexts
step (on_request_end now) contexts = on_top (update_request_end (some now)) contexts
step (on_client_request_end now) contexts = on_top (update_client_request_end (some now)) contexts

pub steps : List Event → Stack → Result Stack
unfolding step
steps [] contexts = ok contexts
steps (event ∷ events) contexts = step event contexts >>= steps events
