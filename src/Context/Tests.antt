-- ===== src/Context/Tests.antt =====
-- Requests in contexts of their own, inside the context of a logical request.
use solr_benchmark.Prelude.{◌≡◌, refl, some, [], ◌∷◌, arith}
use solr_benchmark.Result.{ok, raise, type_error}
use solr_benchmark.Context.{
  Context, empty_context, entering, leaving, on_client_request_start, on_client_request_end, steps,
  request_start, request_end, client_request_start, client_request_end,
}
use solr_benchmark.Context.Nesting.{Request, events, last_end, last_client_end, events-spanned}

abbrev first : Request
first = record { client_start = 2; start = 3; end = 5; client_end = 6 }

abbrev second : Request
second = record { client_start = 7; start = 8; end = 9; client_end = 11 }

events-spanned_example :
    (ctx : Context) × (steps
        (on_client_request_start 1 ∷ events (first ∷ second ∷ []))
        (empty_context ∷ [])
      ≡ ok (ctx ∷ []))
    × (client_request_start ctx ≡ some 1)
    × (request_start ctx ≡ some 3)
    × (request_end ctx ≡ ok (some (last_end 5 (second ∷ []))))
    × (client_request_end ctx ≡ some (last_client_end 6 (second ∷ [])))
events-spanned_example = events-spanned 1 first (second ∷ []) [] (
  omega arith,
  omega arith,
  omega arith,
  omega arith,
  (omega arith, omega arith, omega arith, omega arith, tt),
)

-- Without a start of its own the context loses the start of its first request.
first_start_lost :
    steps (events (first ∷ second ∷ [])) (empty_context ∷ [])
    ≡ ok (
        record {
          start_entry = some (some 8);
          end_list = some 5 ∷ some 9 ∷ [];
          client_start_entry = some (some 2);
          client_end_entry = some 11;
        }
        ∷ [])
unfolding steps
first_start_lost = refl

-- A context in which no request was made leaves an end of `None` to its parent, which then fails.
no_request :
    steps
      (on_client_request_start 1 ∷ entering ∷ leaving ∷ on_client_request_end 4 ∷ leaving ∷ [])
      (empty_context ∷ [])
    ≡ raise type_error
unfolding steps
no_request = refl
