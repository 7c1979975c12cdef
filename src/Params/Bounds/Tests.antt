-- ===== src/Params/Bounds/Tests.antt =====
-- The theorems on `bounds` at concrete numbers, and runs of the functions.
use solr_benchmark.Prelude.{◌+◌, ◌*◌, ◌≤◌, ◌≡◌, refl, true, false, [], ◌∷◌, arith, range_from}
use solr_benchmark.Result.{ok, raise, zero_division}
use solr_benchmark.Params.Bounds.{Bounds, bounds, number_of_bulks}
use solr_benchmark.Params.Bounds.Coverage.{
  lines_of, lines_of_clients, lines_of_clients-eq-range, lines_of-eq-lines_of_clients, bounds_fair,
}

third_of_ten : bounds 10 2 2 3 true ≡ ok (record { offset_lines = 14; docs = 3; lines = 6 })
unfolding bounds
third_of_ten = refl

no_clients : bounds 10 0 0 0 false ≡ raise zero_division
unfolding bounds
no_clients = refl

bulks_of_ten :
    number_of_bulks
      (record { number_of_documents = 10; includes_action_and_meta_data = false } ∷ [])
      0
      1
      3
      2
    ≡ ok 4
unfolding number_of_bulks
bulks_of_ten = refl

lines_of_clients-eq-range_example : lines_of_clients 10 3 0 3 true ≡ range_from 0 20
lines_of_clients-eq-range_example = lines_of_clients-eq-range 10 3 true (omega arith)

lines_of-eq-lines_of_clients_example :
    lines_of 10 1 (1 + 1) 3 true ≡ lines_of_clients 10 3 1 (1 + 1) true
lines_of-eq-lines_of_clients_example = lines_of-eq-lines_of_clients 10 3 1 1 true (omega arith)

bounds_fair_example :
    (b : Bounds) × (bounds 10 1 1 3 true ≡ ok b)
    × (b.docs * 3 ≤ 10 + 3)
    × (10 ≤ b.docs * 3 + 3)
    × (b.lines ≡ b.docs * 2)
bounds_fair_example = bounds_fair 10 3 1 true (omega arith)
