-- ===== src/Params/Slice/Tests.antt =====
-- The theorem on slices at a concrete file, and a run.
use solr_benchmark.Prelude.{ℕ, ◌≡◌, refl, List, [], ◌∷◌, arith, length, take, drop, flatten}
use solr_benchmark.Params.Bounds.{bulks_of}
use solr_benchmark.Params.Slice.{open_slice, bulks}
use solr_benchmark.Params.Slice.Reading.{AreFull, bulks-open_slice}

abbrev file : List ℕ
file = 10 ∷ 11 ∷ 12 ∷ 13 ∷ 14 ∷ 15 ∷ 16 ∷ []

runs : bulks 9 (open_slice 1 5 2 file) ≡ (11 ∷ 12 ∷ []) ∷ (13 ∷ 14 ∷ []) ∷ (15 ∷ []) ∷ []
unfolding bulks open_slice
runs = refl

bulks-open_slice_example :
    (flatten (bulks 9 (open_slice 1 5 2 file)) ≡ take 5 (drop 1 file))
    × (length (bulks 9 (open_slice 1 5 2 file)) ≡ bulks_of (length (take 5 (drop 1 file))) 2)
    × AreFull 2 (bulks 9 (open_slice 1 5 2 file))
bulks-open_slice_example = bulks-open_slice 1 5 2 file 9 (omega arith) (omega arith)
