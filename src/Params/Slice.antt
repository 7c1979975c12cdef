-- ===== src/Params/Slice.antt =====
-- osbenchmark/workload/params.py: `Slice` without streaming ingestion, over a file that is a list of
-- lines; osbenchmark/utils/io.py: `MmapSource.readlines`.
pub mod Reading
mod Tests
use solr_benchmark.Prelude.{
  ℕ, zero, suc, ◌+◌, ◌-◌, min, Option, none, some, List, [], ◌∷◌, leb, if◌then◌else◌, length, drop,
}

module _ {ℓ} {A : Type ℓ} where
  -- The lines read, and the rest of the file.
  pub readlines : ℕ → List A → List A × List A
  readlines zero file = ([], file)
  readlines (suc num_lines) [] = ([], [])
  readlines (suc num_lines) (line ∷ file) =
      let (lines, rest) = readlines num_lines file in (line ∷ lines, rest)

pub record Slice {ℓ} (A : Type ℓ) : Type ℓ where
  pub number_of_lines : ℕ
  pub current_line : ℕ
  pub bulk_size : ℕ
  pub source : List A

module _ {ℓ} {A : Type ℓ} where
  -- `__init__` and `open`, which skips the lines before the offset. Offsets has the table
  -- of the file with which lines are skipped.
  pub open_slice : ℕ → ℕ → ℕ → List A → Slice A
  open_slice offset number_of_lines bulk_size file = record {
    number_of_lines = number_of_lines;
    current_line = 0;
    bulk_size = bulk_size;
    source = drop offset file;
  }

  -- `none` is StopIteration.
  abbrev advance : Slice A → List A × List A → Option (List A × Slice A)
  advance s ([], rest) = none
  advance s (line ∷ lines, rest) = some (
    line ∷ lines,
    record s { current_line = s.current_line + length (line ∷ lines); source = rest },
  )

  -- `__next__`
  unfoldable pub next : Slice A → Option (List A × Slice A)
  unfolding readlines
  next s =
      if leb s.number_of_lines s.current_line
      then none
      else advance s (readlines (min s.bulk_size (s.number_of_lines - s.current_line)) s.source)

  -- What iteration over the slice yields.
  pub bulks : ℕ → Slice A → List (List A)
  unfolding next
  bulks zero s = []
  bulks (suc fuel) s = elim (next s) [ none ↦ [] | some (lines, s') ↦ lines ∷ bulks fuel s' ]
