-- ===== src/Offsets/Tests.antt =====
-- The offset table of a file of three lines, the second with a carriage return and
-- the last without a newline, with an entry for each line.
use solr_benchmark.Prelude.{
  ℕ, ◌+◌, ◌-◌, ◌≡◌, refl, ap, ◌∙◌, arith, length, length-append, none, some, List, [], ◌∷◌, All,
}
use solr_benchmark.Offsets.{
  OffsetTable, prepare_file_offset_table, read_lines, skip_lines, readline, find_closest_offset,
}
use solr_benchmark.Offsets.Skipping.{Marks, IsOffset, skip_lines_lem, prepare_file_offset_table_lem}

abbrev file : List ℕ
file = 97 ∷ 98 ∷ 10 ∷ 99 ∷ 13 ∷ 10 ∷ 100 ∷ []

abbrev table : OffsetTable
table = (1, 3) ∷ (2, 6) ∷ []

lines_skipped :
    (skip_lines (some table) 2 file ≡ read_lines 2 file)
    × (skip_lines none 2 file ≡ read_lines 2 file)
unfolding read_lines readline
lines_skipped = skip_lines_lem table 2 file (refl, (refl, tt))

-- The number of bytes in front.
abbrev tell : List ℕ → List ℕ → ℕ
tell bytes rest = length bytes - length rest

IsOffset-tell : IsOffset tell file
IsOffset-tell read rest e =
    let size : length file ≡ length read + length rest = ap length e ∙ length-append read rest in
    omega (arith, size)

prepare_file_offset_table_lem_example :
    All (Marks file) (prepare_file_offset_table tell 1 file).0
    × (read_lines (prepare_file_offset_table tell 1 file).1 file ≡ [])
    × (skip_lines (some (prepare_file_offset_table tell 1 file).0) 2 file ≡ read_lines 2 file)
prepare_file_offset_table_lem_example =
    prepare_file_offset_table_lem tell 1 2 file
      (λ e. cc e, (λ e. cc e, (λ e. cc e, (λ e. cc e, (λ e. refl, (λ e. cc e, (λ e. cc e, tt)))))))
      IsOffset-tell

prepared : prepare_file_offset_table tell 2 file ≡ ((2, 6) ∷ [], 3)
unfolding prepare_file_offset_table
prepared = refl

-- "a\rb\nc\n": the text has three lines, the bytes two, and skipping the first with the table is not
-- reading it.
abbrev with_return : List ℕ
with_return = 97 ∷ 13 ∷ 98 ∷ 10 ∷ 99 ∷ 10 ∷ []

lines_of_text : prepare_file_offset_table tell 1 with_return ≡ ((1, 2) ∷ (2, 4) ∷ (3, 6) ∷ [], 3)
unfolding prepare_file_offset_table
lines_of_text = refl

lines_of_bytes : read_lines 1 with_return ≡ 99 ∷ 10 ∷ []
unfolding read_lines readline
lines_of_bytes = refl

skipped_by_text :
    skip_lines (some (prepare_file_offset_table tell 1 with_return).0) 1 with_return
    ≡ 98 ∷ 10 ∷ 99 ∷ 10 ∷ []
unfolding skip_lines prepare_file_offset_table find_closest_offset
skipped_by_text = refl

closest : find_closest_offset 4 table ≡ (6, 2)
unfolding find_closest_offset
closest = refl
