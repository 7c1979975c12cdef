-- ===== src/Offsets.antt =====
-- osbenchmark/utils/io.py: `FileOffsetTable`, `prepare_file_offset_table` and `skip_lines`. A file is
-- its bytes, and an open file what is left of them behind its position. The table is built from the file
-- as text, with universal newlines; lines are skipped in its bytes, as in the map of `MmapSource`. A file
-- that is not UTF-8 raises where it is read as text, which is left out. A table is its lines, each a line
-- number and an offset; whether one exists or is newer than the data is the file system's.
pub mod Skipping
mod Tests
use solr_benchmark.Prelude.{
  ℕ, zero, suc, ◌+◌, ◌-◌, ◌%◌, Bool, true, false, Option, none, some, List, [], ◌∷◌, ◌++◌, ◌==◌,
  leb, ltb, if◌then◌else◌, length, drop,
}

abbrev pub newline : ℕ
newline = 10

abbrev pub carriage_return : ℕ
carriage_return = 13

-- mm.readline(): the line with its newline, and what is behind it.
abbrev pub with_byte : ℕ → List ℕ × List ℕ → List ℕ × List ℕ
with_byte b (line, rest) = (b ∷ line, rest)

pub readline : List ℕ → List ℕ × List ℕ
readline [] = ([], [])
readline (b ∷ bytes) =
    let further = readline bytes in if b == newline then (b ∷ [], bytes) else with_byte b further

-- The end of a line at a carriage return: a newline behind it belongs to it.
abbrev pub after_return : List ℕ → List ℕ × List ℕ
after_return [] = (carriage_return ∷ [], [])
after_return (b ∷ bytes) =
    if b == newline
    then (carriage_return ∷ newline ∷ [], bytes)
    else (carriage_return ∷ [], b ∷ bytes)

-- data_file.readline() of a file that is open as text: the bytes of the line, and what is behind it.
pub text_readline : List ℕ → List ℕ × List ℕ
text_readline [] = ([], [])
text_readline (b ∷ bytes) =
    let further = text_readline bytes in
    if b == newline
    then (b ∷ [], bytes)
    else if b == carriage_return
    then after_return bytes
    else with_byte b further

abbrev pub OffsetTable : Type 0
OffsetTable = List (ℕ × ℕ)

-- The loop of `find_closest_offset`, which leaves it at the first line behind the target.
pub closest_from : ℕ → OffsetTable → ℕ × ℕ → ℕ × ℕ
closest_from target_line_number [] prior = prior
closest_from target_line_number ((line_number, offset_in_bytes) ∷ table) prior =
    let further =
      closest_from target_line_number table (offset_in_bytes, target_line_number - line_number) in
    if leb line_number target_line_number then further else prior

pub find_closest_offset : ℕ → OffsetTable → ℕ × ℕ
unfolding closest_from
find_closest_offset target_line_number table =
    closest_from target_line_number table (0, target_line_number)

-- The loop of `prepare_file_offset_table`: every `every` lines (50000 in the source) an offset is
-- added. The result is the table and the number of lines. The fuel counts the lines.
abbrev pub with_offset : Bool → ℕ → ℕ → OffsetTable × ℕ → OffsetTable × ℕ
with_offset true line_number offset (table, lines) = ((line_number, offset) ∷ table, lines)
with_offset false line_number offset (table, lines) = (table, lines)

abbrev pub or_last : List ℕ → ℕ → OffsetTable × ℕ → OffsetTable × ℕ
or_last [] line_number further = ([], line_number)
or_last (b ∷ line) line_number further = further

-- What `data_file.tell()` answers is opaque for text: it is given for the whole file and what is behind
-- the position.
module _ (tell : List ℕ → List ℕ → ℕ) where
  pub read_offsets : ℕ → List ℕ → ℕ → ℕ → List ℕ → OffsetTable × ℕ
  unfolding text_readline
  read_offsets every bytes zero line_number rest = ([], line_number)
  read_offsets every bytes (suc fuel) line_number rest =
      let behind = (text_readline rest).1 in
      or_last (text_readline rest).0 line_number (
        with_offset ((line_number + 1) % every == 0) (line_number + 1) (tell bytes behind)
          (read_offsets every bytes fuel (line_number + 1) behind))

  -- The table and the number of lines that `prepare_file_offset_table` returns when there is no valid
  -- table yet, also after the download that it tries first.
  pub prepare_file_offset_table : ℕ → List ℕ → OffsetTable × ℕ
  unfolding read_offsets
  prepare_file_offset_table every bytes = read_offsets every bytes (length bytes) 0 bytes

-- for _ in range(n): data_file.readline()
pub read_lines : ℕ → List ℕ → List ℕ
unfolding readline
read_lines zero rest = rest
read_lines (suc n) rest = read_lines n (readline rest).1

abbrev pub closest_or_start : ℕ → Option OffsetTable → ℕ × ℕ
closest_or_start number_of_lines_to_skip none = (0, number_of_lines_to_skip)
closest_or_start number_of_lines_to_skip (some table) =
    find_closest_offset number_of_lines_to_skip table

-- From the start of the file.
pub skip_lines : Option OffsetTable → ℕ → List ℕ → List ℕ
unfolding read_lines find_closest_offset
skip_lines table zero bytes = bytes
skip_lines table (suc n) bytes =
    let closest = closest_or_start (suc n) table in read_lines closest.1 (drop closest.0 bytes)
