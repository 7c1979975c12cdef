-- ===== src/Offsets/Skipping.antt =====
-- Skipping lines with an offset table against reading them.
use solr_benchmark.Prelude.{
  ℕ, zero, suc, ◌+◌, ◌-◌, ◌%◌, ◌≤◌, ◌≡◌, refl, sym, ap, ◌∙◌, Bool, true, false, ==_iff, none, some,
  List, [], ◌∷◌, ◌++◌, append_assoc, ◌==◌, leb, Bool-cases, ◌⊎◌, inl, inr, arith, length,
  length-append, drop, All,
}
use solr_benchmark.Offsets.{
  newline, carriage_return, with_byte, after_return, text_readline, readline, OffsetTable,
  closest_from, find_closest_offset, with_offset, read_offsets, prepare_file_offset_table,
  read_lines, skip_lines,
}

-- A line and what is behind it are all there was.
append-readline : (bytes : List ℕ) → (readline bytes).0 ++ (readline bytes).1 ≡ bytes
unfolding readline
append-readline [] = refl
append-readline (b ∷ bytes) = elim (Bool-cases (b == newline)) [
  | inl ends ↦ rw ends refl
  | inr goes ↦ rw goes (ap (λ l. b ∷ l) (append-readline bytes))
]

List-cases : (xs : List ℕ) → (xs ≡ []) ⊎ ((x : ℕ) × (ys : List ℕ) × (xs ≡ x ∷ ys))
List-cases [] = inl refl
List-cases (x ∷ xs) = inr (x, xs, refl)

-- An empty line is read at the end only.
at_end : (bytes : List ℕ) → (readline bytes).0 ≡ [] → bytes ≡ []
unfolding readline
at_end [] e = refl
at_end (b ∷ bytes) e = elim (Bool-cases (b == newline)) [
  | inl ends ↦ cc (rw ends at e)
  | inr goes ↦ cc (rw goes at e)
]

drop-append : (xs ys : List ℕ) → drop (length xs) (xs ++ ys) ≡ ys
drop-append [] ys = refl
drop-append (x ∷ xs) ys = drop-append xs ys

read_lines-add :
    (k l : ℕ) (bytes : List ℕ) → read_lines k (read_lines l bytes) ≡ read_lines (l + k) bytes
unfolding read_lines
read_lines-add k zero bytes = let e : 0 + k ≡ k = omega arith in rw e refl
read_lines-add k (suc l) bytes =
    let e : suc l + k ≡ suc (l + k) = omega arith in rw e (read_lines-add k l (readline bytes).1)

-- At the offset the file is where it is after so many lines.
abbrev pub Marks : List ℕ → ℕ × ℕ → Type 0
Marks bytes (line_number, offset) = drop offset bytes ≡ read_lines line_number bytes

module _ (bytes : List ℕ) (n : ℕ) where
  abbrev Leads : ℕ × ℕ → Type 0
  Leads (offset, remaining) = read_lines remaining (drop offset bytes) ≡ read_lines n bytes

  Leads-closest_from :
      (table : OffsetTable) (prior : ℕ × ℕ)
      → All (Marks bytes) table
      → Leads prior
      → Leads (closest_from n table prior)
  unfolding closest_from
  Leads-closest_from [] prior marked leads = leads
  Leads-closest_from ((line_number, offset) ∷ table) prior marked leads =
      elim (Bool-cases (leb line_number n)) [
        | inr behind ↦ rw behind leads
        | inl ahead ↦
            let fits : line_number + (n - line_number) ≡ n = ground (arith, ahead) in
            let here : Leads (offset, n - line_number) = rw (marked.0, read_lines-add, fits) refl in
            rw ahead (Leads-closest_from table (offset, n - line_number) marked.1 here)
      ]

-- With any table whose entries are marks of the file, or with none, skipping lines leaves the file
-- where reading them one by one does, also beyond its end.
pub skip_lines_lem :
    (table : OffsetTable) (n : ℕ) (bytes : List ℕ)
    → All (Marks bytes) table
    → (skip_lines (some table) n bytes ≡ read_lines n bytes)
      × (skip_lines none n bytes ≡ read_lines n bytes)
unfolding skip_lines find_closest_offset read_lines
skip_lines_lem table zero bytes marked = (refl, refl)
skip_lines_lem table (suc n) bytes marked =
    (Leads-closest_from bytes (suc n) table (0, suc n) marked refl, refl)

-- Behind each carriage return there is a newline.
abbrev pub starts_with_newline : List ℕ → Bool
starts_with_newline [] = false
starts_with_newline (b ∷ bytes) = b == newline

abbrev pub IsPaired : List ℕ → Type 0
IsPaired [] = Unit
IsPaired (b ∷ bytes) =
    ((b == carriage_return) ≡ true → starts_with_newline bytes ≡ true) × IsPaired bytes

readline-after_return :
    (bytes : List ℕ)
    → starts_with_newline bytes ≡ true
    → after_return bytes ≡ with_byte carriage_return (readline bytes)
unfolding readline
readline-after_return [] e = cc e
readline-after_return (b ∷ bytes) e =
    let same : b ≡ newline = (==_iff b newline).0 e in rw (e, same) refl

-- Then a line of the text is one of the bytes.
text_readline-eq : (bytes : List ℕ) → IsPaired bytes → text_readline bytes ≡ readline bytes
unfolding text_readline readline
text_readline-eq [] h = refl
text_readline-eq (b ∷ bytes) h = elim (Bool-cases (b == newline)) [
  | inl ends ↦ rw ends refl
  | inr goes ↦ elim (Bool-cases (b == carriage_return)) [
    | inl returns ↦
        let same : b ≡ carriage_return = (==_iff b carriage_return).0 returns in
        rw (goes, returns)
          (readline-after_return bytes (h.0 returns)
            ∙ ap (λ c. with_byte c (readline bytes)) (sym same))
    | inr other ↦ rw (goes, other) (ap (with_byte b) (text_readline-eq bytes h.1))
  ]
]

IsPaired-readline : (bytes : List ℕ) → IsPaired bytes → IsPaired (readline bytes).1
unfolding readline
IsPaired-readline [] h = tt
IsPaired-readline (b ∷ bytes) h = elim (Bool-cases (b == newline)) [
  | inl ends ↦ rw ends h.1
  | inr goes ↦ rw goes (IsPaired-readline bytes h.1)
]

-- What the table relies on: the answer of `tell` is the number of bytes in front of the position.
abbrev pub IsOffset : (List ℕ → List ℕ → ℕ) → List ℕ → Type 0
IsOffset tell bytes = (read rest : List ℕ) → bytes ≡ read ++ rest → tell bytes rest ≡ length read

module _ (tell : List ℕ → List ℕ → ℕ) (every : ℕ) (bytes : List ℕ)
    (offsets : IsOffset tell bytes) where
  Marks-tell :
      (read rest : List ℕ) (line_number : ℕ)
      → bytes ≡ read ++ rest
      → rest ≡ read_lines line_number bytes
      → Marks bytes (line_number, tell bytes rest)
  Marks-tell read rest line_number e r =
      rw (offsets read rest e) (ap (drop (length read)) e ∙ drop-append read rest ∙ r)

  with_mark :
      (added : Bool) (line_number offset : ℕ) (further : OffsetTable × ℕ)
      → Marks bytes (line_number, offset)
      → All (Marks bytes) further.0 × (read_lines further.1 bytes ≡ [])
      → All (Marks bytes) (with_offset added line_number offset further).0
        × (read_lines (with_offset added line_number offset further).1 bytes ≡ [])
  with_mark true line_number offset further here rest_marks = ((here, rest_marks.0), rest_marks.1)
  with_mark false line_number offset further here rest_marks = rest_marks

  AreMarks-read_offsets :
      (fuel line_number : ℕ) (read rest : List ℕ)
      → bytes ≡ read ++ rest
      → rest ≡ read_lines line_number bytes
      → IsPaired rest
      → length rest ≤ fuel
      → All (Marks bytes) (read_offsets tell every bytes fuel line_number rest).0
        × (read_lines (read_offsets tell every bytes fuel line_number rest).1 bytes ≡ [])
  unfolding read_offsets read_lines
  AreMarks-read_offsets zero line_number read [] e r paired enough = (tt, sym r)
  AreMarks-read_offsets zero line_number read (b ∷ rest) e r paired enough =
      absurd (omega (arith, enough))
  AreMarks-read_offsets (suc fuel) line_number read rest e r paired enough =
      elim (List-cases (readline rest).0) [
        | inl empty ↦ rw (text_readline-eq rest paired, empty) (tt, sym r ∙ at_end rest empty)
        | inr (b, line, full) ↦
            let behind = (readline rest).1 in
            let whole : (b ∷ line) ++ behind ≡ rest = rw full at (append-readline rest) in
            let sizes : length (b ∷ line) + length behind ≡ length rest =
              sym (length-append (b ∷ line) behind) ∙ ap length whole in
            let e' : bytes ≡ (read ++ b ∷ line) ++ behind =
              e ∙ ap (λ l. read ++ l) (sym whole) ∙ sym (append_assoc read (b ∷ line) behind) in
            let r' : behind ≡ read_lines (line_number + 1) bytes =
              ap (λ l. (readline l).1) r ∙ read_lines-add 1 line_number bytes in
            let here = Marks-tell (read ++ b ∷ line) behind (line_number + 1) e' r' in
            let rest_marks =
              AreMarks-read_offsets fuel (line_number + 1) (read ++ b ∷ line) behind e' r'
                (IsPaired-readline rest paired) (omega (arith, sizes, enough)) in
            rw (text_readline-eq rest paired, full)
              (with_mark ((line_number + 1) % every == 0) (line_number + 1) (tell bytes behind) _
                here rest_marks)
      ]

-- Of a file with no carriage return but in front of a newline, and where `tell` answers with the number
-- of bytes: every entry of the table that is prepared from its text is a mark of its bytes, whatever the
-- distance between entries, and the number of lines that is returned is that of the whole file:
-- behind so many lines of its bytes there is nothing. So skipping lines with this table is reading them.
pub prepare_file_offset_table_lem :
    (tell : List ℕ → List ℕ → ℕ) (every n : ℕ) (bytes : List ℕ)
    → IsPaired bytes
    → IsOffset tell bytes
    → All (Marks bytes) (prepare_file_offset_table tell every bytes).0
      × (read_lines (prepare_file_offset_table tell every bytes).1 bytes ≡ [])
      × (skip_lines (some (prepare_file_offset_table tell every bytes).0) n bytes
          ≡ read_lines n bytes)
unfolding prepare_file_offset_table read_lines
prepare_file_offset_table_lem tell every n bytes paired offsets =
    let (marked, all) =
      AreMarks-read_offsets tell every bytes offsets (length bytes) 0 [] bytes refl refl paired
        (omega arith) in
    (marked, all, (skip_lines_lem (prepare_file_offset_table tell every bytes).0 n bytes marked).0)
