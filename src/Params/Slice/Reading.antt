-- ===== src/Params/Slice/Reading.antt =====
-- What a slice yields, against the lines of the file.
use native.Mathlib.Nat.{
  div-eq-sub-div, mod-eq-sub-mod, div-eq_of_lt, mod-eq_of_lt, zero-div, zero-mod,
}
use native.Mathlib.Decide.{dec_lt}
use solr_benchmark.Prelude.{
  true, false, ◌⊎◌, ℕ, zero, suc, ◌+◌, ◌-◌, ◌≤◌, ◌<◌, min, ◌≡◌, refl, sym, ap, ◌∙◌, inl, inr, none,
  some, List, [], ◌∷◌, ◌++◌, arith, leb, Bool-cases, length, take, drop, flatten,
}
use solr_benchmark.Params.Bounds.{bulks_of}
use solr_benchmark.Params.Slice.{Slice, readlines, open_slice, next, bulks}

module _ {ℓ} {A : Type ℓ} where
  readlines_lem : (n : ℕ) (file : List A) → readlines n file ≡ (take n file, drop n file)
  unfolding readlines
  readlines_lem zero file = refl
  readlines_lem (suc n) [] = refl
  readlines_lem (suc n) (line ∷ file) = rw (readlines_lem n file) refl

  take-nil : (n : ℕ) → take {A = A} n [] ≡ []
  take-nil zero = refl
  take-nil (suc n) = refl

  -- Reading `k` lines first, of `n`, leaves the others.
  take-append_rest :
      (k n : ℕ) (xs : List A)
      → k ≤ n
      → take k xs ++ take (n - length (take k xs)) (drop k xs) ≡ take n xs
  take-append_rest zero n xs h = ap (λ t. take t xs) (omega arith)
  take-append_rest (suc k) n [] h = take-nil (n - 0) ∙ sym (take-nil n)
  take-append_rest (suc k) zero (x ∷ xs) h = elim h [ ]
  take-append_rest (suc k) (suc n) (x ∷ xs) h =
      let shift : suc n - suc (length (take k xs)) ≡ n - length (take k xs) = omega arith in
      rw shift (ap (λ l. x ∷ l) (take-append_rest k n xs (omega arith)))

  -- A step on a slice that has lines left reads a full bulk, or what is left.
  module _ (s : Slice A) (line : A) (file : List A) (left : s.source ≡ line ∷ file)
      (more : s.current_line < s.number_of_lines) (pos : 0 < s.bulk_size) where
    abbrev size : ℕ
    size = min s.bulk_size (s.number_of_lines - s.current_line)

    abbrev after : Slice A
    after = record s {
      current_line = s.current_line + length (take size s.source);
      source = drop size s.source;
    }

    next-eq-some : next s ≡ some (take size s.source, after)
    unfolding next
    next-eq-some =
        let k : ℕ = min s.bulk_size (s.number_of_lines - s.current_line) in
        let not_done : leb s.number_of_lines s.current_line ≡ false = ground arith in
        let some_lines : k ≡ suc (k - 1) = omega arith in
        rw (not_done, readlines_lem k s.source, left, some_lines) refl

  next-eq-none :
      (s : Slice A) → (s.number_of_lines ≤ s.current_line) ⊎ (s.source ≡ []) → next s ≡ none
  unfolding next
  next-eq-none s (inl done) =
      let over : leb s.number_of_lines s.current_line ≡ true = ground arith in rw over
  next-eq-none s (inr empty) = elim (Bool-cases (leb s.number_of_lines s.current_line)) [
    | inl over ↦ rw over
    | inr more ↦ rw (more, readlines_lem, empty, take-nil) refl
  ]

  -- The lines that the slice still has to deliver.
  abbrev pub pending : Slice A → List A
  pending s = take (s.number_of_lines - s.current_line) s.source

  length-take : (n : ℕ) (xs : List A) → length (take n xs) ≡ min n (length xs)
  length-take zero xs = omega arith
  length-take (suc n) [] = omega arith
  length-take (suc n) (x ∷ xs) = omega (arith, length-take n xs)

  length-drop : (n : ℕ) (xs : List A) → length (drop n xs) ≡ length xs - n
  length-drop zero xs = omega arith
  length-drop (suc n) [] = omega arith
  length-drop (suc n) (x ∷ xs) = omega (arith, length-drop n xs)

bulks_of-zero : (b : ℕ) → bulks_of 0 b ≡ 0
bulks_of-zero b = ground (arith, zero-div b, zero-mod b)

-- A bulk covers its share of the lines.
bulks_of-step : (n b : ℕ) → 0 < n → 0 < b → bulks_of n b ≡ suc (bulks_of (n - min b n) b)
bulks_of-step n b pos pos_b = elim (dec_lt n b) [
  | yes short ↦
      let none_left : n - min b n ≡ 0 = omega arith in
      rw none_left (ground (arith, bulks_of-zero b, div-eq_of_lt short, mod-eq_of_lt short))
  | no long ↦
      let rest : n - min b n ≡ n - b = omega arith in
      rw rest (
        ground (
          arith,
          div-eq-sub-div {m = b} {n = n} pos_b (omega arith),
          mod-eq-sub-mod {n = n} {m = b} (omega arith),
        ))
]

-- Every bulk but the last is full, and the last is not empty.
abbrev pub AreFull {ℓ} : {A : Type ℓ} → ℕ → List (List A) → Type 0
AreFull b [] = Unit
AreFull b (lines ∷ []) = (0 < length lines) × (length lines ≤ b)
AreFull b (lines ∷ next ∷ rest) = (length lines ≡ b) × AreFull b (next ∷ rest)

record Delivers {ℓ} {A : Type ℓ} (s : Slice A) (out : List (List A)) : Type ℓ where
  lines : flatten out ≡ pending s
  count : length out ≡ bulks_of (length (pending s)) s.bulk_size
  full : AreFull s.bulk_size out

module _ {ℓ} {A : Type ℓ} where
  List-cases : (xs : List A) → (xs ≡ []) ⊎ ((x : A) × (rest : List A) × (xs ≡ x ∷ rest))
  List-cases [] = inl refl
  List-cases (x ∷ rest) = inr (x, rest, refl)

  stopped : (s : Slice A) → pending s ≡ [] → Delivers s []
  stopped s e = record { lines = sym e; count = rw e (sym (bulks_of-zero s.bulk_size)); full = tt }

  all_read : (s : Slice A) → s.number_of_lines ≤ s.current_line → pending s ≡ []
  all_read s h = let no_lines : s.number_of_lines - s.current_line ≡ 0 = omega arith in rw no_lines

  module _ (s : Slice A) (line : A) (file : List A) (left : s.source ≡ line ∷ file)
      (more : s.current_line < s.number_of_lines) (pos : 0 < s.bulk_size) where
    abbrev rest : Slice A
    rest = after s line file left more pos

    pending-after : take (size s line file left more pos) s.source ++ pending rest ≡ pending s
    pending-after =
        let k : ℕ = min s.bulk_size (s.number_of_lines - s.current_line) in
        let read : s.number_of_lines - (s.current_line + length (take k s.source))
            ≡ (s.number_of_lines - s.current_line) - length (take k s.source) =
          omega arith in
        rw read (take-append_rest k (s.number_of_lines - s.current_line) s.source (omega arith))

    length-pending_pos : 0 < length (pending s)
    length-pending_pos =
        omega (arith, length-take (s.number_of_lines - s.current_line) s.source, ap length left)

    length-pending_after :
        length (pending rest) ≡ length (pending s) - min s.bulk_size (length (pending s))
    length-pending_after =
        let k : ℕ = min s.bulk_size (s.number_of_lines - s.current_line) in
        omega (
          arith,
          length-take (s.number_of_lines - s.current_line) s.source,
          length-take k s.source,
          length-drop k s.source,
          length-take (s.number_of_lines - (s.current_line + length (take k s.source)))
              (drop k s.source),
        )

    full-cons :
        (out : List (List A))
        → Delivers rest out
        → AreFull s.bulk_size (take (size s line file left more pos) s.source ∷ out)
    full-cons [] d = omega (
      arith,
      length-take (size s line file left more pos) s.source,
      ap length left,
      length-take (s.number_of_lines - s.current_line) s.source,
    )
    full-cons (next ∷ out) d =
        let unread : 0 < length (pending rest) = elim (dec_lt 0 (length (pending rest))) [
          | yes h ↦ h
          | no h ↦
              let z : length (pending rest) ≡ 0 = omega arith in
              absurd (
                omega
                  (arith, d.count ∙ ap (λ t. bulks_of t s.bulk_size) z, bulks_of-zero s.bulk_size))
        ] in
        (
          omega (
            arith,
            length-pending_after,
            length-take (size s line file left more pos) s.source,
            length-take (s.number_of_lines - s.current_line) s.source,
          ),
          d.full,
        )

    Delivers-cons :
        (out : List (List A))
        → Delivers rest out
        → Delivers s (take (size s line file left more pos) s.source ∷ out)
    Delivers-cons out d = record {
      lines = ap (λ l. take (size s line file left more pos) s.source ++ l) d.lines ∙ pending-after;
      count =
          ap suc (d.count ∙ ap (λ t. bulks_of t s.bulk_size) length-pending_after)
          ∙ sym (bulks_of-step (length (pending s)) s.bulk_size length-pending_pos pos);
      full = full-cons out d;
    }

  bulks_end : (fuel : ℕ) (s : Slice A) → next s ≡ none → bulks (suc fuel) s ≡ []
  unfolding bulks
  bulks_end fuel s e = rw (e, bulks)

  bulks_step :
      (fuel : ℕ) (s s' : Slice A) (lines : List A)
      → next s ≡ some (lines, s')
      → bulks (suc fuel) s ≡ lines ∷ bulks fuel s'
  unfolding bulks
  bulks_step fuel s s' lines e = rw (e, bulks)

  Delivers-bulks :
      (fuel : ℕ) (s : Slice A)
      → 0 < s.bulk_size
      → length (pending s) < fuel
      → Delivers s (bulks fuel s)
  Delivers-bulks zero s pos enough = elim enough [ ]
  Delivers-bulks (suc fuel) s pos enough = elim (dec_lt s.current_line s.number_of_lines) [
    | yes more ↦ elim (List-cases s.source) [
      | inl empty ↦
          rw (bulks_end fuel s (next-eq-none s (inr empty)))
            (stopped s (ap (take (s.number_of_lines - s.current_line)) empty ∙ take-nil _))
      | inr (line, file, left) ↦
          rw (bulks_step fuel s _ _ (next-eq-some s line file left more pos)) (
            Delivers-cons s line file left more pos _ (
              Delivers-bulks fuel (after s line file left more pos) pos (
                omega (
                  arith,
                  length-pending_after s line file left more pos,
                  length-pending_pos s line file left more pos,
                ))))
    ]
    | no done ↦
        rw (bulks_end fuel s (next-eq-none s (inl (omega arith))))
          (stopped s (all_read s (omega arith)))
  ]

-- Reading a slice to its end takes one step for each bulk and ends: the bulks are together the
-- slice's lines of the file, in order, they are as many as a division of those lines by the bulk
-- size, rounded up, gives, and each is full but for the last, which is not empty.
pub bulks-open_slice {ℓ} :
    {A : Type ℓ} (offset lines bulk_size : ℕ) (file : List A) (fuel : ℕ)
    → 0 < bulk_size
    → lines < fuel
    → (flatten (bulks fuel (open_slice offset lines bulk_size file))
        ≡ take lines (drop offset file))
      × (length (bulks fuel (open_slice offset lines bulk_size file))
          ≡ bulks_of (length (take lines (drop offset file))) bulk_size)
      × AreFull bulk_size (bulks fuel (open_slice offset lines bulk_size file))
unfolding open_slice
bulks-open_slice {A} offset lines bulk_size file fuel pos enough =
    let s : Slice A = open_slice offset lines bulk_size file in
    let whole : pending s ≡ take lines (drop offset file) =
      ap (λ t. take t (drop offset file)) (omega arith) in
    let d =
      Delivers-bulks fuel s pos
        (omega (arith, length-take lines (drop offset file), ap length whole)) in
    (d.lines ∙ whole, d.count ∙ ap (λ t. bulks_of (length t) bulk_size) whole, d.full)
