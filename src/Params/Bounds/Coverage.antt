-- ===== src/Params/Bounds/Coverage.antt =====
-- The clients of a task divide the lines of a document set among them.
use native.Mathlib.Nat.{mul-le-mul_left, sub-zero, zero-mul}
use solr_benchmark.Prelude.{
  ℕ, zero, suc, ◌+◌, ◌-◌, ◌*◌, ◌≤◌, ◌<◌, ◌≡◌, refl, sym, ap, ◌∙◌, Bool, false, List, [], ◌++◌,
  arith, ◌==◌, range_from, range_from-append,
}
use solr_benchmark.Prelude.Rounding.{round_div_near, round_div_mono, round_div-mul}
use solr_benchmark.Result.{ok, raise}
use solr_benchmark.Params.Bounds.{Bounds, bounds, offset_docs, source_lines_per_doc}

-- The range of lines that clients from `first` to `last` read; empty if `bounds` raises.
pub lines_of : ℕ → ℕ → ℕ → ℕ → Bool → List ℕ
lines_of total first last clients with_meta = elim (bounds total first last clients with_meta) [
  | ok b ↦ range_from b.offset_lines b.lines
  | raise e ↦ []
]

-- The lines of clients i, ..., i + n - 1, one client each.
pub lines_of_clients : ℕ → ℕ → ℕ → ℕ → Bool → List ℕ
unfolding lines_of
lines_of_clients total clients i zero with_meta = []
lines_of_clients total clients i (suc n) with_meta =
    lines_of total i i clients with_meta ++ lines_of_clients total clients (i + 1) n with_meta

-- Adjacent ranges of documents give adjacent ranges of lines, at `p` lines for each document.
scale_sub : (a b p : ℕ) → a ≤ b → a * p + (b - a) * p ≡ b * p
scale_sub a b p h =
    let whole : a + (b - a) ≡ b = omega arith in
    let scaled : (a + (b - a)) * p ≡ b * p = ap (λ (t : ℕ). t * p) whole in omega arith

join_lines :
    (a b c p : ℕ)
    → a ≤ b
    → b ≤ c
    → range_from (a * p) ((b - a) * p) ++ range_from (b * p) ((c - b) * p)
      ≡ range_from (a * p) ((c - a) * p)
join_lines a b c p h k =
    range_from-append (a * p) ((b - a) * p) ((c - b) * p) (b * p) (sym (scale_sub a b p h))
    ∙ ap (range_from (a * p))
        (omega (arith, scale_sub a b p h, scale_sub b c p k, scale_sub a c p (omega arith)))

module _ (total clients : ℕ) (with_meta : Bool) (pos : 0 < clients) where
  per_doc : ℕ
  per_doc = source_lines_per_doc with_meta

  offset : ℕ → ℕ
  offset i = offset_docs total clients i

  bounds-eq-ok :
      (first last : ℕ)
      → bounds total first last clients with_meta
        ≡ ok (record {
          offset_lines = offset first * per_doc;
          docs = offset (last + 1) - offset first;
          lines = (offset (last + 1) - offset first) * per_doc;
        })
  unfolding bounds per_doc offset
  bounds-eq-ok first last =
      let some_clients : (clients == 0) ≡ false = ground arith in rw some_clients

  offset_mono : (i j : ℕ) → i ≤ j → offset i ≤ offset j
  unfolding offset
  offset_mono i j h = round_div_mono (total * i) (total * j) clients pos (mul-le-mul_left total h)

  lines_of_lem :
      (first last : ℕ)
      → lines_of total first last clients with_meta
        ≡ range_from (offset first * per_doc) ((offset (last + 1) - offset first) * per_doc)
  unfolding lines_of
  lines_of_lem first last = rw (bounds-eq-ok first last, lines_of)

  lines_of_clients_lem :
      (i n j : ℕ)
      → i + n ≡ j
      → lines_of_clients total clients i n with_meta
        ≡ range_from (offset i * per_doc) ((offset j - offset i) * per_doc)
  unfolding lines_of_clients
  lines_of_clients_lem i zero j e =
      let e' : i ≡ j = omega arith in
      let none_left : (offset i - offset i) * per_doc ≡ 0 = grind arith in rw (← e', none_left) refl
  lines_of_clients_lem i (suc n) j e =
      rw (lines_of_lem i i, lines_of_clients_lem (i + 1) n j (omega arith))
        (join_lines (offset i) (offset (i + 1)) (offset j) per_doc
          (offset_mono i (i + 1) (omega arith)) (offset_mono (i + 1) j (omega arith)))

  offset_zero : offset 0 ≡ 0
  unfolding offset
  offset_zero = ground (arith, round_div-mul 0 clients pos)

  offset_all : offset clients ≡ total
  unfolding offset
  offset_all = round_div-mul total clients pos

  -- The documents of a client, against an equal division of all documents.
  docs_near :
      (i : ℕ)
      → ((offset (i + 1) - offset i) * clients ≤ total + clients)
        × (total ≤ (offset (i + 1) - offset i) * clients + clients)
  unfolding offset
  docs_near i =
      let low = round_div_near (total * i) clients pos in
      let high = round_div_near (total * (i + 1)) clients pos in
      let gap =
        scale_sub (offset i) (offset (i + 1)) clients (offset_mono i (i + 1) (omega arith)) in
      (omega (arith, low, high, gap), omega (arith, low, high, gap))

-- The clients of a task read, one after the other, every line of the document set, each once and in
-- order: two lines for a document that has an action and meta-data line, else one.
pub lines_of_clients-eq-range :
    (total clients : ℕ) (with_meta : Bool)
    → 0 < clients
    → lines_of_clients total clients 0 clients with_meta
      ≡ range_from 0 (total * source_lines_per_doc with_meta)
unfolding per_doc
lines_of_clients-eq-range total clients with_meta pos =
    lines_of_clients_lem total clients with_meta pos 0 clients clients (omega arith)
    ∙ rw
        (
          offset_zero total clients with_meta pos,
          offset_all total clients with_meta pos,
          zero-mul,
          sub-zero,
        )
        refl

-- A worker that holds the partitions of several consecutive clients reads exactly the lines that
-- those clients read one by one.
pub lines_of-eq-lines_of_clients :
    (total clients first n : ℕ) (with_meta : Bool)
    → 0 < clients
    → lines_of total first (first + n) clients with_meta
      ≡ lines_of_clients total clients first (n + 1) with_meta
lines_of-eq-lines_of_clients total clients first n with_meta pos =
    lines_of_lem total clients with_meta pos first (first + n)
    ∙ sym (
        lines_of_clients_lem total clients with_meta pos first (n + 1) (first + n + 1)
          (omega arith))

-- No client gets a document more, or less, than one beyond an equal division of the documents, and
-- it reads as many lines as its documents have.
pub bounds_fair :
    (total clients i : ℕ) (with_meta : Bool)
    → 0 < clients
    → (b : Bounds) × (bounds total i i clients with_meta ≡ ok b)
      × (b.docs * clients ≤ total + clients)
      × (total ≤ b.docs * clients + clients)
      × (b.lines ≡ b.docs * source_lines_per_doc with_meta)
unfolding per_doc
bounds_fair total clients i with_meta pos =
    let (low, high) = docs_near total clients with_meta pos i in
    (_, bounds-eq-ok total clients with_meta pos i i, low, high, refl)
