-- ===== src/Allocator/Rows.antt =====
-- What the loops of `Allocator.allocations` append to the row of each client.
use solr_benchmark.Prelude.{
  ℕ, zero, suc, ◌+◌, ◌≤◌, ◌<◌, ◌≡◌, refl, ap, ◌∙◌, ◌&&◌, List, [], ◌∷◌, ◌++◌, arith, ltb, leb, ◌==◌,
  length, get_or, replicate, if◌then◌else◌,
}
use solr_benchmark.Allocator.{Entry, idle, Matrix, append_at, append_all, append_idle}

-- The row of client `r`.
abbrev pub row : Matrix → ℕ → List Entry
row rows r = get_or rows r []

pub length-append_at :
    (i : ℕ) (e : Entry) (rows : Matrix) → length (append_at i e rows) ≡ length rows
unfolding append_at
length-append_at i e [] = refl
length-append_at zero e (x ∷ rows) = refl
length-append_at (suc i) e (x ∷ rows) = ap suc (length-append_at i e rows)

pub row-append_at :
    (i : ℕ) (e : Entry) (rows : Matrix) (r : ℕ)
    → i < length rows
    → row (append_at i e rows) r ≡ (if r == i then row rows r ++ e ∷ [] else row rows r)
unfolding append_at
row-append_at i e [] r h = elim h [ ]
row-append_at zero e (x ∷ rows) zero h = refl
row-append_at zero e (x ∷ rows) (suc r) h = ground arith
row-append_at (suc i) e (x ∷ rows) zero h = ground arith
row-append_at (suc i) e (x ∷ rows) (suc r) h =
    ground (arith, row-append_at i e rows r (omega arith))

pub length-append_idle : (i n : ℕ) (rows : Matrix) → length (append_idle i n rows) ≡ length rows
unfolding append_idle
length-append_idle i zero rows = refl
length-append_idle i (suc n) rows =
    length-append_idle (i + 1) n (append_at i idle rows) ∙ length-append_at i idle rows

pub row-append_idle :
    (i n : ℕ) (rows : Matrix) (r : ℕ)
    → i + n ≤ length rows
    → row (append_idle i n rows) r
      ≡ (if leb i r && ltb r (i + n) then row rows r ++ idle ∷ [] else row rows r)
unfolding append_idle
row-append_idle i zero rows r h = ground arith
row-append_idle i (suc n) rows r h = ground (
  arith,
  row-append_idle (i + 1) n (append_at i idle rows) r (omega (arith, length-append_at i idle rows)),
  row-append_at i idle rows r (omega arith),
)

pub length-append_all : (e : Entry) (rows : Matrix) → length (append_all e rows) ≡ length rows
unfolding append_all
length-append_all e [] = refl
length-append_all e (x ∷ rows) = ap suc (length-append_all e rows)

pub row-append_all :
    (e : Entry) (rows : Matrix) (r : ℕ)
    → r < length rows
    → row (append_all e rows) r ≡ row rows r ++ e ∷ []
unfolding append_all
row-append_all e [] r h = elim h [ ]
row-append_all e (x ∷ rows) zero h = refl
row-append_all e (x ∷ rows) (suc r) h = row-append_all e rows r (omega arith)

pub row-replicate : (n r : ℕ) → row (replicate n []) r ≡ []
row-replicate zero r = refl
row-replicate (suc n) zero = refl
row-replicate (suc n) (suc r) = row-replicate n r
