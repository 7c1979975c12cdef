-- ===== src/Prelude/Text.antt =====
-- Texts as lists of code points, for the code that walks them: the digits at the front of a text,
-- and `str` and `int` on numbers. A digit is an ASCII one.
use Prim.Native.Char.{code}
use Prim.Native.String.{String}
use solr_benchmark.Prelude.{
  ℕ, zero, suc, ◌+◌, ◌-◌, ◌*◌, ◌/◌, ◌%◌, ◌<◌, ◌≡◌, refl, Bool, true, false, ◌&&◌, List, [], ◌∷◌,
  ◌++◌, arith, leb, ltb, ◌==◌, if◌then◌else◌, All,
}

abbrev pub Text : Type 0
Text = List ℕ

-- `String` has its own `[]` and `∷`.
abbrev pub codes : String → Text
codes String.[] = []
codes (String.◌∷◌ c s) = code c ∷ codes s

abbrev pub is_digit : ℕ → Bool
is_digit c = leb b'0' c && leb c b'9'

abbrev pub is_empty : Text → Bool
is_empty [] = true
is_empty (c ∷ s) = false

abbrev pub equal_texts : Text → Text → Bool
equal_texts [] [] = true
equal_texts [] (c ∷ s) = false
equal_texts (c ∷ s) [] = false
equal_texts (c ∷ s) (d ∷ t) = if c == d then equal_texts s t else false

-- `\d*` at the front of a text, and the text behind it.
abbrev pub lead : Text → Text
lead [] = []
lead (c ∷ s) = let more = lead s in if is_digit c then c ∷ more else []

abbrev pub behind : Text → Text
behind [] = []
behind (c ∷ s) = let rest = behind s in if is_digit c then rest else c ∷ s

abbrev pub starts_digit : Text → Bool
starts_digit [] = false
starts_digit (c ∷ s) = is_digit c

-- `int` of digits that stand behind the number `n`.
abbrev pub int_of : ℕ → Text → ℕ
int_of n [] = n
int_of n (c ∷ s) = int_of (n * 10 + (c - b'0')) s

-- `str` of a number, its last digit first; the fuel is enough when the number is below it.
abbrev pub emit : ℕ → ℕ → Text → Text
emit zero n out = out
emit (suc fuel) n out =
    let more = emit fuel (n / 10) ((b'0' + n % 10) ∷ out) in
    if ltb n 10 then (b'0' + n) ∷ out else more

unfoldable pub decimal : ℕ → Text
decimal n = emit (suc n) n []

int_of-emit : (fuel n : ℕ) (out : Text) → n < fuel → int_of 0 (emit fuel n out) ≡ int_of n out
int_of-emit zero n out h = absurd (omega (arith, h))
int_of-emit (suc fuel) n out h = ground (arith, int_of-emit fuel (n / 10) ((b'0' + n % 10) ∷ out))

abbrev pub IsDigits : Text → Type 0
IsDigits s = All (λ c. is_digit c ≡ true) s

emit-IsDigits : (fuel n : ℕ) (out : Text) → IsDigits out → IsDigits (emit fuel n out)
emit-IsDigits zero n out h = h
emit-IsDigits (suc fuel) n out h =
    ground (arith, emit-IsDigits fuel (n / 10) ((b'0' + n % 10) ∷ out))

emit-cons : (fuel n c : ℕ) (out : Text) → is_empty (emit fuel n (c ∷ out)) ≡ false
emit-cons zero n c out = refl
emit-cons (suc fuel) n c out = ground (arith, emit-cons fuel (n / 10) (b'0' + n % 10) (c ∷ out))

-- What is printed is one digit or more, and reads as the number.
pub int_of-decimal : (n : ℕ) → int_of 0 (decimal n) ≡ n
unfolding decimal
int_of-decimal n = int_of-emit (suc n) n [] (omega arith)

pub decimal-IsDigits : (n : ℕ) → IsDigits (decimal n)
unfolding decimal
decimal-IsDigits n = emit-IsDigits (suc n) n [] tt

pub is_empty-decimal : (n : ℕ) → is_empty (decimal n) ≡ false
unfolding decimal
is_empty-decimal n = ground (arith, emit-cons n (n / 10) (b'0' + n % 10) [])

-- Digits in front of a text that starts with none are what `\d+` takes of it.
pub lead-append : (s rest : Text) → IsDigits s → starts_digit rest ≡ false → lead (s ++ rest) ≡ s
lead-append [] [] h e = refl
lead-append [] (c ∷ rest) h e = ground (arith, e)
lead-append (c ∷ s) rest h e = rw (h.0, lead-append s rest h.1 e) refl

pub behind-append :
    (s rest : Text) → IsDigits s → starts_digit rest ≡ false → behind (s ++ rest) ≡ rest
behind-append [] [] h e = refl
behind-append [] (c ∷ rest) h e = ground (arith, e)
behind-append (c ∷ s) rest h e = rw (h.0, behind-append s rest h.1 e) refl
