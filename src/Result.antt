-- ===== src/Result.antt =====
-- Exceptions as values: Python's own and those of osbenchmark/exceptions.py that the models raise.
use solr_benchmark.Prelude.{◌≡◌, refl, Bool, true, false}

pub data Failure : Type 0 where
  zero_division key_error index_error value_error stop_iteration assertion_error : Failure
  invalid_syntax system_setup_error config_error benchmark_error type_error attribute_error
        lookup_error unbound_local_error workload_syntax_error :
      Failure
  -- No exception: a loop that does not end.
  does_not_end : Failure

pub data Result {ℓ} (A : Type ℓ) : Type ℓ where
  raise : Failure → Result A
  ok : A → Result A

module _ {ℓ κ} {A : Type ℓ} {B : Type κ} where
  infixl 6 ◌>>=◌ ◌>>◌
  abbrev pub ◌>>=◌ : Result A → (A → Result B) → Result B
  raise failure >>= next = raise failure
  ok value >>= next = next value

  abbrev pub ◌>>◌ : Result A → Result B → Result B
  raise failure >> rest = raise failure
  ok value >> rest = rest

  -- A sequence of two steps that succeeds: both do.
  pub bind-eq-ok :
      (first : Result A) (next : A → Result B) {result : B}
      → first >>= next ≡ ok result
      → (value : A) × (first ≡ ok value) × (next value ≡ ok result)
  bind-eq-ok (raise failure) next e = cc
  bind-eq-ok (ok value) next e = (value, refl, e)

  pub then-eq-ok :
      (first : Result A) (rest : Result B) {result : B}
      → first >> rest ≡ ok result
      → rest ≡ ok result
  then-eq-ok (raise failure) rest e = cc
  then-eq-ok (ok value) rest e = e

-- `if condition: raise failure`
abbrev pub raise_if : Bool → Failure → Result (Unit {0})
raise_if false failure = ok tt
raise_if true failure = raise failure

-- A guard in front of steps that succeed: its condition is false.
pub raise_if-eq-ok {ℓ} :
    {A : Type ℓ} (condition : Bool) (failure : Failure) (rest : Result A) {result : A}
    → raise_if condition failure >> rest ≡ ok result
    → (condition ≡ false) × (rest ≡ ok result)
raise_if-eq-ok false failure rest e = (refl, e)
raise_if-eq-ok true failure rest e = cc e

-- A check in front of steps that succeed: it succeeds.
pub then-eq-both {ℓ} :
    {A : Type ℓ} (check : Result (Unit {0})) (rest : Result A) {result : A}
    → check >> rest ≡ ok result
    → (check ≡ ok tt) × (rest ≡ ok result)
then-eq-both (raise failure) rest e = cc e
then-eq-both (ok done) rest e = (refl, e)

pub raise_if-ok :
    (condition : Bool) (failure : Failure) {done : Unit {0}}
    → raise_if condition failure ≡ ok done
    → condition ≡ false
raise_if-ok false failure e = refl
raise_if-ok true failure e = cc e
