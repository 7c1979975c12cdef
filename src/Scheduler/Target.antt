-- ===== src/Scheduler/Target.antt =====
-- osbenchmark/workload/workload.py: the parameters `target-throughput` and `target-interval` of a task.
-- A number is a fraction that is not negative; `\s` and `\w` are the ASCII classes.
use solr_benchmark.Prelude.{
  ℕ, ◌^◌, Bool, true, false, not, ◌&&◌, ◌||◌, Option, none, some, [], ◌∷◌, ◌++◌, ◌==◌, leb,
  if◌then◌else◌, length,
}
use solr_benchmark.Prelude.Text.{Text, codes, lead, behind, int_of, is_digit, is_empty}
use solr_benchmark.Result.{Result, ok, raise, invalid_syntax}

-- A value of a task's parameters; `other` is a list or an object, which is true or false as a condition.
pub data Param : Type 0 where
  absent : Param
  boolean : Bool → Param
  number : ℕ → ℕ → Param
  text : Text → Param
  other : Bool → Param

abbrev pub is_true : Param → Bool
is_true absent = false
is_true (boolean b) = b
is_true (number numerator denominator) = not (numerator == 0)
is_true (text s) = not (is_empty s)
is_true (other b) = b

abbrev pub is_present : Param → Bool
is_present absent = false
is_present (boolean b) = true
is_present (number numerator denominator) = true
is_present (text s) = true
is_present (other b) = true

pub record Target : Type 0 where
  pub numerator : ℕ
  pub denominator : ℕ
  pub target_unit : Text

abbrev pub is_space : ℕ → Bool
is_space c = (leb 9 c && leb c 13) || (leb 28 c && leb c 32)

abbrev pub is_word : ℕ → Bool
is_word c = is_digit c || ((leb b'A' c && leb c b'Z') || ((leb b'a' c && leb c b'z') || c == b'_'))

-- `\w*` and what is behind it.
abbrev pub word : Text → Text
word [] = []
word (c ∷ s) = let more = word s in if is_word c then c ∷ more else []

abbrev pub behind_word : Text → Text
behind_word [] = []
behind_word (c ∷ s) = let rest = behind_word s in if is_word c then rest else c ∷ s

abbrev pub is_per_second : Text → Bool
is_per_second [] = false
is_per_second (c ∷ []) = false
is_per_second (c ∷ d ∷ s) = c == b'/' && d == b's'

-- `\s(?P<unit>\w+/s)`
abbrev pub unit_match : Text → Option Text
unit_match [] = none
unit_match (c ∷ s) =
    if is_space c && (not (is_empty (word s)) && is_per_second (behind_word s))
    then some (word s ++ codes "/s")
    else none

abbrev pub with_unit : ℕ → ℕ → Option Text → Option Target
with_unit numerator denominator none = none
with_unit numerator denominator (some found) =
    some (record { numerator = numerator; denominator = denominator; target_unit = found })

-- `\d+` behind a dot: the digits in front and behind it, as `float` reads them.
abbrev pub decimals : Text → Text → Option Target
decimals whole s =
    if is_empty (lead s)
    then none
    else with_unit (int_of 0 (whole ++ lead s)) (10 ^ length (lead s)) (unit_match (behind s))

abbrev pub wholes : Text → Text → Option Target
wholes whole s = if is_empty whole then none else with_unit (int_of 0 whole) 1 (unit_match s)

-- `(?P<value>(\d*\.)?\d+)`: the part up to a dot is taken where there is a dot.
abbrev pub value_match : Text → Text → Option Target
value_match whole [] = wholes whole []
value_match whole (c ∷ s) = if c == b'.' then decimals whole s else wholes whole (c ∷ s)

-- re.match(Task.THROUGHPUT_PATTERN, target_throughput)
pub match_throughput : Text → Option Target
match_throughput s = value_match (lead s) (behind s)

-- `if value: return Throughput(value, unit)`
abbrev pub nonzero : Target → Option Target
nonzero target = if target.numerator == 0 then none else some target

abbrev pub parsed : Option Target → Result (Option Target)
parsed none = raise invalid_syntax
parsed (some target) = ok (nonzero target)

abbrev pub ops_per_second : Text
ops_per_second = codes "ops/s"

-- `1 / float(target_interval)` of an interval that is true as a condition.
abbrev pub from_interval : Param → Result (Option Target)
from_interval (number numerator denominator) = ok (
    nonzero
      (record { numerator = denominator; denominator = numerator; target_unit = ops_per_second }))
from_interval absent = raise invalid_syntax
from_interval (boolean b) = raise invalid_syntax
from_interval (text s) = raise invalid_syntax
from_interval (other b) = raise invalid_syntax

abbrev pub from_throughput : Param → Result (Option Target)
from_throughput (text s) = parsed (match_throughput s)
from_throughput (number numerator denominator) = ok (
    nonzero
      (record { numerator = numerator; denominator = denominator; target_unit = ops_per_second }))
from_throughput absent = raise invalid_syntax
from_throughput (boolean b) = raise invalid_syntax
from_throughput (other b) = raise invalid_syntax

-- `target_throughput` of a task, by its two parameters.
unfoldable pub target_throughput : Param → Param → Result (Option Target)
unfolding match_throughput
target_throughput interval throughput =
    if is_present interval && is_present throughput
    then raise invalid_syntax
    else if is_true interval
    then from_interval interval
    else if is_true throughput
    then from_throughput throughput
    else ok none
