-- ===== src/Metrics/Percentiles.antt =====
-- osbenchmark/metrics.py: percentiles. A percentile is a fraction, as 999 / 10 for 99.9, and so is its
-- value; a rank that the code takes in floating point is exact.
use solr_benchmark.Prelude.{
  ℕ, zero, suc, ◌+◌, ◌-◌, ◌*◌, ◌/◌, ◌%◌, ◌^◌, min, Bool, ◌||◌, List, [], ◌∷◌, ◌==◌, ltb,
  if◌then◌else◌, length, filterb, get_elem?, any,
}
use solr_benchmark.Prelude.Sorting.{sorted}
use solr_benchmark.Result.{Result, ok, raise, ◌>>=◌, assertion_error}
use solr_benchmark.Metrics.{Query, Store, get_values, entry_at}

abbrev pub Percentile : Type 0
Percentile = ℕ × ℕ

-- `float(percentile) / 100.0 * (len(sorted_values) - 1)`, over 100 times the denominator.
abbrev pub rank_of : Percentile → ℕ → ℕ
rank_of p n = p.0 * (n - 1)

abbrev pub hundred : Percentile → ℕ
hundred p = 100 * p.1

-- lower_score + (higher_score - lower_score) * fr
abbrev pub interpolated : ℕ → ℕ → ℕ → ℕ → ℕ × ℕ
interpolated lower_score higher_score part whole =
    (lower_score * whole + (higher_score - lower_score) * part, whole)

unfoldable pub percentile_value : List ℕ → Percentile → Result (ℕ × ℕ)
percentile_value sorted_values p =
    let rank = rank_of p (length sorted_values) in
    let lr = rank / hundred p in
    if rank % hundred p == 0
    then entry_at (get_elem? sorted_values lr) >>= (λ score. ok (score, 1))
    else entry_at (get_elem? sorted_values lr) >>= (λ lower_score.
      entry_at (get_elem? sorted_values (lr + 1)) >>= (λ higher_score.
        ok (interpolated lower_score higher_score (rank % hundred p) (hundred p))))

-- The value of each percentile.
pub percentiles_of : List ℕ → List Percentile → Result (List (Percentile × (ℕ × ℕ)))
unfolding percentile_value
percentiles_of sorted_values [] = ok []
percentiles_of sorted_values (p ∷ percentiles) = do
  value ← percentile_value sorted_values p
  later ← percentiles_of sorted_values percentiles
  ok ((p, value) ∷ later)

abbrev pub percentiles_or_none : List ℕ → List Percentile → Result (List (Percentile × (ℕ × ℕ)))
percentiles_or_none [] percentiles = ok []
percentiles_or_none (x ∷ values) percentiles = percentiles_of (sorted (x ∷ values)) percentiles

unfoldable pub get_percentiles :
    Query → Store → List Percentile → Result (List (Percentile × (ℕ × ℕ)))
unfolding get_values percentiles_of
get_percentiles q store percentiles = percentiles_or_none (get_values q store) percentiles

abbrev pub same_percentile : Percentile → Percentile → Bool
same_percentile p q = p.0 * q.1 == q.0 * p.1

-- `for p in candidates: if p in percentiles`
abbrev pub present : List Percentile → List Percentile → List Percentile
present percentiles candidates = filterb (λ p. any (same_percentile p) percentiles) candidates

-- `10 ** int(math.log10(sample_size))`; the fuel is enough when the size is below 10 to its power.
pub power_below : ℕ → ℕ → ℕ
power_below zero n = 1
power_below (suc fuel) n =
    let tenth = power_below fuel (n / 10) in if ltb n 10 then 1 else 10 * tenth

-- The distance of a share of the samples from a whole number of them is below a millionth.
abbrev pub is_whole : ℕ → Percentile → Bool
is_whole size p =
    let r = (size * p.0) % hundred p in ltb (min r (hundred p - r) * 10 ^ 6) (hundred p)

abbrev pub quarter : Percentile
quarter = (25, 1)

abbrev pub half : Percentile
half = (50, 1)

abbrev pub three_quarters : Percentile
three_quarters = (75, 1)

abbrev pub all_samples : Percentile
all_samples = (100, 1)

abbrev pub or_hundred : List Percentile → List Percentile
or_hundred [] = all_samples ∷ []
or_hundred (p ∷ percentiles) = p ∷ percentiles

abbrev pub suitable : ℕ → List Percentile → List Percentile
suitable sample_size percentiles =
    if sample_size == 1
    then all_samples ∷ []
    else if ltb sample_size 4
    then present percentiles (half ∷ all_samples ∷ [])
    else if ltb sample_size 10
    then present percentiles (quarter ∷ half ∷ three_quarters ∷ all_samples ∷ [])
    else filterb
        (λ p.
          is_whole (power_below sample_size sample_size) p
          || any (same_percentile p) (quarter ∷ three_quarters ∷ []))
        percentiles

unfoldable pub filter_percentiles_by_sample_size : ℕ → List Percentile → Result (List Percentile)
unfolding power_below
filter_percentiles_by_sample_size sample_size percentiles =
    if ltb sample_size 1
    then raise assertion_error
    else ok (or_hundred (suitable sample_size percentiles))
