-- ===== src/Aggregation/Averages.antt =====
-- osbenchmark/aggregator.py: a weighted average is the mean over all iterations of all test runs.
use solr_benchmark.Prelude.{
  ℕ, zero, suc, ◌*◌, ◌≤◌, ◌<◌, ◌≡◌, refl, false, sym, List, [], ◌∷◌, ◌++◌, map, ◌==◌, length,
  replicate, sum, sum-append, length-append, length-replicate, All, arith,
}
use solr_benchmark.Result.{ok}
use solr_benchmark.Aggregation.{plain, average, weighted_sum, weighted_values, average_metric}
use solr_benchmark.Prelude.Sorting.{least, largest, IsBetween, All-IsBetween}
use native.Mathlib.Nat.{mul-le-mul_right}

-- Each value as often as its test run has iterations.
abbrev pub repeated : List ℕ → List ℕ → List ℕ
repeated [] iterations = []
repeated (v ∷ values) [] = []
repeated (v ∷ values) (i ∷ iterations) = replicate i v ++ repeated values iterations

sum-replicate : (n v : ℕ) → sum (replicate n v) ≡ v * n
sum-replicate zero v = grind arith
sum-replicate (suc n) v = grind (arith, sum-replicate n v)

weighted_sum-repeated :
    (values iterations : List ℕ) → weighted_sum values iterations ≡ sum (repeated values iterations)
unfolding weighted_sum
weighted_sum-repeated [] iterations = refl
weighted_sum-repeated (v ∷ values) [] = refl
weighted_sum-repeated (v ∷ values) (i ∷ iterations) =
    rw
      (
        sum-append (replicate i v) (repeated values iterations),
        sum-replicate i v,
        weighted_sum-repeated values iterations,
      )
      refl

length-repeated :
    (values iterations : List ℕ)
    → length values ≡ length iterations
    → length (repeated values iterations) ≡ sum iterations
length-repeated [] [] e = refl
length-repeated [] (i ∷ iterations) e = absurd (omega (arith, e))
length-repeated (v ∷ values) [] e = absurd (omega (arith, e))
length-repeated (v ∷ values) (i ∷ iterations) e =
    rw
      (
        length-append (replicate i v) (repeated values iterations),
        length-replicate i v,
        length-repeated values iterations (omega (arith, e)),
      )
      refl

weighted_values-plain :
    (values iterations : List ℕ)
    → weighted_values (map plain values) iterations ≡ ok (weighted_sum values iterations)
unfolding weighted_values weighted_sum
weighted_values-plain [] iterations = refl
weighted_values-plain (v ∷ values) [] = refl
weighted_values-plain (v ∷ values) (i ∷ iterations) =
    rw (weighted_values-plain values iterations) refl

IsWithin-weighted_sum :
    (low high : ℕ) (values iterations : List ℕ)
    → length values ≡ length iterations
    → All (IsBetween low high) values
    → IsBetween (low * sum iterations) (high * sum iterations) (weighted_sum values iterations)
unfolding weighted_sum
IsWithin-weighted_sum low high [] [] e h = (grind arith, grind arith)
IsWithin-weighted_sum low high [] (i ∷ iterations) e h = absurd (omega (arith, e))
IsWithin-weighted_sum low high (v ∷ values) [] e h = absurd (omega (arith, e))
IsWithin-weighted_sum low high (v ∷ values) (i ∷ iterations) e h =
    let rest = IsWithin-weighted_sum low high values iterations (omega (arith, e)) h.1 in
    let below : low * i ≤ v * i = mul-le-mul_right i h.0.0 in
    let above : v * i ≤ high * i = mul-le-mul_right i h.0.1 in
    (grind (arith, rest.0, below), grind (arith, rest.1, above))

-- A metric of plain numbers, one from each test run, is averaged to the mean of the list that has the
-- number of each test run as often as that run has iterations, if there is an iteration at all. The
-- mean lies between the least and the largest of the numbers.
pub average_metric-mean :
    (v : ℕ) (values iterations : List ℕ)
    → length (v ∷ values) ≡ length iterations
    → 0 < sum iterations
    → (average_metric iterations (map plain (v ∷ values))
        ≡ ok (
            average
              (sum (repeated (v ∷ values) iterations), length (repeated (v ∷ values) iterations))))
      × IsBetween
          (least v values * length (repeated (v ∷ values) iterations))
          (largest v values * length (repeated (v ∷ values) iterations))
          (sum (repeated (v ∷ values) iterations))
unfolding average_metric
average_metric-mean v values iterations same some_iteration =
    let positive : (sum iterations == 0) ≡ false = ground (arith, some_iteration) in
    let total = length-repeated (v ∷ values) iterations same in
    let mean = weighted_sum-repeated (v ∷ values) iterations in
    (
      rw (weighted_values-plain (v ∷ values) iterations, positive, total, mean) refl,
      rw (total, sym mean)
          (IsWithin-weighted_sum (least v values) (largest v values) (v ∷ values) iterations same
            (All-IsBetween v values)),
    )
