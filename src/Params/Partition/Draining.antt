-- ===== src/Params/Partition/Draining.antt =====
-- How many bulks a partitioned source yields.
use native.Mathlib.Nat.{mul-le-mul_left}
use solr_benchmark.Prelude.{
  ℕ, zero, suc, ◌+◌, ◌-◌, ◌*◌, ◌≤◌, ◌<◌, ◌≡◌, refl, sym, ap, ◌∙◌, true, false, List, [], ◌∷◌, ◌==◌,
  Bool-cases, inl, inr, arith, length, take,
}
use solr_benchmark.Prelude.Rounding.{ceil_div}
use solr_benchmark.Result.{ok}
use solr_benchmark.Params.Partition.{
  PartitionSource, sorted, last_index, BulkData, total_or, init_internal_params, params, drain,
}

module _ {B : Type 0} (bulk_data : BulkData B) where
  -- Within its bulks.
  abbrev within : PartitionSource B → ℕ → ℕ → List B → PartitionSource B
  within s c total rest = record s {
    looped = false;
    current_bulk = c;
    total_bulks = total;
    internal_params = rest;
  }

  drain-within :
      (calls c total : ℕ) (rest : List B) (s : PartitionSource B)
      → 0 < c
      → c ≤ total
      → total - c ≤ length rest
      → total - c < calls
      → drain bulk_data calls (within s c total rest) ≡ take (total - c) rest
  unfolding drain params
  drain-within zero c total rest s pos ahead enough many = absurd (omega (arith, many))
  drain-within (suc calls) c total [] s pos ahead enough many =
      let begun : (c == 0) ≡ false = ground (arith, pos) in
      let over : (c == total) ≡ true = ground (arith, ahead, enough) in
      let none_left : total - c ≡ 0 = omega (arith, enough) in rw (begun, over, none_left) refl
  drain-within (suc calls) c total (b ∷ rest) s pos ahead enough many =
      let begun : (c == 0) ≡ false = ground (arith, pos) in
      elim (Bool-cases (c == total)) [
        | inl over ↦
            let none_left : total - c ≡ 0 = ground (arith, over) in rw (begun, over, none_left) refl
        | inr more ↦
            let apart : c < total = ground (arith, more, ahead) in
            let left : total - c ≡ suc (total - (c + 1)) = omega (arith, apart) in
            rw (begun, more, left)
              (ap (λ l. b ∷ l)
                (drain-within calls (c + 1) total rest s (omega arith) (omega (arith, apart))
                  (omega (arith, left, enough)) (omega (arith, left, many))))
      ]

  -- At its start, with the clients of its range.
  abbrev pub starting : PartitionSource B → PartitionSource B
  starting s = record s { looped = false; current_bulk = 0 }

  ceil_div_le : (a n : ℕ) → a ≤ n * 100 → ceil_div a 100 ≤ n
  ceil_div_le a n h = ground (arith, h)

  drain-first :
      (calls n : ℕ) (s : PartitionSource B) (start_index : ℕ) (others : List ℕ) (bulks : List B)
      → sorted s.partitions ≡ start_index ∷ others
      → bulk_data.number_of_range
          (total_or s.total_partitions)
          start_index
          (last_index start_index others)
        ≡ ok n
      → bulk_data.bulks_of_range
          (total_or s.total_partitions)
          start_index
          (last_index start_index others)
        ≡ bulks
      → ceil_div (n * s.ingest_percentage) 100 ≤ length bulks
      → ceil_div (n * s.ingest_percentage) 100 < calls
      → drain bulk_data calls (starting s) ≡ take (ceil_div (n * s.ingest_percentage) 100) bulks
  unfolding drain params init_internal_params
  drain-first zero n s start_index others bulks range count all enough many =
      absurd (omega (arith, many))
  drain-first (suc calls) n s start_index others [] range count all enough many =
      let total = ceil_div (n * s.ingest_percentage) 100 in
      let nothing : total ≡ 0 = omega (arith, enough) in rw (range, count, all, nothing) refl
  drain-first (suc calls) n s start_index others (b ∷ bulks) range count all enough many =
      let total = ceil_div (n * s.ingest_percentage) 100 in
      elim (Bool-cases (0 == total)) [
        | inl over ↦
            let nothing : total ≡ 0 = ground (arith, over) in rw (range, count, all, nothing) refl
        | inr more ↦
            let left : total ≡ suc (total - 1) = ground (arith, more) in
            rw (range, count, all, more)
              (ap (λ l. b ∷ l)
                  (drain-within calls 1 total bulks (record s { partitions = start_index ∷ others })
                    (omega arith) (omega (arith, left)) (omega (arith, left, enough))
                    (omega (arith, left, many)))
                ∙ sym (ap (λ k. take k (b ∷ bulks)) left))
      ]

  -- Without looping, and with a percentage of at most a hundred, calling `params` from the start until it
  -- raises yields exactly the first bulks of the range of clients, as many as the percentage of all
  -- bulks, rounded up; so it ends, after no more calls than bulks and one. The bulks of the
  -- range are assumed to be as many as `number_of_bulks` says.
  pub drain-starting :
      (calls n : ℕ) (s : PartitionSource B) (start_index : ℕ) (others : List ℕ) (bulks : List B)
      → sorted s.partitions ≡ start_index ∷ others
      → bulk_data.number_of_range
          (total_or s.total_partitions)
          start_index
          (last_index start_index others)
        ≡ ok n
      → bulk_data.bulks_of_range
          (total_or s.total_partitions)
          start_index
          (last_index start_index others)
        ≡ bulks
      → length bulks ≡ n
      → s.ingest_percentage ≤ 100
      → n < calls
      → drain bulk_data calls (starting s) ≡ take (ceil_div (n * s.ingest_percentage) 100) bulks
  drain-starting calls n s start_index others bulks range count all size share many =
      let fits = ceil_div_le (n * s.ingest_percentage) n (mul-le-mul_left n share) in
      drain-first calls n s start_index others bulks range count all (omega (arith, fits, size))
        (omega (arith, fits, many))
