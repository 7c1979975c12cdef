-- ===== src/Params/Bounds.antt =====
-- osbenchmark/workload/params.py: `bounds` and `number_of_bulks`. The quotient of documents and
-- clients is exact here.
pub mod Coverage
mod Tests
use solr_benchmark.Prelude.{
  ℕ, zero, suc, ◌+◌, ◌-◌, ◌*◌, ◌/◌, ◌%◌, Bool, List, [], ◌∷◌, ◌==◌, ltb, if◌then◌else◌,
}
use solr_benchmark.Prelude.Rounding.{round_div}
use solr_benchmark.Result.{Result, ok, raise, zero_division, raise_if, ◌>>=◌, ◌>>◌}

-- The tuple that `bounds` returns.
pub record Bounds : Type 0 where
  pub offset_lines : ℕ
  pub docs : ℕ
  pub lines : ℕ

abbrev pub source_lines_per_doc : Bool → ℕ
source_lines_per_doc includes_action_and_meta_data = if includes_action_and_meta_data then 2 else 1

-- round(docs_per_client * client_index)
abbrev pub offset_docs : ℕ → ℕ → ℕ → ℕ
offset_docs total_docs num_clients client_index = round_div (total_docs * client_index) num_clients

pub bounds : ℕ → ℕ → ℕ → ℕ → Bool → Result Bounds
bounds total_docs start_client_index end_client_index num_clients includes_action_and_meta_data =
    let per_doc = source_lines_per_doc includes_action_and_meta_data in
    let start_offset_docs = offset_docs total_docs num_clients start_client_index in
    let end_offset_docs = offset_docs total_docs num_clients (end_client_index + 1) in
    let docs = end_offset_docs - start_offset_docs in
    do
      raise_if (num_clients == 0) zero_division
      ok (record {
        offset_lines = start_offset_docs * per_doc;
        docs = docs;
        lines = docs * per_doc;
      })

-- What the parameter source reads of a document set.
pub record Documents : Type 0 where
  pub number_of_documents : ℕ
  pub includes_action_and_meta_data : Bool

-- The body of the loop of `number_of_bulks`.
abbrev pub bulks_of : ℕ → ℕ → ℕ
bulks_of num_docs bulk_size = num_docs / bulk_size + (if ltb 0 (num_docs % bulk_size) then 1 else 0)

-- The loop over the documents of all corpora, which are passed as one list. `num_docs // 0` raises.
pub number_of_bulks : List Documents → ℕ → ℕ → ℕ → ℕ → Result ℕ
unfolding bounds
number_of_bulks [] start_index end_index total_partitions bulk_size = ok 0
number_of_bulks (docs ∷ corpora) start_index end_index total_partitions bulk_size =
    let others = number_of_bulks corpora start_index end_index total_partitions bulk_size in
    do
      b ←
          bounds docs.number_of_documents start_index end_index total_partitions
            docs.includes_action_and_meta_data
      raise_if (bulk_size == 0) zero_division
      bulks ← others
      ok (bulks_of b.docs bulk_size + bulks)
