-- ===== src/Validation/Content.antt =====
-- ChainHistoryValidator of trin-history/src/validation.rs.
pub mod Accepts
use trin.Prelude.{ℕ, Bool, true, false, Option, List, [], ◌∷◌, ◌==◌, if◌then◌else◌}
use trin.Prelude.Outcome.{Outcome, error, ok, and_then}
use trin.Validation.{
  HeaderRecord, HeaderWithProof, HistoryContentKey, block_header_with_proof_key, block_body_key,
  block_receipts_key, epoch_accumulator_key, ValidationError, invalid_encoding, invalid_header_hash,
  invalid_uncles_root, invalid_transactions_root, invalid_receipts_root, root_error,
  invalid_epoch_acc_root, unknown_epoch_acc,
}
use trin.Validation.Accumulator.{Crates, or_error, validate_header_with_proof}
use trin.Validation.Oracle.{ContentInfo, HeaderOracle, recursive_find_header_with_proof}

-- The readings from SSZ and JSON, and the roots of the tries of a block's parts.
pub record ContentCrates (Tree Value BlockBody Receipts : Type 0) : Type 0 where
  pub accumulators : Crates Tree Value
  pub content_info_from_value : Value → Option (ContentInfo BlockBody Receipts)
  pub header_with_proof_from_ssz_bytes : List ℕ → Option HeaderWithProof
  pub block_body_from_ssz_bytes : List ℕ → Option BlockBody
  pub receipts_from_ssz_bytes : List ℕ → Option Receipts
  pub uncles_root : BlockBody → Option ℕ
  pub transactions_root : BlockBody → Option ℕ
  pub receipts_root : Receipts → Option ℕ

-- An early return with an error, unless the test holds.
abbrev pub demand :
    Bool → ValidationError → Outcome ValidationError (Unit {0}) → Outcome ValidationError (Unit {0})
demand b e rest = if b then rest else error e

abbrev pub contains : List ℕ → ℕ → Bool
contains [] a = false
contains (x ∷ xs) a = let rest = contains xs a in if x == a then true else rest

module _ {Tree Value BlockBody Receipts : Type 0}
    (c : ContentCrates Tree Value BlockBody Receipts) where
  abbrev pub validate_header :
      HeaderOracle Value → ℕ → HeaderWithProof → Outcome ValidationError (Unit {0})
  validate_header oracle block_hash hwp =
      demand (c.accumulators.header_hash hwp.header == block_hash) invalid_header_hash
        (validate_header_with_proof c.accumulators oracle.master_acc hwp)

  abbrev pub validate_body : HeaderOracle Value → ℕ → BlockBody → Outcome ValidationError (Unit {0})
  validate_body oracle block_hash body =
      and_then (recursive_find_header_with_proof c.content_info_from_value oracle block_hash)
        (λ trusted. and_then (or_error root_error (c.uncles_root body)) (λ actual_uncles_root.
          demand (actual_uncles_root == trusted.header.uncles_hash) invalid_uncles_root (
            and_then (or_error root_error (c.transactions_root body)) (λ actual_txs_root.
              demand (actual_txs_root == trusted.header.transactions_root) invalid_transactions_root
                (ok tt)))))

  abbrev pub validate_receipts :
      HeaderOracle Value → ℕ → Receipts → Outcome ValidationError (Unit {0})
  validate_receipts oracle block_hash r =
      and_then (recursive_find_header_with_proof c.content_info_from_value oracle block_hash)
        (λ trusted. and_then (or_error root_error (c.receipts_root r)) (λ actual_receipts_root.
          demand (actual_receipts_root == trusted.header.receipts_root) invalid_receipts_root
            (ok tt)))

  abbrev pub validate_epoch_acc :
      HeaderOracle Value → ℕ → List HeaderRecord → Outcome ValidationError (Unit {0})
  validate_epoch_acc oracle epoch_hash epoch_acc =
      let tree_hash_root = c.accumulators.tree_hash_root epoch_acc in
      demand (epoch_hash == tree_hash_root) invalid_epoch_acc_root (
        demand (contains oracle.master_acc.historical_epochs tree_hash_root) unknown_epoch_acc
          (ok tt))

  unfoldable pub validate_content :
      HeaderOracle Value → HistoryContentKey → List ℕ → Outcome ValidationError (Unit {0})
  unfolding validate_header_with_proof recursive_find_header_with_proof
  validate_content oracle (block_header_with_proof_key block_hash) content =
      and_then (or_error invalid_encoding (c.header_with_proof_from_ssz_bytes content))
        (validate_header oracle block_hash)
  validate_content oracle (block_body_key block_hash) content =
      and_then (or_error invalid_encoding (c.block_body_from_ssz_bytes content))
        (validate_body oracle block_hash)
  validate_content oracle (block_receipts_key block_hash) content =
      and_then (or_error invalid_encoding (c.receipts_from_ssz_bytes content))
        (validate_receipts oracle block_hash)
  validate_content oracle (epoch_accumulator_key epoch_hash) content =
      and_then (or_error invalid_encoding (c.accumulators.epoch_acc_from_ssz_bytes content))
        (validate_epoch_acc oracle epoch_hash)
