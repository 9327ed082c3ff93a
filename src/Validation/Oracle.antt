-- ===== src/Validation/Oracle.antt =====
-- HeaderOracle of trin-validation/src/oracle.rs. The sender of requests to the history network is
-- what the network answers; that to the beacon network is not read.
use trin.Prelude.{ℕ, Bool, Option, none, List}
use trin.Prelude.Outcome.{Outcome, error, ok, and_then}
use trin.Validation.{
  HeaderWithProof, HistoryContentKey, block_header_with_proof_key, HistoryContentValue,
  block_header_with_proof, block_body, receipts, epoch_accumulator, PossibleHistoryContentValue,
  content_present, content_absent, ValidationError, history_unavailable, invalid_json,
  got_connection_id, got_enrs, got_content_absent, got_other_content, Reply,
}
use trin.Validation.Accumulator.{
  Crates, MasterAccumulator, or_error, received, lookup_premerge_hash_by_number,
}

-- The answer to RecursiveFindContent; an ENR is its bytes.
pub data ContentInfo (BlockBody Receipts : Type 0) : Type 0 where
  connection_id : ℕ → ContentInfo BlockBody Receipts
  content : PossibleHistoryContentValue BlockBody Receipts → Bool → ContentInfo BlockBody Receipts
  enrs : List (List ℕ) → ContentInfo BlockBody Receipts

pub record HeaderOracle (Value : Type 0) : Type 0 where
  pub history_jsonrpc_tx : Option (HistoryContentKey → Reply Value)
  pub master_acc : MasterAccumulator

abbrev pub new : {Value : Type 0} → MasterAccumulator → HeaderOracle Value
new master_acc = record { history_jsonrpc_tx = none; master_acc = master_acc }

abbrev pub sender :
    {Value : Type 0}
    → HeaderOracle Value
    → Outcome ValidationError (HistoryContentKey → Reply Value)
sender oracle = or_error history_unavailable oracle.history_jsonrpc_tx

unfoldable pub get_hash_at_height :
    {Tree Value : Type 0} → Crates Tree Value → HeaderOracle Value → ℕ → Outcome ValidationError ℕ
unfolding lookup_premerge_hash_by_number
get_hash_at_height c oracle block_number =
    and_then (sender oracle)
      (λ history. lookup_premerge_hash_by_number c oracle.master_acc block_number history)

module _ {BlockBody Receipts : Type 0} where
  abbrev pub found_value :
      HistoryContentValue BlockBody Receipts → Outcome ValidationError HeaderWithProof
  found_value (block_header_with_proof hwp) = ok hwp
  found_value (block_body body) = error got_other_content
  found_value (receipts r) = error got_other_content
  found_value (epoch_accumulator epoch_acc) = error got_other_content

  abbrev pub found_info : ContentInfo BlockBody Receipts → Outcome ValidationError HeaderWithProof
  found_info (connection_id n) = error got_connection_id
  found_info (content content_absent utp_transfer) = error got_content_absent
  found_info (content (content_present value) utp_transfer) = found_value value
  found_info (enrs l) = error got_enrs

  -- `from_value` is that of serde_json.
  unfoldable pub recursive_find_header_with_proof :
      {Value : Type 0}
      → (Value → Option (ContentInfo BlockBody Receipts))
      → HeaderOracle Value
      → ℕ
      → Outcome ValidationError HeaderWithProof
  recursive_find_header_with_proof from_value oracle block_hash =
      and_then (sender oracle) (λ history.
        and_then (received (history (block_header_with_proof_key block_hash)))
          (λ value. and_then (or_error invalid_json (from_value value)) found_info))
