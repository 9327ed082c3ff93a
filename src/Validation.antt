-- ===== src/Validation.antt =====
-- The data that the validation of history content works on: ethportal-api/src/types/execution
-- (header.rs, accumulator.rs), content_key/history.rs and content_value/history.rs. A hash, an
-- address and an integer of 256 bits is a number, and text is the list of its bytes.
pub mod Hex
pub mod Accumulator
pub mod Oracle
pub mod Content
use trin.Prelude.{ℕ, Bool, Option, List}

pub record Header : Type 0 where
  pub parent_hash : ℕ
  pub uncles_hash : ℕ
  pub author : ℕ
  pub state_root : ℕ
  pub transactions_root : ℕ
  pub receipts_root : ℕ
  pub logs_bloom : ℕ
  pub difficulty : ℕ
  pub number : ℕ
  pub gas_limit : ℕ
  pub gas_used : ℕ
  pub timestamp : ℕ
  pub extra_data : List ℕ
  pub mix_hash : Option ℕ
  pub nonce : Option ℕ
  pub base_fee_per_gas : Option ℕ
  pub withdrawals_root : Option ℕ

pub record HeaderRecord : Type 0 where
  pub block_hash : ℕ
  pub total_difficulty : ℕ

pub data BlockHeaderProof : Type 0 where
  no_proof : BlockHeaderProof
  accumulator_proof : List ℕ → BlockHeaderProof

pub record HeaderWithProof : Type 0 where
  pub header : Header
  pub proof : BlockHeaderProof

pub data HistoryContentKey : Type 0 where
  block_header_with_proof_key : ℕ → HistoryContentKey
  block_body_key : ℕ → HistoryContentKey
  block_receipts_key : ℕ → HistoryContentKey
  epoch_accumulator_key : ℕ → HistoryContentKey

pub data HistoryContentValue (BlockBody Receipts : Type 0) : Type 0 where
  block_header_with_proof : HeaderWithProof → HistoryContentValue BlockBody Receipts
  block_body : BlockBody → HistoryContentValue BlockBody Receipts
  receipts : Receipts → HistoryContentValue BlockBody Receipts
  epoch_accumulator : List HeaderRecord → HistoryContentValue BlockBody Receipts

pub data PossibleHistoryContentValue (BlockBody Receipts : Type 0) : Type 0 where
  content_present :
      HistoryContentValue BlockBody Receipts → PossibleHistoryContentValue BlockBody Receipts
  content_absent : PossibleHistoryContentValue BlockBody Receipts

-- The errors, one for each message.
pub data ValidationError : Type 0 where
  post_merge_block : ValidationError
  invalid_proof_type : ValidationError
  missing_proof : ValidationError
  proof_failed : ValidationError
  no_response : ValidationError
  request_error : ValidationError
  send_error : ValidationError
  epoch_acc_is_no_text : ValidationError
  no_prefix : ValidationError
  wrong_prefix : ValidationError
  invalid_hex : ValidationError
  invalid_epoch_acc : ValidationError
  post_merge_header : ValidationError
  epoch_acc_mismatch : ValidationError
  block_hash_mismatch : ValidationError
  no_proof_for_index : ValidationError
  invalid_proof_length : ValidationError
  history_unavailable : ValidationError
  invalid_json : ValidationError
  got_connection_id : ValidationError
  got_enrs : ValidationError
  got_content_absent : ValidationError
  got_other_content : ValidationError
  invalid_encoding : ValidationError
  invalid_header_hash : ValidationError
  invalid_uncles_root : ValidationError
  invalid_transactions_root : ValidationError
  invalid_receipts_root : ValidationError
  root_error : ValidationError
  invalid_epoch_acc_root : ValidationError
  unknown_epoch_acc : ValidationError

-- What the history network answers to a request, and that it is not reached.
pub data Reply (Value : Type 0) : Type 0 where
  not_sent : Reply Value
  not_answered : Reply Value
  failed : Reply Value
  answered : Value → Reply Value
