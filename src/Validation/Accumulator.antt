-- ===== src/Validation/Accumulator.antt =====
-- MasterAccumulator of trin-validation/src/accumulator.rs. The accumulator that is compiled in and
-- the file it is read from are data.
pub mod Check
pub mod Merkle
pub mod Proofs
pub mod Generated
use trin.Prelude.{
  ℕ, ◌+◌, ◌*◌, ◌/◌, ◌%◌, ◌^◌, Bool, not, Option, none, some, List, [], ◌∷◌, ◌++◌, ltb, leb, ◌==◌,
  length, get_elem?, if◌then◌else◌,
}
use trin.Prelude.Outcome.{Outcome, panic, error, ok, and_then}
use trin.Validation.{
  Header, HeaderRecord, BlockHeaderProof, no_proof, accumulator_proof, HeaderWithProof,
  HistoryContentKey, epoch_accumulator_key, ValidationError, post_merge_block, invalid_proof_type,
  missing_proof, proof_failed, no_response, request_error, send_error, epoch_acc_is_no_text,
  invalid_epoch_acc, post_merge_header, epoch_acc_mismatch, block_hash_mismatch, no_proof_for_index,
  invalid_proof_length, Reply, not_sent, not_answered, failed, answered,
}
use trin.Validation.Hex.{HexCrate, hex_decode}

abbrev pub merge_block_number : ℕ
merge_block_number = 15537393

abbrev pub epoch_size : ℕ
epoch_size = 8192

-- The functions of other libraries that validation calls: the hash of a header (Keccak of its RLP),
-- the root that tree_hash derives for an epoch accumulator and the reading of one from SSZ,
-- `U256::to_little_endian` as a hash, `Value::as_str`, and the Merkle tree, copied from Lighthouse.
pub record Crates (Tree Value : Type 0) : Type 0 where
  pub hex : HexCrate
  pub header_hash : Header → ℕ
  pub tree_hash_root : List HeaderRecord → ℕ
  pub epoch_acc_from_ssz_bytes : List ℕ → Option (List HeaderRecord)
  pub little_endian : ℕ → ℕ
  pub as_str : Value → Option (List ℕ)
  pub create : List ℕ → ℕ → Tree
  pub generate_tree_proof : Tree → ℕ → ℕ → Option (ℕ × List ℕ)
  pub verify_merkle_proof : ℕ → List ℕ → ℕ → ℕ → ℕ → Bool

pub record MasterAccumulator : Type 0 where
  pub historical_epochs : List ℕ

abbrev pub height : MasterAccumulator → ℕ
height acc = merge_block_number

abbrev pub get_epoch_index_of_header : Header → ℕ
get_epoch_index_of_header header = header.number / epoch_size

abbrev pub calculate_generalized_index : Header → ℕ
calculate_generalized_index header = epoch_size * 2 * 2 + (header.number % epoch_size) * 2

-- Indexing panics out of range.
abbrev pub index : {A : Type 0} → Option A → Outcome ValidationError A
index none = panic
index (some a) = ok a

-- The `?` of a result that is given as an option.
abbrev pub or_error : {A : Type 0} → ValidationError → Option A → Outcome ValidationError A
or_error e none = error e
or_error e (some a) = ok a

-- The arms of the look-up of a reply that are the same at each request.
abbrev pub received : {Value : Type 0} → Reply Value → Outcome ValidationError Value
received not_sent = error send_error
received not_answered = error no_response
received failed = error request_error
received (answered v) = ok v

module _ {Tree Value : Type 0} (c : Crates Tree Value) where
  -- The proof is checked against the root of the header's epoch.
  abbrev pub check_proof : MasterAccumulator → Header → List ℕ → Outcome ValidationError (Unit {0})
  check_proof acc header proof =
      and_then (index (get_elem? acc.historical_epochs (get_epoch_index_of_header header)))
        (λ epoch_hash.
          if c.verify_merkle_proof (c.header_hash header) proof 15
            (calculate_generalized_index header) epoch_hash
          then ok tt
          else error proof_failed)

  abbrev pub check_by_proof :
      MasterAccumulator → Header → BlockHeaderProof → Outcome ValidationError (Unit {0})
  check_by_proof acc header (accumulator_proof proof) =
      if ltb merge_block_number header.number
      then error invalid_proof_type
      else check_proof acc header proof
  check_by_proof acc header no_proof =
      if leb header.number merge_block_number then error missing_proof else ok tt

  unfoldable pub validate_header_with_proof :
      MasterAccumulator → HeaderWithProof → Outcome ValidationError (Unit {0})
  validate_header_with_proof acc hwp = check_by_proof acc hwp.header hwp.proof

  -- `history` sends a request RecursiveFindContent.
  unfoldable pub lookup_epoch_acc :
      ℕ → (HistoryContentKey → Reply Value) → Outcome ValidationError (List HeaderRecord)
  unfolding hex_decode
  lookup_epoch_acc epoch_hash history =
      and_then (received (history (epoch_accumulator_key epoch_hash))) (λ value.
        and_then (or_error epoch_acc_is_no_text (c.as_str value)) (λ text.
          and_then (hex_decode c.hex text) (λ epoch_acc_ssz.
            or_error invalid_epoch_acc (c.epoch_acc_from_ssz_bytes epoch_acc_ssz))))

  unfoldable pub lookup_premerge_hash_by_number :
      MasterAccumulator → ℕ → (HistoryContentKey → Reply Value) → Outcome ValidationError ℕ
  unfolding lookup_epoch_acc
  lookup_premerge_hash_by_number acc block_number history =
      if ltb merge_block_number block_number
      then error post_merge_block
      else and_then (index (get_elem? acc.historical_epochs (block_number / epoch_size)))
          (λ epoch_hash. and_then (lookup_epoch_acc epoch_hash history) (λ epoch_acc.
            and_then (index (get_elem? epoch_acc (block_number % epoch_size)))
              (λ record_. ok record_.block_hash)))

  abbrev pub leaves_of : List HeaderRecord → List ℕ
  leaves_of [] = []
  leaves_of (r ∷ epoch_acc) =
      r.block_hash ∷ c.little_endian r.total_difficulty ∷ leaves_of epoch_acc

  -- The bytes 0x0020 and thirty zeros.
  abbrev pub epoch_size_chunk : ℕ
  epoch_size_chunk = 32 * 2 ^ 240

  abbrev pub final_proof : List ℕ → Outcome ValidationError (List ℕ)
  final_proof proof = if length proof == 15 then ok proof else error invalid_proof_length

  unfoldable pub construct_proof : Header → List HeaderRecord → Outcome ValidationError (List ℕ)
  construct_proof header epoch_acc =
      let hr_index = header.number % epoch_size in
      and_then (index (get_elem? epoch_acc hr_index)) (λ header_record.
        if not (header_record.block_hash == c.header_hash header)
        then error block_hash_mismatch
        else and_then
            (or_error no_proof_for_index
              (c.generate_tree_proof (c.create (leaves_of epoch_acc) 14) (hr_index * 2) 14))
            (λ (leaf, proof).
              if leaf == c.header_hash header
              then final_proof (proof ++ (epoch_size_chunk ∷ []))
              else panic))

  unfoldable pub generate_proof :
      MasterAccumulator
      → Header
      → (HistoryContentKey → Reply Value)
      → Outcome ValidationError (List ℕ)
  unfolding lookup_epoch_acc construct_proof
  generate_proof acc header history =
      if ltb merge_block_number header.number
      then error post_merge_header
      else and_then (index (get_elem? acc.historical_epochs (get_epoch_index_of_header header)))
          (λ epoch_hash. and_then (lookup_epoch_acc epoch_hash history) (λ epoch_acc.
            if not (c.tree_hash_root epoch_acc == epoch_hash)
            then error epoch_acc_mismatch
            else construct_proof header epoch_acc))
