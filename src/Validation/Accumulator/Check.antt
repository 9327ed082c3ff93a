-- ===== src/Validation/Accumulator/Check.antt =====
-- Which headers `validate_header_with_proof` accepts.
use trin.Prelude.{
  ℕ, ◌/◌, ◌≤◌, ◌<◌, ◌≡◌, true, some, List, arith, ltb, leb, length, get_elem?, get_elem?-length,
  Bool-cases, inl, inr,
}
use trin.Prelude.Outcome.{Outcome, panic, error, ok}
use trin.Validation.{
  Header, BlockHeaderProof, no_proof, accumulator_proof, HeaderWithProof, ValidationError,
}
use trin.Validation.Accumulator.{
  Crates, MasterAccumulator, merge_block_number, epoch_size, get_epoch_index_of_header,
  calculate_generalized_index, check_proof, check_by_proof, validate_header_with_proof,
}

-- There is a root for each epoch before the merge.
abbrev pub Covers : MasterAccumulator → Type 0
Covers acc = merge_block_number / epoch_size < length acc.historical_epochs

pub epoch_root :
    (acc : MasterAccumulator) (header : Header)
    → Covers acc
    → header.number ≤ merge_block_number
    → (root : ℕ) × (get_elem? acc.historical_epochs (get_epoch_index_of_header header) ≡ some root)
epoch_root acc header covers before =
    get_elem?-length acc.historical_epochs (get_epoch_index_of_header header) (omega arith)

module _ {Tree Value : Type 0} (c : Crates Tree Value) where
  -- The header has the right kind of proof, and a Merkle proof leads from its hash to the root of
  -- its epoch.
  abbrev pub Accepted : MasterAccumulator → Header → BlockHeaderProof → Type 0
  Accepted acc header no_proof = merge_block_number < header.number
  Accepted acc header (accumulator_proof proof) =
      (header.number ≤ merge_block_number)
      × (root : ℕ) × (get_elem? acc.historical_epochs (get_epoch_index_of_header header)
          ≡ some root)
      × (c.verify_merkle_proof (c.header_hash header) proof 15 (calculate_generalized_index header)
            root
          ≡ true)

  abbrev pub Judges :
      MasterAccumulator → HeaderWithProof → Outcome ValidationError (Unit {0}) → Type 0
  Judges acc hwp panic = ⊥
  Judges acc hwp (error e) = Accepted acc hwp.header hwp.proof → ⊥
  Judges acc hwp (ok _) = Accepted acc hwp.header hwp.proof

  checked :
      (acc : MasterAccumulator) (header : Header) (proof : List ℕ)
      → header.number ≤ merge_block_number
      → (root : ℕ) → get_elem? acc.historical_epochs (get_epoch_index_of_header header) ≡ some root
      → Judges acc
          (record { header = header; proof = accumulator_proof proof })
          (check_proof c acc header proof)
  checked acc header proof within root e =
      elim (Bool-cases (
        c.verify_merkle_proof (c.header_hash header) proof 15 (calculate_generalized_index header)
          root)) [
            | inl valid ↦ rw (e, valid) (within, root, e, valid)
            | inr invalid ↦ rw (e, invalid) (λ (_, root', e', valid). cc (e', invalid, valid))
          ]

  judged :
      (acc : MasterAccumulator) (header : Header) (proof : BlockHeaderProof)
      → Covers acc
      → Judges acc (record { header = header; proof = proof }) (check_by_proof c acc header proof)
  judged acc header no_proof covers = elim (Bool-cases (leb header.number merge_block_number)) [
    | inl before ↦ rw before (λ after. ground arith)
    | inr after ↦ rw after (ground arith)
  ]
  judged acc header (accumulator_proof proof) covers =
      elim (Bool-cases (ltb merge_block_number header.number)) [
        | inl after ↦ rw after (λ (before, root, e, valid). ground arith)
        | inr before ↦
            let within : header.number ≤ merge_block_number = ground arith in
            let (root, e) = epoch_root acc header covers within in
            rw before (checked acc header proof within root e)
      ]

  -- With an accumulator that has a root for each epoch before the merge, a header is judged without a
  -- panic. It is accepted just if it is of after the merge and comes without a proof, or is not of
  -- after the merge and comes with a Merkle proof from its hash to the root of its epoch.
  pub validate_header_with_proof_lem :
      (acc : MasterAccumulator) (hwp : HeaderWithProof)
      → Covers acc
      → Judges acc hwp (validate_header_with_proof c acc hwp)
  unfolding validate_header_with_proof
  validate_header_with_proof_lem acc hwp covers = judged acc hwp.header hwp.proof covers
