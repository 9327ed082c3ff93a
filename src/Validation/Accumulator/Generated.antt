-- ===== src/Validation/Accumulator/Generated.antt =====
-- The proofs that are generated with what the network answers, and those of an epoch that is not full.
use trin.Prelude.{
  ℕ, ◌%◌, ◌≤◌, ◌<◌, ◌≡◌, refl, sym, ap, ◌∙◌, false, Option, none, some, List, arith, ltb, ◌==◌,
  ==→≡, ≢→==, length, get_elem?, Bool-cases, inl, inr,
}
use trin.Prelude.Outcome.{error, ok, OkThen, OkThen-and_then, OkThen-ok, OkThen-of}
use trin.Validation.{
  Header, HeaderRecord, accumulator_proof, HistoryContentKey, proof_failed, Reply,
}
use trin.Validation.Accumulator.{
  Crates, MasterAccumulator, merge_block_number, epoch_size, get_epoch_index_of_header, index,
  calculate_generalized_index, epoch_size_chunk, leaves_of, validate_header_with_proof,
  lookup_epoch_acc, construct_proof, generate_proof,
}
use trin.Validation.Accumulator.Merkle.{IsMerkle}
use trin.Validation.Accumulator.Proofs.{
  constructed, validated, construct_proof-validate_header_with_proof,
}

module _ {Tree Value : Type 0} (c : Crates Tree Value) where
  index_ok : {A : Type 0} (o : Option A) (a : A) → index o ≡ ok a → o ≡ some a
  index_ok none a e = absurd (cc e)
  index_ok (some b) a e = cc e

  -- What stands behind a proof that is constructed.
  found_record :
      (header : Header) (epoch_acc : List HeaderRecord) (proof : List ℕ)
      → construct_proof c header epoch_acc ≡ ok proof
      → (r : HeaderRecord) × (get_elem? epoch_acc (header.number % epoch_size) ≡ some r)
        × (r.block_hash ≡ c.header_hash header)
  unfolding construct_proof
  found_record header epoch_acc proof built =
      OkThen-ok (λ _. Found) (construct_proof c header epoch_acc) proof
        (OkThen-and_then (λ _. Found) (index (get_elem? epoch_acc (header.number % epoch_size))) _
          (λ r e. elim (Bool-cases (r.block_hash == c.header_hash header)) [
            | inl same ↦ rw same (
                OkThen-of (λ _. Found) _
                  (λ _ _. (r, index_ok _ r e, ==→≡ r.block_hash (c.header_hash header) same)))
            | inr other ↦ rw other tt
          ]))
        built
    where
      Found : Type 0
      Found =
          (r : HeaderRecord) × (get_elem? epoch_acc (header.number % epoch_size) ≡ some r)
          × (r.block_hash ≡ c.header_hash header)

  -- The epoch accumulator that a generated proof comes from.
  abbrev IsGenerated : MasterAccumulator → Header → List ℕ → Type 0
  IsGenerated acc header proof =
      (epoch_acc : List HeaderRecord) × (header.number ≤ merge_block_number)
      × (get_elem? acc.historical_epochs (get_epoch_index_of_header header)
          ≡ some (c.tree_hash_root epoch_acc))
      × (construct_proof c header epoch_acc ≡ ok proof)

  generate_proof-IsGenerated :
      (acc : MasterAccumulator) (header : Header) (history : HistoryContentKey → Reply Value)
      → OkThen (IsGenerated acc header) (generate_proof c acc header history)
  unfolding generate_proof
  generate_proof-IsGenerated acc header history =
      elim (Bool-cases (ltb merge_block_number header.number)) [
        | inl after ↦ rw after tt
        | inr before ↦ rw before (
            OkThen-and_then (IsGenerated acc header)
              (index (get_elem? acc.historical_epochs (get_epoch_index_of_header header))) _
              (λ root e.
                OkThen-and_then (IsGenerated acc header) (lookup_epoch_acc c root history) _
                  (λ epoch_acc _. elim (Bool-cases (c.tree_hash_root epoch_acc == root)) [
                    | inl same ↦ rw same (
                        OkThen-of (IsGenerated acc header) (construct_proof c header epoch_acc)
                          (λ proof built. (
                            epoch_acc,
                            ground arith,
                            (index_ok _ root e ∙ ap some (sym (==→≡ _ root same))),
                            built,
                          )))
                    | inr other ↦ rw other tt
                  ])))
      ]

  -- A proof that is generated with what the network answers, whatever that is, is valid, where the
  -- root of the epoch is that of full epoch accumulators only.
  pub generate_proof-validate_header_with_proof :
      (m : IsMerkle c) (acc : MasterAccumulator) (header : Header)
      (history : HistoryContentKey → Reply Value) (proof : List ℕ)
      → ((epoch_acc : List HeaderRecord)
          → get_elem? acc.historical_epochs (get_epoch_index_of_header header)
            ≡ some (c.tree_hash_root epoch_acc)
          → length epoch_acc ≡ epoch_size)
      → generate_proof c acc header history ≡ ok proof
      → validate_header_with_proof c acc
          (record { header = header; proof = accumulator_proof proof })
        ≡ ok tt
  generate_proof-validate_header_with_proof m acc header history proof only_full generated =
      let (epoch_acc, within, known, built) =
        OkThen-ok (IsGenerated acc header) (generate_proof c acc header history) proof
          (generate_proof-IsGenerated acc header history) generated in
      let (r, e, same) = found_record header epoch_acc proof built in
      let (proof', built', valid) =
        construct_proof-validate_header_with_proof c m acc header epoch_acc r
          (only_full epoch_acc known) e same within known in
      let equal : proof' ≡ proof = cc (built, built') in rw equal at valid

  -- A proof for a header of an epoch that is not full, as the last one before the merge, is refused:
  -- it ends with the number of records of a full epoch. (Where hashes and numbers do not collide.)
  pub construct_proof_partial_epoch :
      (m : IsMerkle c) (acc : MasterAccumulator) (header : Header) (epoch_acc : List HeaderRecord)
      (proof : List ℕ)
      → ((a b x y : ℕ) → m.concat a x ≡ m.concat b y → x ≡ y)
      → ((n : ℕ) → c.little_endian n ≡ c.little_endian epoch_size → n ≡ epoch_size)
      → length epoch_acc < epoch_size
      → header.number ≤ merge_block_number
      → get_elem? acc.historical_epochs (get_epoch_index_of_header header)
        ≡ some (c.tree_hash_root epoch_acc)
      → construct_proof c header epoch_acc ≡ ok proof
      → validate_header_with_proof c acc
          (record { header = header; proof = accumulator_proof proof })
        ≡ error proof_failed
  construct_proof_partial_epoch m acc header epoch_acc proof apart distinct short within known
        built =
      let (r, e, same) = found_record header epoch_acc proof built in
      let (proof', built', checks) =
        constructed c m header epoch_acc r (omega (arith, short)) e same in
      let (elements, list, _) = m.list_root epoch_acc (omega (arith, short)) in
      let root = c.tree_hash_root epoch_acc in
      let equal : proof' ≡ proof = cc (built, built') in
      let collides : m.concat (m.root (c.create (leaves_of c epoch_acc) 14)) (epoch_size_chunk c)
            ≡ root
          → ⊥ =
        λ h.
          let chunk = apart _ _ _ _ (h ∙ list) in
          let size = distinct (length epoch_acc) (sym (m.length_chunk ∙ chunk)) in
          omega (arith, size, short) in
      let invalid : c.verify_merkle_proof (c.header_hash header) proof' 15
            (calculate_generalized_index header) root
          ≡ false =
        checks root ∙ ≢→== _ root collides in
      let refused : validate_header_with_proof c acc
            (record { header = header; proof = accumulator_proof proof' })
          ≡ error proof_failed =
        validated c acc header proof' root within known ∙ (rw invalid refl) in
      rw equal at refused
