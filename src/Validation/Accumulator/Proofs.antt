-- ===== src/Validation/Accumulator/Proofs.antt =====
-- The proofs that are constructed, and what their validation says.
use trin.Prelude.{
  ℕ, zero, suc, ◌+◌, ◌*◌, ◌%◌, ◌^◌, ◌≤◌, ◌<◌, ◌≡◌, refl, sym, ap, ◌∙◌, true, false, some, List, [],
  ◌∷◌, ◌++◌, arith, ltb, ◌==◌, ≡→==, length, length-append, get_elem?, if◌then◌else◌,
}
use trin.Prelude.Outcome.{error, ok}
use trin.Validation.{Header, HeaderRecord, accumulator_proof, proof_failed}
use trin.Validation.Accumulator.{
  Crates, MasterAccumulator, merge_block_number, epoch_size, get_epoch_index_of_header,
  calculate_generalized_index, epoch_size_chunk, leaves_of, validate_header_with_proof,
  construct_proof,
}
use trin.Validation.Accumulator.Merkle.{root_from_branch, IsMerkle, root_from_branch-append}

module _ {Tree Value : Type 0} (c : Crates Tree Value) where
  length-leaves_of :
      (epoch_acc : List HeaderRecord) → length (leaves_of c epoch_acc) ≡ 2 * length epoch_acc
  length-leaves_of [] = omega arith
  length-leaves_of (r ∷ epoch_acc) = omega (arith, length-leaves_of epoch_acc)

  leaf-leaves_of :
      (epoch_acc : List HeaderRecord) (i : ℕ) (r : HeaderRecord)
      → get_elem? epoch_acc i ≡ some r
      → get_elem? (leaves_of c epoch_acc) (i * 2) ≡ some r.block_hash
  leaf-leaves_of [] i r e = absurd (cc e)
  leaf-leaves_of (q ∷ epoch_acc) zero r e = cc e
  leaf-leaves_of (q ∷ epoch_acc) (suc i) r e =
      let two : suc i * 2 ≡ suc (suc (i * 2)) = omega arith in
      rw two (leaf-leaves_of epoch_acc i r e)

  -- At the record of its hash, a header has a proof, which is checked against the root of the leaves
  -- with the number of records of a full epoch.
  pub constructed :
      (m : IsMerkle c) (header : Header) (epoch_acc : List HeaderRecord) (r : HeaderRecord)
      → length epoch_acc ≤ epoch_size
      → get_elem? epoch_acc (header.number % epoch_size) ≡ some r
      → r.block_hash ≡ c.header_hash header
      → (proof : List ℕ) × (construct_proof c header epoch_acc ≡ ok proof)
        × ((root : ℕ)
            → c.verify_merkle_proof
                (c.header_hash header)
                proof
                15
                (calculate_generalized_index header)
                root
              ≡ (m.concat (m.root (c.create (leaves_of c epoch_acc) 14)) (epoch_size_chunk c)
                  == root))
  unfolding construct_proof
  constructed m header epoch_acc r small e same =
      let i = header.number % epoch_size in
      let few : length (leaves_of c epoch_acc) ≤ 2 ^ 14 =
        omega (arith, length-leaves_of epoch_acc) in
      let (proof, generated, long, leads) =
        m.proves (leaves_of c epoch_acc) 14 (i * 2) r.block_hash few
          (leaf-leaves_of epoch_acc i r e) in
      let whole : length (proof ++ (epoch_size_chunk c ∷ [])) ≡ 15 =
        length-append proof (epoch_size_chunk c ∷ []) ∙ omega (arith, long) in
      let matches : (r.block_hash == c.header_hash header) ≡ true = ground (arith, same) in
      let complete : (length (proof ++ (epoch_size_chunk c ∷ [])) == 15) ≡ true =
        ground (arith, whole) in
      let place : calculate_generalized_index header ≡ i * 2 + 2 ^ 14 * 2 = omega arith in
      let below : i * 2 < 2 ^ 14 = omega arith in
      let joined : root_from_branch m.concat (c.header_hash header)
            (proof ++ (epoch_size_chunk c ∷ [])) (calculate_generalized_index header)
          ≡ m.concat (m.root (c.create (leaves_of c epoch_acc) 14)) (epoch_size_chunk c) =
        ap (root_from_branch m.concat (c.header_hash header) (proof ++ (epoch_size_chunk c ∷ [])))
          place
        ∙ (root_from_branch-append m.concat (c.header_hash header) (epoch_size_chunk c) proof 14
              (i * 2) 2 long below
            ∙ ap (λ h. m.concat h (epoch_size_chunk c)) (leads_from proof (i * 2) same leads)) in
      (
        proof ++ (epoch_size_chunk c ∷ []),
        (rw (e, matches, generated, matches, complete) refl),
        λ root.
            m.verifies (c.header_hash header) (proof ++ (epoch_size_chunk c ∷ [])) 15
              (calculate_generalized_index header) root
            ∙ (rw (complete, joined) refl),
      )
    where
      leads_from :
          {a b top : ℕ} (proof : List ℕ) (i : ℕ)
          → a ≡ b
          → root_from_branch m.concat a proof i ≡ top
          → root_from_branch m.concat b proof i ≡ top
      leads_from proof i same leads = rw same at leads

  -- Validation of a header of before the merge with a proof, at the root of its epoch.
  pub validated :
      (acc : MasterAccumulator) (header : Header) (proof : List ℕ) (root : ℕ)
      → header.number ≤ merge_block_number
      → get_elem? acc.historical_epochs (get_epoch_index_of_header header) ≡ some root
      → validate_header_with_proof c acc
          (record { header = header; proof = accumulator_proof proof })
        ≡ (if c.verify_merkle_proof
              (c.header_hash header)
              proof
              15
              (calculate_generalized_index header)
              root
            then ok tt
            else error proof_failed)
  unfolding validate_header_with_proof
  validated acc header proof root within e =
      let before : ltb merge_block_number header.number ≡ false = ground arith in
      rw (before, e) refl

  full_root :
      (m : IsMerkle c) (epoch_acc : List HeaderRecord)
      → length epoch_acc ≡ epoch_size
      → c.tree_hash_root epoch_acc
        ≡ m.concat (m.root (c.create (leaves_of c epoch_acc) 14)) (epoch_size_chunk c)
  full_root m epoch_acc full =
      let (elements, list, of_leaves) = m.list_root epoch_acc (omega (arith, full)) in
      list
      ∙ (ap (λ n. m.concat elements (c.little_endian n)) full
          ∙ (ap (m.concat elements) m.length_chunk
              ∙ ap (λ h. m.concat h (epoch_size_chunk c)) (of_leaves full)))

  -- A header that a full epoch accumulator has at its place gets a proof, and is valid with it where
  -- the root of the accumulator is that of the epoch.
  pub construct_proof-validate_header_with_proof :
      (m : IsMerkle c) (acc : MasterAccumulator) (header : Header) (epoch_acc : List HeaderRecord)
      (r : HeaderRecord)
      → length epoch_acc ≡ epoch_size
      → get_elem? epoch_acc (header.number % epoch_size) ≡ some r
      → r.block_hash ≡ c.header_hash header
      → header.number ≤ merge_block_number
      → get_elem? acc.historical_epochs (get_epoch_index_of_header header)
        ≡ some (c.tree_hash_root epoch_acc)
      → (proof : List ℕ) × (construct_proof c header epoch_acc ≡ ok proof)
        × (validate_header_with_proof c acc
              (record { header = header; proof = accumulator_proof proof })
            ≡ ok tt)
  construct_proof-validate_header_with_proof m acc header epoch_acc r full e same within known =
      let (proof, built, checks) = constructed m header epoch_acc r (omega (arith, full)) e same in
      let root = c.tree_hash_root epoch_acc in
      let valid : c.verify_merkle_proof (c.header_hash header) proof 15
            (calculate_generalized_index header) root
          ≡ true =
        checks root ∙ ≡→== _ root (sym (full_root m epoch_acc full)) in
      (proof, built, (validated acc header proof root within known ∙ (rw valid refl)))
