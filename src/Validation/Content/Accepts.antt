-- ===== src/Validation/Content/Accepts.antt =====
-- Which content is valid under which key.
use trin.Prelude.{
  ℕ, ◌≡◌, refl, sym, ap, ◌∙◌, ◌↔◌, inl, inr, Bool, true, false, Option, none, some, List, [], ◌∷◌,
  ◌==◌, ==→≡, ≡→==, In, here, there, Bool-cases,
}
use trin.Prelude.Outcome.{Outcome, panic, error, ok, and_then_ok}
use trin.Validation.{
  HeaderRecord, HeaderWithProof, HistoryContentKey, block_header_with_proof_key, block_body_key,
  block_receipts_key, epoch_accumulator_key, ValidationError,
}
use trin.Validation.Accumulator.{or_error, validate_header_with_proof}
use trin.Validation.Accumulator.Check.{Covers, Accepted, Judges, validate_header_with_proof_lem}
use trin.Validation.Oracle.{HeaderOracle, recursive_find_header_with_proof}
use trin.Validation.Content.{ContentCrates, demand, contains, validate_content}

or_error_ok :
    {A : Type 0} (e : ValidationError) (o : Option A) (a : A) → or_error e o ≡ ok a → o ≡ some a
or_error_ok e none a h = absurd (cc h)
or_error_ok e (some b) a h = cc h

demand_ok :
    (b : Bool) (e : ValidationError) (rest : Outcome ValidationError (Unit {0}))
    → demand b e rest ≡ ok tt
    → (b ≡ true) × (rest ≡ ok tt)
demand_ok true e rest h = (refl, h)
demand_ok false e rest h = absurd (cc h)

contains-In : (l : List ℕ) (a : ℕ) → contains l a ≡ true → In a l
contains-In [] a h = absurd (cc h)
contains-In (x ∷ l) a h = elim (Bool-cases (x == a)) [
  | inl same ↦ rw (==→≡ x a same) (here l)
  | inr other ↦ there x l (contains-In l a (rw other at h))
]

In-contains : (l : List ℕ) (a : ℕ) → In a l → contains l a ≡ true
In-contains [] a i = elim i [ ]
In-contains (x ∷ l) a (here _) = rw (≡→== a a refl) refl
In-contains (x ∷ l) a (there _ _ i) = elim (Bool-cases (x == a)) [
  | inl same ↦ rw same refl
  | inr other ↦ rw other (In-contains l a i)
]

module _ {Tree Value BlockBody Receipts : Type 0}
    (c : ContentCrates Tree Value BlockBody Receipts) where
  -- The header of a block, as the network answers.
  abbrev pub Trusted : HeaderOracle Value → ℕ → HeaderWithProof → Type 0
  Trusted oracle block_hash hwp =
      recursive_find_header_with_proof c.content_info_from_value oracle block_hash ≡ ok hwp

  -- The valid contents of a key: a header of that hash which the accumulator accepts; a body or
  -- receipts with the roots of the trusted header; an epoch accumulator whose root is the key's and
  -- one of the master accumulator's.
  abbrev pub Accepts : HeaderOracle Value → HistoryContentKey → List ℕ → Type 0
  Accepts oracle (block_header_with_proof_key block_hash) content =
      (hwp : HeaderWithProof) × (c.header_with_proof_from_ssz_bytes content ≡ some hwp)
      × (c.accumulators.header_hash hwp.header ≡ block_hash)
      × Accepted c.accumulators oracle.master_acc hwp.header hwp.proof
  Accepts oracle (block_body_key block_hash) content =
      (body : BlockBody) × (hwp : HeaderWithProof) × (c.block_body_from_ssz_bytes content
        ≡ some body)
      × Trusted oracle block_hash hwp
      × (c.uncles_root body ≡ some hwp.header.uncles_hash)
      × (c.transactions_root body ≡ some hwp.header.transactions_root)
  Accepts oracle (block_receipts_key block_hash) content =
      (r : Receipts) × (hwp : HeaderWithProof) × (c.receipts_from_ssz_bytes content ≡ some r)
      × Trusted oracle block_hash hwp
      × (c.receipts_root r ≡ some hwp.header.receipts_root)
  Accepts oracle (epoch_accumulator_key epoch_hash) content =
      (epoch_acc : List HeaderRecord) × (c.accumulators.epoch_acc_from_ssz_bytes content
        ≡ some epoch_acc)
      × (c.accumulators.tree_hash_root epoch_acc ≡ epoch_hash)
      × In epoch_hash oracle.master_acc.historical_epochs

  header_judged :
      (oracle : HeaderOracle Value) (hwp : HeaderWithProof) (o : Outcome ValidationError (Unit {0}))
      → Judges c.accumulators oracle.master_acc hwp o
      → (o ≡ ok tt) ↔ Accepted c.accumulators oracle.master_acc hwp.header hwp.proof
  header_judged oracle hwp panic j = absurd j
  header_judged oracle hwp (error e) j = ((λ h. absurd (cc h)), (λ a. absurd (j a)))
  header_judged oracle hwp (ok _) j = ((λ h. j), (λ a. refl))

  header_ok :
      (oracle : HeaderOracle Value) (hwp : HeaderWithProof)
      → Covers oracle.master_acc
      → (validate_header_with_proof c.accumulators oracle.master_acc hwp ≡ ok tt)
        ↔ Accepted c.accumulators oracle.master_acc hwp.header hwp.proof
  header_ok oracle hwp covers =
      header_judged oracle hwp _
        (validate_header_with_proof_lem c.accumulators oracle.master_acc hwp covers)

  sound :
      (oracle : HeaderOracle Value) (key : HistoryContentKey) (content : List ℕ)
      → Covers oracle.master_acc
      → validate_content c oracle key content ≡ ok tt
      → Accepts oracle key content
  unfolding validate_content
  sound oracle (block_header_with_proof_key block_hash) content covers h =
      let (hwp, decoded, h1) = and_then_ok _ _ tt h in
      let (same, h2) = demand_ok _ _ _ h1 in
      (hwp, or_error_ok _ _ hwp decoded, ==→≡ _ _ same, (header_ok oracle hwp covers).0 h2)
  sound oracle (block_body_key block_hash) content covers h =
      let (body, decoded, h1) = and_then_ok _ _ tt h in
      let (hwp, trusted, h2) = and_then_ok _ _ tt h1 in
      let (uncles, root, h3) = and_then_ok _ _ tt h2 in
      let (same, h4) = demand_ok _ _ _ h3 in
      let (txs, root', h5) = and_then_ok _ _ tt h4 in
      let (same', _) = demand_ok _ _ _ h5 in
      (
        body,
        hwp,
        or_error_ok _ _ body decoded,
        trusted,
        or_error_ok _ _ uncles root ∙ ap some (==→≡ _ _ same),
        or_error_ok _ _ txs root' ∙ ap some (==→≡ _ _ same'),
      )
  sound oracle (block_receipts_key block_hash) content covers h =
      let (r, decoded, h1) = and_then_ok _ _ tt h in
      let (hwp, trusted, h2) = and_then_ok _ _ tt h1 in
      let (actual, root, h3) = and_then_ok _ _ tt h2 in
      let (same, _) = demand_ok _ _ _ h3 in
      (
        r,
        hwp,
        or_error_ok _ _ r decoded,
        trusted,
        or_error_ok _ _ actual root ∙ ap some (==→≡ _ _ same),
      )
  sound oracle (epoch_accumulator_key epoch_hash) content covers h =
      let (epoch_acc, decoded, h1) = and_then_ok _ _ tt h in
      let (same, h2) = demand_ok _ _ _ h1 in
      let (known, _) = demand_ok _ _ _ h2 in
      let equal : epoch_hash ≡ c.accumulators.tree_hash_root epoch_acc = ==→≡ _ _ same in
      (
        epoch_acc,
        or_error_ok _ _ epoch_acc decoded,
        sym equal,
        (rw equal (contains-In oracle.master_acc.historical_epochs _ known)),
      )

  complete :
      (oracle : HeaderOracle Value) (key : HistoryContentKey) (content : List ℕ)
      → Covers oracle.master_acc
      → Accepts oracle key content
      → validate_content c oracle key content ≡ ok tt
  unfolding validate_content
  complete oracle (block_header_with_proof_key block_hash) content covers
        (hwp, decoded, same, accepted) =
      rw (decoded, ≡→== _ block_hash same, (header_ok oracle hwp covers).1 accepted) refl
  complete oracle (block_body_key block_hash) content covers
        (body, hwp, decoded, trusted, uncles, txs) =
      rw
        (
          decoded,
          trusted,
          uncles,
          ≡→== hwp.header.uncles_hash _ refl,
          txs,
          ≡→== hwp.header.transactions_root _ refl,
        )
        refl
  complete oracle (block_receipts_key block_hash) content covers (r, hwp, decoded, trusted, root) =
      rw (decoded, trusted, root, ≡→== hwp.header.receipts_root _ refl) refl
  complete oracle (epoch_accumulator_key epoch_hash) content covers
        (epoch_acc, decoded, same, known) =
      rw
        (
          decoded,
          same,
          ≡→== epoch_hash _ refl,
          In-contains oracle.master_acc.historical_epochs epoch_hash known,
        )
        refl

  -- Where the master accumulator has a root for each epoch before the merge, a content is valid under
  -- a key just if it is one of the valid contents of the key.
  pub validate_content-Accepts :
      (oracle : HeaderOracle Value) (key : HistoryContentKey) (content : List ℕ)
      → Covers oracle.master_acc
      → (validate_content c oracle key content ≡ ok tt) ↔ Accepts oracle key content
  validate_content-Accepts oracle key content covers =
      (sound oracle key content covers, complete oracle key content covers)
