-- ===== src/Tests/Validation.antt =====
-- A small history network: a full epoch of headers of hash 7, a hash of two hashes that is the second,
-- and hexadecimal digits that start at the character 0.
use trin.Prelude.{
  ℕ, zero, suc, ◌+◌, ◌-◌, ◌*◌, ◌/◌, ◌%◌, ◌^◌, ◌≡◌, refl, ◌↔◌, ◌&&◌, Option, none, some, List, [],
  ◌∷◌, arith, ◌==◌, ≡→==, length, get_elem?,
}
use trin.Prelude.Outcome.{ok, error}
use trin.Validation.{
  Header, HeaderRecord, no_proof, accumulator_proof, HistoryContentKey, epoch_accumulator_key,
  proof_failed, Reply, answered,
}
use trin.Validation.Hex.{HexCrate, hex_decode}
use trin.Validation.Accumulator.{
  Crates, MasterAccumulator, epoch_size, leaves_of, lookup_epoch_acc, validate_header_with_proof,
  construct_proof, generate_proof,
}
use trin.Validation.Accumulator.Check.{Covers, Judges, validate_header_with_proof_lem}
use trin.Validation.Accumulator.Merkle.{root_from_branch, IsMerkle}
use trin.Validation.Accumulator.Proofs.{construct_proof-validate_header_with_proof}
use trin.Validation.Accumulator.Generated.{
  generate_proof-validate_header_with_proof, construct_proof_partial_epoch,
}
use trin.Validation.Oracle.{HeaderOracle, enrs}
use trin.Validation.Content.{ContentCrates, validate_content}
use trin.Validation.Content.Accepts.{Accepts, validate_content-Accepts}
use trin.Tests.Merkle.{tree_root, tree_proof, tree_proof_lem}

abbrev digits_of : List ℕ → List ℕ
digits_of [] = []
digits_of (b ∷ bytes) = (48 + b / 16) ∷ (48 + b % 16) ∷ digits_of bytes

abbrev prefixed : ℕ → Option (List ℕ) → Option (List ℕ)
prefixed b none = none
prefixed b (some bytes) = some (b ∷ bytes)

abbrev bytes_of : List ℕ → Option (List ℕ)
bytes_of [] = some []
bytes_of (c ∷ []) = none
bytes_of (c ∷ d ∷ text) = prefixed ((c - 48) * 16 + (d - 48)) (bytes_of text)

abbrev digits : HexCrate
digits = record { encode = digits_of; decode = bytes_of }

-- 0x, and the digits of 1 and of 171.
decoded_text : hex_decode digits (48 ∷ 120 ∷ 48 ∷ 49 ∷ 58 ∷ 59 ∷ []) ≡ ok (1 ∷ 171 ∷ [])
unfolding hex_decode
decoded_text = refl

abbrev seven : HeaderRecord
seven = record { block_hash = 7; total_difficulty = 9 }

sevens : ℕ → List HeaderRecord
sevens zero = []
sevens (suc n) = seven ∷ sevens n

length-sevens : (n : ℕ) → length (sevens n) ≡ n
unfolding sevens
length-sevens zero = refl
length-sevens (suc n) = omega (arith, length-sevens n)

first_seven : (n : ℕ) → get_elem? (sevens (suc n)) 0 ≡ some seven
unfolding sevens
first_seven n = refl

abbrev second : ℕ → ℕ → ℕ
second a b = b

abbrev number_chunk : ℕ → ℕ
number_chunk n = n * 2 ^ 232

abbrev with_proof : Option ℕ → List ℕ → Option (ℕ × List ℕ)
with_proof none proof = none
with_proof (some leaf) proof = some (leaf, proof)

abbrev network_crates : Crates (ℕ × List ℕ) ℕ
network_crates = record {
  hex = digits;
  header_hash = λ header. 7;
  tree_hash_root = λ epoch_acc. number_chunk (length epoch_acc);
  epoch_acc_from_ssz_bytes = λ bytes. some (sevens epoch_size);
  little_endian = number_chunk;
  as_str = λ value. some (b'0' ∷ b'x' ∷ []);
  create = λ leaves depth. (depth, leaves);
  generate_tree_proof =
      λ tree i depth. with_proof (get_elem? tree.1 i) (tree_proof second depth tree.1 i);
  verify_merkle_proof = λ leaf branch depth i r.
      (length branch == depth) && (root_from_branch second leaf branch i == r);
}

abbrev network_laws : IsMerkle network_crates
network_laws = record {
  concat = second;
  root = λ tree. tree_root second tree.0 tree.1;
  proves = λ leaves depth i leaf few e.
      let (long, leads) = tree_proof_lem second depth leaves i leaf few e in
      (tree_proof second depth leaves i, (rw e refl), long, leads);
  verifies = λ leaf branch depth i r. refl;
  list_root = λ epoch_acc few.
      (tree_root second 14 (leaves_of network_crates epoch_acc), refl, λ full. refl);
  length_chunk = refl;
}

abbrev header_of : ℕ → Header
header_of n = record {
  parent_hash = 0;
  uncles_hash = 2;
  author = 0;
  state_root = 0;
  transactions_root = 3;
  receipts_root = 4;
  logs_bloom = 0;
  difficulty = 1;
  number = n;
  gas_limit = 0;
  gas_used = 0;
  timestamp = 0;
  extra_data = [];
  mix_hash = none;
  nonce = none;
  base_fee_per_gas = none;
  withdrawals_root = none;
}

abbrev one_epoch : MasterAccumulator
one_epoch = record { historical_epochs = number_chunk (length (sevens epoch_size)) ∷ [] }

construct_proof-validate_header_with_proof_example :
    (proof : List ℕ) × (construct_proof network_crates (header_of 0) (sevens epoch_size) ≡ ok proof)
    × (validate_header_with_proof network_crates one_epoch
          (record { header = header_of 0; proof = accumulator_proof proof })
        ≡ ok tt)
construct_proof-validate_header_with_proof_example =
    construct_proof-validate_header_with_proof network_crates network_laws one_epoch (header_of 0)
      (sevens epoch_size) seven (length-sevens epoch_size) (first_seven 8191) refl (omega arith)
      refl

abbrev network : HistoryContentKey → Reply ℕ
network key = answered 0

-- A proof for the first header.
abbrev first_proof : List ℕ
first_proof = construct_proof-validate_header_with_proof_example.0

generate_proof-first :
    generate_proof network_crates one_epoch (header_of 0) network ≡ ok first_proof
unfolding generate_proof lookup_epoch_acc hex_decode
generate_proof-first =
    rw (≡→== (number_chunk (length (sevens epoch_size))) _ refl)
      construct_proof-validate_header_with_proof_example.1

only_full_epochs :
    (epoch_acc : List HeaderRecord)
    → get_elem? one_epoch.historical_epochs 0 ≡ some (number_chunk (length epoch_acc))
    → length epoch_acc ≡ epoch_size
only_full_epochs epoch_acc e =
    let same : number_chunk (length (sevens epoch_size)) ≡ number_chunk (length epoch_acc) = cc e in
    omega (arith, same, length-sevens epoch_size)

generate_proof-validate_header_with_proof_example :
    validate_header_with_proof network_crates one_epoch
      (record { header = header_of 0; proof = accumulator_proof first_proof })
    ≡ ok tt
generate_proof-validate_header_with_proof_example =
    generate_proof-validate_header_with_proof network_crates network_laws one_epoch (header_of 0)
      network first_proof only_full_epochs generate_proof-first

abbrev short_epoch : MasterAccumulator
short_epoch = record { historical_epochs = number_chunk (length (sevens 2)) ∷ [] }

short_epoch_proof :
    (proof : List ℕ) × (construct_proof network_crates (header_of 0) (sevens 2) ≡ ok proof)
unfolding construct_proof sevens tree_root tree_proof
short_epoch_proof = (_, refl)

construct_proof_partial_epoch_example :
    validate_header_with_proof network_crates short_epoch
      (record { header = header_of 0; proof = accumulator_proof short_epoch_proof.0 })
    ≡ error proof_failed
construct_proof_partial_epoch_example =
    construct_proof_partial_epoch network_crates network_laws short_epoch (header_of 0) (sevens 2)
      short_epoch_proof.0 (λ a b x y e. e) (λ n e. omega (arith, e))
      (omega (arith, length-sevens 2)) (omega arith) refl short_epoch_proof.1

epoch_roots : ℕ → List ℕ
epoch_roots zero = []
epoch_roots (suc n) = 5 ∷ epoch_roots n

length-epoch_roots : (n : ℕ) → length (epoch_roots n) ≡ n
unfolding epoch_roots
length-epoch_roots zero = refl
length-epoch_roots (suc n) = omega (arith, length-epoch_roots n)

abbrev all_epochs : MasterAccumulator
all_epochs = record { historical_epochs = number_chunk epoch_size ∷ epoch_roots 1896 }

all_epochs-Covers : Covers all_epochs
all_epochs-Covers = omega (arith, length-epoch_roots 1896)

validate_header_with_proof_lem_example :
    Judges network_crates all_epochs
      (record { header = header_of 15537393; proof = accumulator_proof [] })
      (validate_header_with_proof network_crates all_epochs
        (record { header = header_of 15537393; proof = accumulator_proof [] }))
validate_header_with_proof_lem_example =
    validate_header_with_proof_lem network_crates all_epochs
      (record { header = header_of 15537393; proof = accumulator_proof [] }) all_epochs-Covers

-- A body and receipts are a number, their root.
abbrev content_crates : ContentCrates (ℕ × List ℕ) ℕ ℕ ℕ
content_crates = record {
  accumulators = network_crates;
  content_info_from_value = λ value. some (enrs []);
  header_with_proof_from_ssz_bytes =
      λ bytes. some (record { header = header_of 20000000; proof = no_proof });
  block_body_from_ssz_bytes = λ bytes. some 2;
  receipts_from_ssz_bytes = λ bytes. some 4;
  uncles_root = λ body. some body;
  transactions_root = λ body. none;
  receipts_root = λ r. some r;
}

abbrev oracle_of : MasterAccumulator → HeaderOracle ℕ
oracle_of acc = record { history_jsonrpc_tx = some network; master_acc = acc }

validate_content-Accepts_example :
    (validate_content content_crates
        (oracle_of all_epochs)
        (epoch_accumulator_key (number_chunk epoch_size))
        []
      ≡ ok tt)
    ↔ Accepts content_crates
        (oracle_of all_epochs)
        (epoch_accumulator_key (number_chunk epoch_size))
        []
validate_content-Accepts_example =
    validate_content-Accepts content_crates (oracle_of all_epochs)
      (epoch_accumulator_key (number_chunk epoch_size)) [] all_epochs-Covers
