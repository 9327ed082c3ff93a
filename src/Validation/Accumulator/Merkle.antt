-- ===== src/Validation/Accumulator/Merkle.antt =====
-- What the Merkle tree, copied from Lighthouse, and tree_hash document.
use native.Mathlib.Nat.{pow-succ', mul_assoc}
use trin.Prelude.{
  ℕ, zero, suc, ◌+◌, ◌*◌, ◌/◌, ◌%◌, ◌^◌, ◌≤◌, ◌<◌, ◌≡◌, ap, ◌∙◌, ◌&&◌, some, List, [], ◌∷◌, ◌++◌,
  arith, ◌==◌, length, get_elem?, if◌then◌else◌,
}
use trin.Validation.{HeaderRecord}
use trin.Validation.Accumulator.{Crates, epoch_size, epoch_size_chunk, leaves_of}

-- The root that a branch leads to from a leaf, in bottom-up order: the bits of the index say on which
-- side the branch joins.
abbrev pub root_from_branch : (ℕ → ℕ → ℕ) → ℕ → List ℕ → ℕ → ℕ
root_from_branch concat leaf [] index = leaf
root_from_branch concat leaf (b ∷ branch) index =
    root_from_branch concat (if index % 2 == 1 then concat b leaf else concat leaf b) branch
      (index / 2)

-- The laws of the libraries, for a hash `concat` of two hashes and the hash `root` of a tree.
pub record IsMerkle {Tree Value : Type 0} (c : Crates Tree Value) : Type 0 where
  pub concat : ℕ → ℕ → ℕ
  pub root : Tree → ℕ
  -- A proof is of the depth of the tree, and leads from the leaf at the index to the root.
  pub proves :
      (leaves : List ℕ) (depth i leaf : ℕ)
      → length leaves ≤ 2 ^ depth
      → get_elem? leaves i ≡ some leaf
      → (proof : List ℕ) × (c.generate_tree_proof (c.create leaves depth) i depth
          ≡ some (leaf, proof))
        × (length proof ≡ depth)
        × (root_from_branch concat leaf proof i ≡ root (c.create leaves depth))
  pub verifies :
      (leaf : ℕ) (branch : List ℕ) (depth i r : ℕ)
      → c.verify_merkle_proof leaf branch depth i r
        ≡ ((length branch == depth) && (root_from_branch concat leaf branch i == r))
  -- The root of a list is that of its elements with its length. In a full epoch accumulator each
  -- record has both its leaves.
  pub list_root :
      (epoch_acc : List HeaderRecord)
      → length epoch_acc ≤ epoch_size
      → (elements : ℕ) × (c.tree_hash_root epoch_acc
          ≡ concat elements (c.little_endian (length epoch_acc)))
        × (length epoch_acc ≡ epoch_size → elements ≡ root (c.create (leaves_of c epoch_acc) 14))
  pub length_chunk : c.little_endian epoch_size ≡ epoch_size_chunk c

-- A last element of the branch joins at the bits of the index that are left over.
pub root_from_branch-append :
    (concat : ℕ → ℕ → ℕ) (leaf x : ℕ) (branch : List ℕ) (depth i k : ℕ)
    → length branch ≡ depth
    → i < 2 ^ depth
    → root_from_branch concat leaf (branch ++ (x ∷ [])) (i + 2 ^ depth * k)
      ≡ root_from_branch concat (root_from_branch concat leaf branch i) (x ∷ []) k
root_from_branch-append concat leaf x [] zero i k e h =
    let left_over : i + 2 ^ 0 * k ≡ k = omega arith in
    ap (root_from_branch concat leaf (x ∷ [])) left_over
root_from_branch-append concat leaf x [] (suc depth) i k e h = absurd (omega arith)
root_from_branch-append concat leaf x (b ∷ branch) zero i k e h = absurd (omega arith)
root_from_branch-append concat leaf x (b ∷ branch) (suc depth) i k e h =
    let twice : 2 ^ suc depth * k ≡ 2 * (2 ^ depth * k) =
      ap (λ p. p * k) (pow-succ' 2 depth) ∙ mul_assoc 2 (2 ^ depth) k in
    let parity : (i + 2 ^ suc depth * k) % 2 ≡ i % 2 = rw twice (omega arith) in
    let half : (i + 2 ^ suc depth * k) / 2 ≡ i / 2 + 2 ^ depth * k = rw twice (omega arith) in
    let joined = if i % 2 == 1 then concat b leaf else concat leaf b in
    rw (root_from_branch, parity, half)
      (root_from_branch-append concat joined x branch depth (i / 2) k (omega arith) (omega arith))
