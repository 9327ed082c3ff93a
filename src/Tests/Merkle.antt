-- ===== src/Tests/Merkle.antt =====
-- A Merkle tree over any hash of two hashes.
use native.Mathlib.Nat.{pow-succ'}
use trin.Prelude.{
  ℕ, zero, suc, ◌+◌, ◌-◌, ◌*◌, ◌^◌, ◌≤◌, ◌<◌, ◌≡◌, refl, ap, ◌∙◌, inl, inr, some, List, [], ◌∷◌,
  ◌++◌, arith, ltb, length, length-append, length-take, length-drop, take, drop, get_elem?,
  Bool-cases, if◌then◌else◌,
}
use trin.Validation.Accumulator.Merkle.{root_from_branch, root_from_branch-append}

get_elem?-lt : (l : List ℕ) (i x : ℕ) → get_elem? l i ≡ some x → i < length l
get_elem?-lt [] i x e = absurd (cc e)
get_elem?-lt (y ∷ l) zero x e = omega arith
get_elem?-lt (y ∷ l) (suc i) x e = omega (arith, get_elem?-lt l i x e)

get_elem?-take : (l : List ℕ) (n i : ℕ) → i < n → get_elem? (take n l) i ≡ get_elem? l i
get_elem?-take l zero i h = absurd (omega arith)
get_elem?-take [] (suc n) i h = refl
get_elem?-take (x ∷ l) (suc n) zero h = refl
get_elem?-take (x ∷ l) (suc n) (suc i) h = get_elem?-take l n i (omega arith)

get_elem?-drop : (l : List ℕ) (n i : ℕ) → get_elem? (drop n l) i ≡ get_elem? l (n + i)
get_elem?-drop l zero i = let same : i ≡ 0 + i = omega arith in ap (get_elem? l) same
get_elem?-drop [] (suc n) i = refl
get_elem?-drop (x ∷ l) (suc n) i =
    let same : suc (n + i) ≡ suc n + i = omega arith in
    get_elem?-drop l n i ∙ ap (get_elem? (x ∷ l)) same

module _ (concat : ℕ → ℕ → ℕ) where
  unfoldable pub tree_root : ℕ → List ℕ → ℕ
  tree_root zero [] = 0
  tree_root zero (x ∷ leaves) = x
  tree_root (suc depth) leaves =
      concat (tree_root depth (take (2 ^ depth) leaves)) (tree_root depth (drop (2 ^ depth) leaves))

  unfoldable pub tree_proof : ℕ → List ℕ → ℕ → List ℕ
  unfolding tree_root
  tree_proof zero leaves i = []
  tree_proof (suc depth) leaves i =
      let left = tree_proof depth (take (2 ^ depth) leaves) i in
      let right = tree_proof depth (drop (2 ^ depth) leaves) (i - 2 ^ depth) in
      if ltb i (2 ^ depth)
      then left ++ (tree_root depth (drop (2 ^ depth) leaves) ∷ [])
      else right ++ (tree_root depth (take (2 ^ depth) leaves) ∷ [])

  pub tree_proof_lem :
      (depth : ℕ) (leaves : List ℕ) (i leaf : ℕ)
      → length leaves ≤ 2 ^ depth
      → get_elem? leaves i ≡ some leaf
      → (length (tree_proof depth leaves i) ≡ depth)
        × (root_from_branch concat leaf (tree_proof depth leaves i) i ≡ tree_root depth leaves)
  unfolding tree_root tree_proof
  tree_proof_lem zero [] i leaf h e = absurd (cc e)
  tree_proof_lem zero (x ∷ leaves) zero leaf h e = (refl, cc e)
  tree_proof_lem zero (x ∷ leaves) (suc i) leaf h e =
      absurd (omega (arith, get_elem?-lt leaves i leaf e))
  tree_proof_lem (suc depth) leaves i leaf h e = elim (Bool-cases (ltb i (2 ^ depth))) [
    | inl left ↦
        let near : i < 2 ^ depth = ground arith in
        let (long, leads) =
          tree_proof_lem depth (take (2 ^ depth) leaves) i leaf
            (omega (arith, length-take (2 ^ depth) leaves))
            (get_elem?-take leaves (2 ^ depth) i near ∙ e) in
        let place : i ≡ i + 2 ^ depth * 0 = omega arith in
        rw left (
          longer _ _ long,
          joins (tree_proof depth (take (2 ^ depth) leaves) i)
              (tree_root depth (drop (2 ^ depth) leaves)) i 0 long near leads place,
        )
    | inr right ↦
        let far : 2 ^ depth ≤ i = ground arith in
        let within = get_elem?-lt leaves i leaf e in
        let twice : 2 ^ suc depth ≡ 2 * 2 ^ depth = pow-succ' 2 depth in
        let near : i - 2 ^ depth < 2 ^ depth = omega (arith, h, within, twice) in
        let back : 2 ^ depth + (i - 2 ^ depth) ≡ i = omega (arith, far) in
        let (long, leads) =
          tree_proof_lem depth (drop (2 ^ depth) leaves) (i - 2 ^ depth) leaf
            (omega (arith, length-drop (2 ^ depth) leaves, twice, h))
            (get_elem?-drop leaves (2 ^ depth) (i - 2 ^ depth)
              ∙ (ap (get_elem? leaves) back ∙ e)) in
        let place : i ≡ (i - 2 ^ depth) + 2 ^ depth * 1 = omega (arith, far) in
        rw right (
          longer _ _ long,
          joins (tree_proof depth (drop (2 ^ depth) leaves) (i - 2 ^ depth))
              (tree_root depth (take (2 ^ depth) leaves)) (i - 2 ^ depth) 1 long near leads place,
        )
  ]
    where
      longer : (p : List ℕ) (x : ℕ) → length p ≡ depth → length (p ++ (x ∷ [])) ≡ suc depth
      longer p x long = length-append p (x ∷ []) ∙ omega (arith, long)

      joins :
          (p : List ℕ) (x j k : ℕ) {top : ℕ}
          → length p ≡ depth
          → j < 2 ^ depth
          → root_from_branch concat leaf p j ≡ top
          → i ≡ j + 2 ^ depth * k
          → root_from_branch concat leaf (p ++ (x ∷ [])) i ≡ root_from_branch concat top (x ∷ []) k
      joins p x j k long near leads place =
          ap (root_from_branch concat leaf (p ++ (x ∷ []))) place
          ∙ (root_from_branch-append concat leaf x p depth j k long near
              ∙ ap (λ a. root_from_branch concat a (x ∷ []) k) leads)
