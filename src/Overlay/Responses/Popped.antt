-- ===== src/Overlay/Responses/Popped.antt =====
-- What `pop_while_ssz_bytes_len_gt` leaves.
use trin.Prelude.{
  ℕ, zero, suc, ◌≤◌, ◌<◌, ◌≡◌, refl, ap, subst, true, false, some, List, [], ◌∷◌, arith, ltb,
  length, take, Bool-cases, inl, inr,
}
use trin.Overlay.Responses.{Crates, pop, pop_loop, pop_while_ssz_bytes_len_gt}

module _ {A : Type 0} where
  pop-take : (n : ℕ) (l : List A) → suc n ≤ length l → pop (take (suc n) l) ≡ take n l
  pop-take n [] h = absurd (omega arith)
  pop-take zero (x ∷ l) h = refl
  pop-take (suc n) (x ∷ []) h = absurd (omega arith)
  pop-take (suc n) (x ∷ y ∷ l) h = ap (◌∷◌ x) (pop-take n (y ∷ l) (omega arith))

  take-all : (l : List A) → take (length l) l ≡ l
  take-all [] = refl
  take-all (x ∷ l) = ap (◌∷◌ x) (take-all l)

module _ {Enr : Type 0} (crates : Crates Enr) where
  -- The longest prefix that fits.
  abbrev pub Fits : List Enr → ℕ → ℕ → Type 0
  Fits l max_size k =
      (k ≤ length l)
      × (crates.ssz_bytes_len (take k l) ≤ max_size)
      × ((j : ℕ) → k < j → j ≤ length l → max_size < crates.ssz_bytes_len (take j l))

  pop_loop_lem :
      (n : ℕ) (l : List Enr) (max_size : ℕ)
      → crates.ssz_bytes_len [] ≡ 0
      → n ≤ length l
      → ((j : ℕ) → n < j → j ≤ length l → max_size < crates.ssz_bytes_len (take j l))
      → (k : ℕ) × (pop_loop crates n (take n l) max_size ≡ some (take k l)) × Fits l max_size k
  pop_loop_lem zero l max_size empty h beyond =
      let fits : ltb max_size (crates.ssz_bytes_len []) ≡ false = rw empty (ground arith) in
      (0, (rw fits refl), (omega arith, omega (arith, empty), beyond))
  pop_loop_lem (suc n) l max_size empty h beyond =
      elim (Bool-cases (ltb max_size (crates.ssz_bytes_len (take (suc n) l)))) [
        | inl over ↦
            let (k, e, fits) = pop_loop_lem n l max_size empty (omega (arith, h)) (longer over) in
            (k, (rw (over, pop-take n l h) e), fits)
        | inr fits ↦ (suc n, (rw fits refl), (h, (ground arith), beyond))
      ]
    where
      longer :
          ltb max_size (crates.ssz_bytes_len (take (suc n) l)) ≡ true
          → (j : ℕ) → n < j
          → j ≤ length l
          → max_size < crates.ssz_bytes_len (take j l)
      longer over j above within = elim (Bool-cases (ltb (suc n) j)) [
        | inl more ↦ beyond j (ground arith) within
        | inr same ↦ let equal : j ≡ suc n = ground arith in rw equal (ground arith)
      ]

  -- Enough ENRs are taken off the end, and no more.
  pub pop_while_ssz_bytes_len_gt_lem :
      (l : List Enr) (max_size : ℕ)
      → crates.ssz_bytes_len [] ≡ 0
      → (k : ℕ) × (pop_while_ssz_bytes_len_gt crates l max_size ≡ some (take k l))
        × Fits l max_size k
  unfolding pop_while_ssz_bytes_len_gt
  pop_while_ssz_bytes_len_gt_lem l max_size empty =
      let (k, e, fits) =
        pop_loop_lem (length l) l max_size empty (omega arith)
          (λ j above within. absurd (omega arith)) in
      (
        k,
        (subst (λ m. pop_loop crates (length l) m max_size ≡ some (take k l)) (take-all l) e),
        fits,
      )
