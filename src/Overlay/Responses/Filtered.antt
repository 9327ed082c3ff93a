-- ===== src/Overlay/Responses/Filtered.antt =====
-- Sorted ENRs without those of the source, and a prefix of them.
use trin.Prelude.{
  ℕ, zero, suc, ◌≤◌, ◌≡◌, inl, inr, false, List, [], ◌∷◌, arith, length, take, All, All-map,
  All-take, All-In, In, here, there, Bool-cases,
}
use trin.Gossip.Sorting.{IsSorted, Served, take-Served}
use trin.Storage.{same_bytes}
use trin.Overlay.Responses.{Crates, without}

module _ {Enr : Type 0} (crates : Crates Enr) where
  -- The ENR is not that of the source.
  abbrev pub IsOther : List ℕ → Enr → Type 0
  IsOther source e = same_bytes (crates.node_id e) source ≡ false

  pub without-All :
      (P : Enr → Type 0) (source : List ℕ) (l : List Enr)
      → All P l
      → All (λ e. IsOther source e × P e) (without crates source l)
  without-All P source [] a = tt
  without-All P source (e ∷ l) a = elim (Bool-cases (same_bytes (crates.node_id e) source)) [
    | inl same ↦ rw same (without-All P source l a.1)
    | inr other ↦ rw (other, without) ((other, a.0), without-All P source l a.1)
  ]

  pub In-without :
      (source : List ℕ) (e : Enr) (l : List Enr)
      → In e l
      → IsOther source e
      → In e (without crates source l)
  In-without source e [] i other = elim i [ ]
  In-without source e (q ∷ l) (here _) other = rw other (here (without crates source l))
  In-without source e (q ∷ l) (there _ _ i) other =
      elim (Bool-cases (same_bytes (crates.node_id q) source)) [
        | inl same ↦ rw same (In-without source e l i other)
        | inr q_other ↦
            rw q_other (there q (without crates source l) (In-without source e l i other))
      ]

  pub without-IsSorted :
      (d : Enr → ℕ) (source : List ℕ) (l : List Enr)
      → IsSorted d l
      → IsSorted d (without crates source l)
  without-IsSorted d source [] s = tt
  without-IsSorted d source (e ∷ l) s = elim (Bool-cases (same_bytes (crates.node_id e) source)) [
    | inl same ↦ rw same (without-IsSorted d source l s.1)
    | inr other ↦ rw other (
      All-map _ (λ f. d e ≤ d f) (without crates source l) (λ f p. p.1)
          (without-All (λ f. d e ≤ d f) source l s.0),
      without-IsSorted d source l s.1,
    )
  ]

  pub take-IsSorted : (d : Enr → ℕ) (n : ℕ) (l : List Enr) → IsSorted d l → IsSorted d (take n l)
  take-IsSorted d zero l s = tt
  take-IsSorted d (suc n) [] s = tt
  take-IsSorted d (suc n) (e ∷ l) s = (All-take (λ f. d e ≤ d f) n l s.0, take-IsSorted d n l s.1)

  pub length-take-le : (n : ℕ) (l : List Enr) → length (take n l) ≤ n
  length-take-le zero l = omega arith
  length-take-le (suc n) [] = omega arith
  length-take-le (suc n) (e ∷ l) = omega (arith, length-take-le n l)

  pub length-without-le :
      (source : List ℕ) (l : List Enr) → length (without crates source l) ≤ length l
  length-without-le source [] = omega arith
  length-without-le source (e ∷ l) = elim (Bool-cases (same_bytes (crates.node_id e) source)) [
    | inl same ↦ rw same (omega (arith, length-without-le source l))
    | inr other ↦ rw other (omega (arith, length-without-le source l))
  ]

  -- What is cut off is not nearer.
  pub cut-Served :
      (d : Enr → ℕ) (source : List ℕ) (near : List Enr) (k : ℕ) (e : Enr)
      → Served d near e
      → IsOther source e
      → IsSorted d (without crates source near)
      → Served d (take k (without crates source near)) e
  cut-Served d source near k e (inl i) other s =
      let others = without crates source near in
      All-In (Served d (take k others)) others (take-Served d k others s)
        (In-without source e near i other)
  cut-Served d source near k e (inr farther) other s = inr (
      All-take (λ f. d f ≤ d e) k (without crates source near)
        (All-map _ (λ f. d f ≤ d e) (without crates source near) (λ f p. p.1)
          (without-All (λ f. d f ≤ d e) source near farther)))
