-- ===== src/Gossip/Sorting.antt =====
-- Sorting by distance, as the choice of recipients uses it.
use trin.Prelude.{
  ℕ, zero, suc, ◌≤◌, ◌≡◌, refl, ap, ◌∙◌, ◌⊎◌, inl, inr, Bool, true, false, List, [], ◌∷◌, arith,
  leb, length, take, All, In, here, there, All-map, Bool-cases, if◌then◌else◌,
}
use trin.Gossip.{insert_by, sort_by}

module _ {A : Type 0} (d : A → ℕ) where
  -- From the nearest on.
  abbrev pub IsSorted : List A → Type 0
  IsSorted [] = Unit
  IsSorted (x ∷ l) = All (λ y. d x ≤ d y) l × IsSorted l

  insert_by-All : (P : A → Type 0) (x : A) (l : List A) → P x → All P l → All P (insert_by d x l)
  unfolding insert_by
  insert_by-All P x [] p a = (p, tt)
  insert_by-All P x (y ∷ l) p a = elim (Bool-cases (leb (d x) (d y))) [
    | inl before ↦ rw (before, insert_by) (p, a)
    | inr after ↦ rw (after, insert_by) (a.0, insert_by-All P x l p a.1)
  ]

  All-insert_by : (P : A → Type 0) (x : A) (l : List A) → All P (insert_by d x l) → P x × All P l
  unfolding insert_by
  All-insert_by P x [] a = (a.0, tt)
  All-insert_by P x (y ∷ l) a = split (leb (d x) (d y)) (λ h. All-insert_by P x l h) a
    where
      split :
          (b : Bool)
          → (All P (insert_by d x l) → P x × All P l)
          → All P (if b then x ∷ y ∷ l else y ∷ insert_by d x l)
          → P x × (P y × All P l)
      split true f h = h
      split false f h = let (p, r) = f h.1 in (p, (h.0, r))

  insert_by-IsSorted : (x : A) (l : List A) → IsSorted l → IsSorted (insert_by d x l)
  unfolding insert_by
  insert_by-IsSorted x [] s = (tt, tt)
  insert_by-IsSorted x (y ∷ l) s = elim (Bool-cases (leb (d x) (d y))) [
    | inl before ↦
        let h : d x ≤ d y = ground arith in
        rw (before, insert_by)
          ((h, All-map (λ z. d y ≤ d z) (λ z. d x ≤ d z) l (λ z g. omega arith) s.0), s)
    | inr after ↦
        let h : d y ≤ d x = ground arith in
        rw (after, insert_by) (insert_by-All (λ z. d y ≤ d z) x l h s.0, insert_by-IsSorted x l s.1)
  ]

  length-insert_by : (x : A) (l : List A) → length (insert_by d x l) ≡ suc (length l)
  unfolding insert_by
  length-insert_by x [] = refl
  length-insert_by x (y ∷ l) = elim (Bool-cases (leb (d x) (d y))) [
    | inl before ↦ rw (before, insert_by) refl
    | inr after ↦ rw (after, insert_by) (ap suc (length-insert_by x l))
  ]

  pub sort_by-All : (P : A → Type 0) (l : List A) → All P l → All P (sort_by d l)
  unfolding sort_by
  sort_by-All P [] a = tt
  sort_by-All P (x ∷ l) a = insert_by-All P x (sort_by d l) a.0 (sort_by-All P l a.1)

  pub All-sort_by : (P : A → Type 0) (l : List A) → All P (sort_by d l) → All P l
  unfolding sort_by
  All-sort_by P [] a = tt
  All-sort_by P (x ∷ l) a = let (p, r) = All-insert_by P x (sort_by d l) a in (p, All-sort_by P l r)

  pub sort_by-IsSorted : (l : List A) → IsSorted (sort_by d l)
  unfolding sort_by
  sort_by-IsSorted [] = tt
  sort_by-IsSorted (x ∷ l) = insert_by-IsSorted x (sort_by d l) (sort_by-IsSorted l)

  pub length-sort_by : (l : List A) → length (sort_by d l) ≡ length l
  unfolding sort_by
  length-sort_by [] = refl
  length-sort_by (x ∷ l) = length-insert_by x (sort_by d l) ∙ ap suc (length-sort_by l)

  -- An element is listed, or none that is listed is farther.
  abbrev pub Served : List A → A → Type 0
  Served l e = In e l ⊎ All (λ f. d f ≤ d e) l

  pub take-Served : (n : ℕ) (l : List A) → IsSorted l → All (Served (take n l)) l
  take-Served zero [] s = tt
  take-Served zero (x ∷ l) s = (inr tt, take-Served zero l s.1)
  take-Served (suc n) [] s = tt
  take-Served (suc n) (x ∷ l) s = (inl (here (take n l)), farther l s.0 (take-Served n l s.1))
    where
      farther :
          (m : List A)
          → All (λ y. d x ≤ d y) m
          → All (Served (take n l)) m
          → All (Served (x ∷ take n l)) m
      farther [] a b = tt
      farther (y ∷ m) a b = (one b.0, farther m a.1 b.1)
        where
          one : Served (take n l) y → Served (x ∷ take n l) y
          one (inl i) = inl (there x (take n l) i)
          one (inr f) = inr (a.0, f)
