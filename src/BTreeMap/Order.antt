-- ===== src/BTreeMap/Order.antt =====
-- The entries stay in strictly ascending order of key.
use trin.Prelude.{ℕ, suc, ◌≤◌, List, [], ◌∷◌, arith}
use trin.BTreeMap.{BTreeMap, or_insert, insert, set, collect}

module _ {ℓ} {V : Type ℓ} where
  -- Keys ascend and none is below the bound.
  abbrev pub From : ℕ → BTreeMap V → Type 0
  From b [] = Unit
  From b ((d, v) ∷ m) = (b ≤ d) × From (suc d) m

  abbrev pub IsSorted : BTreeMap V → Type 0
  IsSorted = From 0

  pub or_insert-From :
      (b d : ℕ) (v : V) (m : BTreeMap V) → b ≤ d → From b m → From b (or_insert d v m)
  unfolding or_insert
  or_insert-From b d v [] h s = (h, tt)
  or_insert-From b d v ((e, w) ∷ m) h s = ground (arith, or_insert-From (suc e) d v m)

  pub insert-From : (b d : ℕ) (v : V) (m : BTreeMap V) → b ≤ d → From b m → From b (insert d v m)
  unfolding insert
  insert-From b d v [] h s = (h, tt)
  insert-From b d v ((e, w) ∷ m) h s = ground (arith, insert-From (suc e) d v m)

  pub set-From : (b d : ℕ) (v : V) (m : BTreeMap V) → From b m → From b (set d v m)
  unfolding set
  set-From b d v [] s = tt
  set-From b d v ((e, w) ∷ m) s = ground (arith, set-From (suc e) d v m)

  pub collect-IsSorted :
      (m : BTreeMap V) (rest : List (ℕ × V)) → IsSorted m → IsSorted (collect m rest)
  unfolding collect
  collect-IsSorted m [] s = s
  collect-IsSorted m ((d, v) ∷ rest) s =
      collect-IsSorted (insert d v m) rest (insert-From 0 d v m (omega arith) s)
