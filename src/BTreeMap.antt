-- ===== src/BTreeMap.antt =====
-- `std::collections::BTreeMap` keyed by numbers, as far as the queries use it: its entries in
-- ascending order of key.
pub mod Order
pub mod Lookup
use Prim.Native.Nat.{compare, Ordering}
use trin.Prelude.{ℕ, Option, none, some, List, [], ◌∷◌}

abbrev pub BTreeMap {ℓ} : Type ℓ → Type ℓ
BTreeMap V = List (ℕ × V)

module _ {ℓ} {V : Type ℓ} where
  -- `entry(d)`: the value of an occupied entry.
  unfoldable pub get : ℕ → BTreeMap V → Option V
  get d [] = none
  get d ((e, w) ∷ m) = elim (compare d e) [ Ordering.eq ↦ some w | _ ↦ get d m ]

  -- `entry(d).or_insert(v)`
  unfoldable pub or_insert : ℕ → V → BTreeMap V → BTreeMap V
  or_insert d v [] = (d, v) ∷ []
  or_insert d v ((e, w) ∷ m) = elim (compare d e) [
    | Ordering.lt ↦ (d, v) ∷ (e, w) ∷ m
    | Ordering.eq ↦ (e, w) ∷ m
    | Ordering.gt ↦ (e, w) ∷ or_insert d v m
  ]

  -- `insert(d, v)`: replaces the value of an occupied entry.
  unfoldable pub insert : ℕ → V → BTreeMap V → BTreeMap V
  insert d v [] = (d, v) ∷ []
  insert d v ((e, w) ∷ m) = elim (compare d e) [
    | Ordering.lt ↦ (d, v) ∷ (e, w) ∷ m
    | Ordering.eq ↦ (d, v) ∷ m
    | Ordering.gt ↦ (e, w) ∷ insert d v m
  ]

  -- A write through `get_mut` of an occupied entry.
  unfoldable pub set : ℕ → V → BTreeMap V → BTreeMap V
  set d v [] = []
  set d v ((e, w) ∷ m) = elim (compare d e) [ Ordering.eq ↦ (e, v) ∷ m | _ ↦ (e, w) ∷ set d v m ]

  -- `keys().next()`
  unfoldable pub first_key : BTreeMap V → Option ℕ
  first_key [] = none
  first_key ((d, v) ∷ m) = some d

  -- `collect()`: the entries are inserted in turn, so that of two with one key the later stays.
  unfoldable pub collect : BTreeMap V → List (ℕ × V) → BTreeMap V
  collect m [] = m
  collect m ((d, v) ∷ rest) = collect (insert d v m) rest
