-- ===== src/BTreeMap/Lookup.antt =====
-- What a lookup finds after each write.
use trin.Prelude.{
  ℕ, suc, ◌≤◌, ◌<◌, ◌≡◌, refl, ◌⊎◌, Option, none, some, [], ◌∷◌, arith, ◌==◌, if◌then◌else◌,
}
use trin.BTreeMap.{BTreeMap, get, or_insert, set}
use trin.BTreeMap.Order.{From}

module _ {ℓ} {V : Type ℓ} where
  abbrev pub or_else : Option V → V → Option V
  or_else none v = some v
  or_else (some w) v = some w

  pub get_below : (b d : ℕ) (m : BTreeMap V) → From b m → d < b → get d m ≡ none
  unfolding get
  get_below b d [] s h = refl
  get_below b d ((e, w) ∷ m) s h = ground (arith, get_below (suc e) d m)

  pub get-set :
      (d e : ℕ) (v w : V) (m : BTreeMap V)
      → get d m ≡ some w
      → get e (set d v m) ≡ (if d == e then some v else get e m)
  unfolding get set
  get-set d e v w [] h = cc
  get-set d e v w ((f, u) ∷ m) h = ground (arith, get-set d e v w m)

  pub get-or_insert :
      (b d e : ℕ) (v : V) (m : BTreeMap V)
      → From b m
      → get e (or_insert d v m) ≡ (if d == e then or_else (get d m) v else get e m)
  unfolding get or_insert
  get-or_insert b d e v [] s = ground arith
  get-or_insert b d e v ((f, u) ∷ m) s =
      ground (arith, get-or_insert (suc f) d e v m, get_below (suc f) d m)

  -- An entry stands at or above the bound.
  pub get_above : (b e : ℕ) (v : V) (m : BTreeMap V) → From b m → get e m ≡ some v → b ≤ e
  unfolding get
  get_above b e v [] s h = cc
  get_above b e v ((f, u) ∷ m) s h = ground (arith, get_above (suc f) e v m)

  pub get-cons :
      (d e : ℕ) (u v : V) (m : BTreeMap V)
      → get e ((d, u) ∷ m) ≡ some v
      → ((e ≡ d) × (u ≡ v)) ⊎ (get e m ≡ some v)
  unfolding get
  get-cons d e u v m h = ground arith

  pub get-cons_above : (d e : ℕ) (u : V) (m : BTreeMap V) → d < e → get e ((d, u) ∷ m) ≡ get e m
  unfolding get
  get-cons_above d e u m h = ground arith

  pub get-cons_self : (d : ℕ) (u : V) (m : BTreeMap V) → get d ((d, u) ∷ m) ≡ some u
  unfolding get
  get-cons_self d u m = ground arith

  -- An occupied entry is left as it is.
  pub get-or_insert_kept :
      (b d e : ℕ) (u v : V) (m : BTreeMap V)
      → get e m ≡ some u
      → From b m
      → get e (or_insert d v m) ≡ some u
  unfolding get or_insert
  get-or_insert_kept b d e u v [] h s = cc
  get-or_insert_kept b d e u v ((f, w) ∷ m) h s =
      ground (arith, get-or_insert_kept (suc f) d e u v m, get_above (suc f) e u m s.1)
