-- ===== src/Overlay/Offer/Wants.antt =====
-- The bits of an ACCEPT against what the store of the accepting node wants.
use trin.Prelude.{◌≡◌, refl, Bool, true, false, ◌&&◌, List, [], ◌∷◌, All, ℕ, Option}
use trin.Prelude.Outcome.{ok}
use trin.Storage.{store_it}
use trin.Overlay.{ContentStore}
use trin.Overlay.Offer.{is_zero}
use trin.Overlay.Offer.Accepted.{Wanted}

abbrev pub all_set : List Bool → Bool
all_set [] = true
all_set (b ∷ bits) = b && all_set bits

module _ {Store ContentKey E : Type 0} (c : ContentStore Store ContentKey E) where
  -- The store answers that it wants the content of the key.
  abbrev pub Wants : Store → ContentKey → Type 0
  Wants s key = c.is_key_within_radius_and_unavailable s key ≡ ok store_it

module _ {Store ContentKey E : Type 0} (c : ContentStore Store ContentKey E)
    (try_from : List ℕ → Option ContentKey) where
  pub Wanted-is_zero :
      (s : Store) (keys : List ContentKey) (bits : List Bool)
      → Wanted c try_from s keys bits
      → is_zero bits ≡ true
      → All (λ key. ¬ Wants c s key) keys
  Wanted-is_zero s [] [] w e = tt
  Wanted-is_zero s [] (b ∷ bits) w e = absurd w
  Wanted-is_zero s (key ∷ keys) [] w e = absurd w
  Wanted-is_zero s (key ∷ keys) (true ∷ bits) w e = absurd (cc e)
  Wanted-is_zero s (key ∷ keys) (false ∷ bits) w e = (
    (λ wanted. let set : false ≡ true = w.0.1 wanted in absurd (cc set)),
    Wanted-is_zero s keys bits w.1 e,
  )

  pub Wanted-not-is_zero :
      (s : Store) (keys : List ContentKey) (bits : List Bool)
      → Wanted c try_from s keys bits
      → is_zero bits ≡ false
      → ¬ All (λ key. ¬ Wants c s key) keys
  Wanted-not-is_zero s [] [] w e none_wanted = absurd (cc e)
  Wanted-not-is_zero s [] (b ∷ bits) w e none_wanted = absurd w
  Wanted-not-is_zero s (key ∷ keys) [] w e none_wanted = absurd w
  Wanted-not-is_zero s (key ∷ keys) (true ∷ bits) w e none_wanted = none_wanted.0 (w.0.0 refl)
  Wanted-not-is_zero s (key ∷ keys) (false ∷ bits) w e none_wanted =
      Wanted-not-is_zero s keys bits w.1 e none_wanted.1

  pub Wanted-all_set :
      (s : Store) (keys : List ContentKey) (bits : List Bool)
      → Wanted c try_from s keys bits
      → all_set bits ≡ true
      → All (Wants c s) keys
  Wanted-all_set s [] [] w e = tt
  Wanted-all_set s [] (b ∷ bits) w e = absurd w
  Wanted-all_set s (key ∷ keys) [] w e = absurd w
  Wanted-all_set s (key ∷ keys) (true ∷ bits) w e = (w.0.0 refl, Wanted-all_set s keys bits w.1 e)
  Wanted-all_set s (key ∷ keys) (false ∷ bits) w e = absurd (cc e)

  pub Wanted-not-all_set :
      (s : Store) (keys : List ContentKey) (bits : List Bool)
      → Wanted c try_from s keys bits
      → all_set bits ≡ false
      → ¬ All (Wants c s) keys
  Wanted-not-all_set s [] [] w e all = absurd (cc e)
  Wanted-not-all_set s [] (b ∷ bits) w e all = absurd w
  Wanted-not-all_set s (key ∷ keys) [] w e all = absurd w
  Wanted-not-all_set s (key ∷ keys) (true ∷ bits) w e all =
      Wanted-not-all_set s keys bits w.1 e all.1
  Wanted-not-all_set s (key ∷ keys) (false ∷ bits) w e all =
      let set : false ≡ true = w.0.1 all.0 in absurd (cc set)
