-- ===== src/Storage/Bytes.antt =====
-- Equality of byte strings.
use trin.Prelude.{ℕ, ◌≡◌, refl, ap, ◌∙◌, Bool, true, false, ◌&&◌, List, [], ◌∷◌, arith, ◌==◌, ==→≡}
use trin.Storage.{same_bytes}

pub same_bytes_refl : (x : List ℕ) → same_bytes x x ≡ true
same_bytes_refl [] = refl
same_bytes_refl (a ∷ x) = let e : (a == a) ≡ true = ground arith in rw (e, same_bytes_refl x) refl

pub same_bytes→≡ : (x y : List ℕ) → same_bytes x y ≡ true → x ≡ y
same_bytes→≡ [] [] h = refl
same_bytes→≡ [] (b ∷ y) h = cc
same_bytes→≡ (a ∷ x) [] h = cc
same_bytes→≡ (a ∷ x) (b ∷ y) h = split (same_bytes→≡ x y) (a == b) refl h
  where
    split :
        (same_bytes x y ≡ true → x ≡ y)
        → (t : Bool) → (a == b) ≡ t
        → (t && same_bytes x y) ≡ true
        → (a ∷ x) ≡ (b ∷ y)
    split tails true e g = ap (λ c. c ∷ x) (==→≡ a b e) ∙ ap (◌∷◌ b) (tails g)
    split tails false e g = cc
