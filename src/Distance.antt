-- ===== src/Distance.antt =====
-- `XorMetric` of ethportal-api/src/types/distance.rs. An identifier is a list of 32 bytes;
-- `from_big_endian` of the type U256 is a parameter.
use Prim.Native.Nat.{bit_xor}
use trin.Prelude.{ℕ, List, [], ◌∷◌}

abbrev pub xor_bytes : List ℕ → List ℕ → List ℕ
xor_bytes [] y = []
xor_bytes (a ∷ x) [] = []
xor_bytes (a ∷ x) (b ∷ y) = bit_xor a b ∷ xor_bytes x y

abbrev pub xor_distance : (List ℕ → ℕ) → List ℕ → List ℕ → ℕ
xor_distance from_big_endian x y = from_big_endian (xor_bytes x y)
