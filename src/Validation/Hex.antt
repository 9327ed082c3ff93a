-- ===== src/Validation/Hex.antt =====
-- ethportal-api/src/utils/bytes.rs: bytes as hexadecimal text. The crate hex is a parameter.
use trin.Prelude.{
  ℕ, ◌-◌, Bool, true, not, ◌&&◌, Option, none, some, List, [], ◌∷◌, ◌++◌, ltb, leb, ◌==◌, length,
  take, drop, if◌then◌else◌,
}
use trin.Prelude.Outcome.{Outcome, error, ok}
use trin.Validation.{ValidationError, no_prefix, wrong_prefix, invalid_hex}

-- `hex::encode` and `hex::decode`.
pub record HexCrate : Type 0 where
  pub encode : List ℕ → List ℕ
  pub decode : List ℕ → Option (List ℕ)

-- No character goes on at this place of a text in UTF-8.
abbrev pub is_char_boundary : List ℕ → Bool
is_char_boundary [] = true
is_char_boundary (c ∷ rest) = not (leb 128 c && ltb c 192)

abbrev pub decoded : Option (List ℕ) → Outcome ValidationError (List ℕ)
decoded none = error invalid_hex
decoded (some bytes) = ok bytes

module _ (hex : HexCrate) where
  unfoldable pub hex_encode : List ℕ → List ℕ
  hex_encode bytes = b'0' ∷ b'x' ∷ hex.encode bytes

  unfoldable pub hex_decode : List ℕ → Outcome ValidationError (List ℕ)
  hex_decode [] = error no_prefix
  hex_decode (a ∷ []) = error no_prefix
  hex_decode (a ∷ b ∷ post_prefix) =
      if is_char_boundary post_prefix
      then (if (a == b'0') && (b == b'x')
          then decoded (hex.decode post_prefix)
          else error wrong_prefix)
      else error no_prefix

  unfoldable pub hex_encode_compact : List ℕ → List ℕ
  unfolding hex_encode
  hex_encode_compact bytes =
      let text = hex.encode bytes in
      if leb (length bytes) 8
      then hex_encode bytes
      else b'0' ∷ b'x' ∷ (take 4 text ++ (b'.' ∷ b'.' ∷ drop (length text - 4) text))
