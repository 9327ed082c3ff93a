-- ===== src/Wire.antt =====
-- portalnet/src/utils/portal_wire.rs: several contents in the payload of one uTP transfer, each after
-- its length as a varint. A byte is a number. The crate leb128 is a parameter.
pub mod Varint
pub mod Codec
pub mod Rounds
pub mod Runs
use trin.Prelude.{
  ℕ, zero, suc, ◌+◌, ◌-◌, ◌^◌, true, false, Option, none, some, List, [], ◌∷◌, ◌++◌, ltb, leb,
  length, take, drop, if◌then◌else◌,
}
use trin.Prelude.Outcome.{Outcome, panic, error, ok, and_then}

-- `write` appends the varint of a number; `read` reads one at the front of a buffer, or fails.
pub record Leb128 : Type 0 where
  pub write : ℕ → List ℕ
  pub read : List ℕ → Option ℕ

pub data PayloadError : Type 0 where
  item_too_long : PayloadError
  varint_too_long : PayloadError
  no_varint : PayloadError
  index_cut_off : PayloadError
  item_cut_off : PayloadError

abbrev pub u32_max : ℕ
u32_max = 2 ^ 32 - 1

module _ (leb128 : Leb128) where
  abbrev pub found_varint : ℕ → ℕ → Outcome PayloadError (ℕ × ℕ)
  found_varint i varint = if ltb u32_max varint then error varint_too_long else ok (i, varint)

  -- The loop of `read_varint` from `i` on. The slice `buf[0..i]` panics beyond the end of `buf`.
  unfoldable pub read_from : ℕ → ℕ → List ℕ → Outcome PayloadError (ℕ × ℕ)
  read_from zero i buf = error no_varint
  read_from (suc turns) i buf = elim (ltb (length buf) i) [
    | true ↦ panic
    | false ↦ elim (leb128.read (take i buf)) [
      | some varint ↦ found_varint i varint
      | none ↦ read_from turns (i + 1) buf
    ]
  ]

  unfoldable pub read_varint : List ℕ → Outcome PayloadError (ℕ × ℕ)
  unfolding read_from
  read_varint buf = read_from 5 1 buf

  -- `read_exact` into a buffer of `n` bytes: what is read, and what is left.
  abbrev pub read_exact : PayloadError → ℕ → List ℕ → Outcome PayloadError (List ℕ × List ℕ)
  read_exact e n payload =
      if leb n (length payload) then ok (take n payload, drop n payload) else error e

  abbrev pub push_item :
      List ℕ → Outcome PayloadError (List (List ℕ)) → Outcome PayloadError (List (List ℕ))
  push_item item rest = and_then rest (λ items. ok (item ∷ items))

  -- One turn of the loop of `decode_content_payload`: an item and the rest of the payload.
  unfoldable pub read_item : List ℕ → Outcome PayloadError (List ℕ × List ℕ)
  unfolding read_varint
  read_item payload = and_then (read_varint payload) (λ (bytes_to_read, varint).
      and_then (read_exact index_cut_off bytes_to_read payload)
        (λ (index, payload'). read_exact item_cut_off varint payload'))

  -- The loop, with fuel.
  unfoldable pub decode_items : ℕ → List ℕ → Outcome PayloadError (List (List ℕ))
  unfolding read_item
  decode_items fuel [] = ok []
  decode_items zero (b ∷ payload) = panic
  decode_items (suc fuel) (b ∷ payload) = elim (read_item (b ∷ payload)) [
    | panic ↦ panic
    | error e ↦ error e
    | ok (item, rest) ↦ push_item item (decode_items fuel rest)
  ]

  -- Each turn consumes a byte at least, so that the length of the payload is fuel enough.
  unfoldable pub decode_content_payload : List ℕ → Outcome PayloadError (List (List ℕ))
  unfolding decode_items
  decode_content_payload payload = decode_items (length payload) payload

  -- The loop of `encode_content_payload`, which appends to what is written.
  unfoldable pub encode_items : List ℕ → List (List ℕ) → Outcome PayloadError (List ℕ)
  encode_items content_payload [] = ok content_payload
  encode_items content_payload (item ∷ items) =
      if ltb u32_max (length item)
      then error item_too_long
      else encode_items ((content_payload ++ leb128.write (length item)) ++ item) items

  unfoldable pub encode_content_payload : List (List ℕ) → Outcome PayloadError (List ℕ)
  unfolding encode_items
  encode_content_payload content_items = encode_items [] content_items
