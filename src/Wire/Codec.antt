-- ===== src/Wire/Codec.antt =====
-- Encoding and decoding of content payloads.
use trin.Prelude.{
  ℕ, ◌≤◌, ◌<◌, ◌≡◌, refl, sym, ap, ◌∙◌, true, false, List, [], ◌∷◌, ◌++◌, arith, leb, ltb, length,
  All, length-append, take-append, drop-append, append_assoc, append_nil,
}
use trin.Prelude.Outcome.{Outcome, panic, error, ok}
use trin.Wire.{
  Leb128, PayloadError, item_too_long, u32_max, push_item, read_item, decode_content_payload,
  encode_items, encode_content_payload, decode_items,
}
use trin.Wire.Varint.{IsLeb128, read_varint-write, CutOff, read_varint-CutOff}
use trin.Wire.Rounds.{decode_content_payload_turn}

-- The items have lengths that a `u32` holds.
abbrev pub AllFit : List (List ℕ) → Type 0
AllFit items = All (λ item. length item ≤ u32_max) items

module _ (leb128 : Leb128) where
  -- The bytes of items: each one after its varint.
  abbrev pub payload_of : List (List ℕ) → List ℕ
  payload_of [] = []
  payload_of (item ∷ items) = leb128.write (length item) ++ (item ++ payload_of items)

  encode_items_lem :
      (written : List ℕ) (items : List (List ℕ))
      → AllFit items
      → encode_items leb128 written items ≡ ok (written ++ payload_of items)
  unfolding encode_items
  encode_items_lem written [] h = ap ok (sym (append_nil written))
  encode_items_lem written (item ∷ items) h =
      let w = leb128.write (length item) in
      let fits : ltb u32_max (length item) ≡ false = ground (arith, h.0) in
      rw fits (
        encode_items_lem ((written ++ w) ++ item) items h.1
        ∙ ap ok (
            append_assoc (written ++ w) item (payload_of items)
            ∙ append_assoc written w (item ++ payload_of items)))

  -- An item that a `u32` cannot measure is an error, wherever it stands.
  pub encode_content_payload_error :
      (before : List (List ℕ)) (item : List ℕ) (after : List (List ℕ))
      → AllFit before
      → u32_max < length item
      → encode_content_payload leb128 (before ++ item ∷ after) ≡ error item_too_long
  unfolding encode_content_payload encode_items
  encode_content_payload_error before item after h long = go before [] h
    where
      go :
          (items : List (List ℕ)) (written : List ℕ)
          → AllFit items
          → encode_items leb128 written (items ++ item ∷ after) ≡ error item_too_long
      go [] written a = let over : ltb u32_max (length item) ≡ true = ground arith in rw over refl
      go (x ∷ xs) written a =
          let fits : ltb u32_max (length x) ≡ false = ground (arith, a.0) in
          rw fits (go xs ((written ++ leb128.write (length x)) ++ x) a.1)

  abbrev pub push_items :
      List (List ℕ) → Outcome PayloadError (List (List ℕ)) → Outcome PayloadError (List (List ℕ))
  push_items [] o = o
  push_items (item ∷ items) o = push_item leb128 item (push_items items o)

  push_items-ok : (items : List (List ℕ)) → push_items items (ok []) ≡ ok items
  push_items-ok [] = refl
  push_items-ok (item ∷ items) = ap (push_item leb128 item) (push_items-ok items)

  push_items-panic : (items : List (List ℕ)) → push_items items panic ≡ panic
  push_items-panic [] = refl
  push_items-panic (item ∷ items) = ap (push_item leb128 item) (push_items-panic items)

  module _ (laws : IsLeb128 leb128) where
    read_item-write :
        (item rest : List ℕ)
        → length item ≤ u32_max
        → read_item leb128 (leb128.write (length item) ++ (item ++ rest)) ≡ ok (item, rest)
    unfolding read_item
    read_item-write item rest fits =
        let w = leb128.write (length item) in
        let index : leb (length w) (length (w ++ (item ++ rest))) ≡ true =
          ground (arith, length-append w (item ++ rest)) in
        let content : leb (length item) (length (item ++ rest)) ≡ true =
          ground (arith, length-append item rest) in
        rw
          (
            read_varint-write leb128 laws (length item) (item ++ rest) fits,
            index,
            drop-append w (item ++ rest),
            content,
            take-append item rest,
            drop-append item rest,
          )
          refl

    decode_content_payload-payload_of :
        (items : List (List ℕ)) (tail : List ℕ)
        → AllFit items
        → decode_content_payload leb128 (payload_of items ++ tail)
          ≡ push_items items (decode_content_payload leb128 tail)
    decode_content_payload-payload_of [] tail h = refl
    decode_content_payload-payload_of (item ∷ items) tail h =
        let w = leb128.write (length item) in
        let later = payload_of items ++ tail in
        let same : (w ++ (item ++ payload_of items)) ++ tail ≡ w ++ (item ++ later) =
          append_assoc w (item ++ payload_of items) tail
          ∙ ap (λ x. w ++ x) (append_assoc item (payload_of items) tail) in
        rw same (
          decode_content_payload_turn leb128 (w ++ (item ++ later)) item later
            (omega (arith, laws.write_some (length item) h.0, length-append w (item ++ later)))
            (read_item-write item later h.0)
          ∙ ap (push_item leb128 item) (decode_content_payload-payload_of items tail h.1))

    -- With a code that keeps the laws of `IsLeb128`, contents whose lengths a `u32` holds are
    -- encoded without an error, and decoding the payload gives the contents back.
    pub decode_content_payload-encode_content_payload :
        (items : List (List ℕ))
        → AllFit items
        → (payload : List ℕ) × (encode_content_payload leb128 items ≡ ok payload)
          × (decode_content_payload leb128 payload ≡ ok items)
    unfolding encode_content_payload decode_content_payload decode_items
    decode_content_payload-encode_content_payload items h =
        let p = payload_of items in
        let whole : decode_content_payload leb128 (p ++ []) ≡ ok items =
          decode_content_payload-payload_of items [] h ∙ push_items-ok items in
        (
          p,
          encode_items_lem [] items h,
          ap (decode_content_payload leb128) (sym (append_nil p)) ∙ whole,
        )

    abbrev encoded : Outcome PayloadError (List ℕ) → List ℕ
    encoded panic = []
    encoded (error e) = []
    encoded (ok payload) = payload

    CutOff-tail :
        (tail : List ℕ)
        → 0 < length tail
        → length tail < 5
        → CutOff leb128 tail
        → decode_content_payload leb128 tail ≡ panic
    unfolding decode_content_payload decode_items read_item
    CutOff-tail [] some_bytes short cut = absurd (omega arith)
    CutOff-tail (b ∷ l) some_bytes short cut =
        let e : read_item leb128 (b ∷ l) ≡ panic =
          rw (read_varint-CutOff leb128 (b ∷ l) cut short) refl in
        rw (e, decode_items) refl

    -- With a code that keeps the laws of `IsLeb128`, when the payload of contents whose lengths a
    -- `u32` holds goes on with one to four bytes in which no varint is complete, the decoder
    -- panics.
    pub decode_content_payload-CutOff :
        (items : List (List ℕ)) (payload tail : List ℕ)
        → AllFit items
        → encode_content_payload leb128 items ≡ ok payload
        → 0 < length tail
        → length tail < 5
        → CutOff leb128 tail
        → decode_content_payload leb128 (payload ++ tail) ≡ panic
    unfolding encode_content_payload
    decode_content_payload-CutOff items payload tail h e some_bytes short cut =
        let same : payload ≡ payload_of items = ap encoded (sym e ∙ encode_items_lem [] items h) in
        ap (λ p. decode_content_payload leb128 (p ++ tail)) same
        ∙ (decode_content_payload-payload_of items tail h
            ∙ (ap (push_items items) (CutOff-tail tail some_bytes short cut)
                ∙ push_items-panic items))
