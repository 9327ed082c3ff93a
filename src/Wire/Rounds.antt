-- ===== src/Wire/Rounds.antt =====
-- The loop of `decode_content_payload`: its turns consume the payload, and more fuel
-- changes nothing.
use trin.Prelude.{
  ℕ, zero, suc, ◌+◌, ◌≤◌, ◌<◌, ◌≡◌, refl, ap, subst, inl, inr, List, [], ◌∷◌, arith, leb, length,
  length-drop, Bool-cases,
}
use trin.Prelude.Outcome.{Outcome, panic, error, ok, and_then}
use trin.Wire.{
  Leb128, PayloadError, index_cut_off, item_cut_off, read_varint, read_exact, push_item, read_item,
  decode_items, decode_content_payload,
}
use trin.Wire.Varint.{Counts, read_varint-Counts}

module _ (leb128 : Leb128) where
  -- What is left is `n` bytes shorter at least.
  abbrev pub Leaves : ℕ → ℕ → Outcome PayloadError (List ℕ × List ℕ) → Type 0
  Leaves n size panic = Unit
  Leaves n size (error e) = Unit
  Leaves n size (ok (item, rest)) = length rest + n ≤ size

  read_exact-Leaves :
      (e : PayloadError) (n : ℕ) (l : List ℕ) → Leaves n (length l) (read_exact leb128 e n l)
  read_exact-Leaves e n l = elim (Bool-cases (leb n (length l))) [
    | inl fits ↦ rw fits (ground (arith, length-drop n l))
    | inr short ↦ rw short tt
  ]

  second_read :
      (varint k size : ℕ) (o : Outcome PayloadError (List ℕ × List ℕ))
      → 1 ≤ k
      → Leaves k size o
      → Leaves 1 size
          (and_then o (λ (index, payload'). read_exact leb128 item_cut_off varint payload'))
  second_read varint k size panic pos h = tt
  second_read varint k size (error e) pos h = tt
  second_read varint k size (ok (index, rest)) pos h =
      shrink (read_exact leb128 item_cut_off varint rest)
        (read_exact-Leaves item_cut_off varint rest)
    where
      shrink :
          (o : Outcome PayloadError (List ℕ × List ℕ))
          → Leaves varint (length rest) o
          → Leaves 1 size o
      shrink panic b = tt
      shrink (error e) b = tt
      shrink (ok (item, last)) b = omega arith

  first_read :
      (l : List ℕ) (o : Outcome PayloadError (ℕ × ℕ))
      → Counts leb128 1 o
      → Leaves 1 (length l) (
          and_then o (λ (bytes_to_read, varint).
            and_then
              (read_exact leb128 index_cut_off bytes_to_read l)
              (λ (index, payload'). read_exact leb128 item_cut_off varint payload')))
  first_read l panic h = tt
  first_read l (error e) h = tt
  first_read l (ok (k, varint)) h =
      second_read varint k (length l) (read_exact leb128 index_cut_off k l) h
        (read_exact-Leaves index_cut_off k l)

  pub read_item-Leaves : (l : List ℕ) → Leaves 1 (length l) (read_item leb128 l)
  unfolding read_item
  read_item-Leaves l = first_read l (read_varint leb128 l) (read_varint-Counts leb128 l)

  -- What a turn does with the item that it reads.
  abbrev pub turn :
      ℕ → Outcome PayloadError (List ℕ × List ℕ) → Outcome PayloadError (List (List ℕ))
  turn fuel panic = panic
  turn fuel (error e) = error e
  turn fuel (ok (item, rest)) = push_item leb128 item (decode_items leb128 fuel rest)

  pub decode_items-turn :
      (fuel : ℕ) (b : ℕ) (l : List ℕ)
      → decode_items leb128 (suc fuel) (b ∷ l) ≡ turn fuel (read_item leb128 (b ∷ l))
  unfolding decode_items
  decode_items-turn fuel b l = same (read_item leb128 (b ∷ l))
    where
      same :
          (o : Outcome PayloadError (List ℕ × List ℕ))
          → (elim o [
            | panic ↦ panic
            | error e ↦ error e
            | ok (item, rest) ↦ push_item leb128 item (decode_items leb128 fuel rest)
          ])
            ≡ turn fuel o
      same panic = refl
      same (error e) = refl
      same (ok (item, rest)) = refl

  -- With fuel for every byte, more fuel changes nothing.
  decode_items_fuel :
      (f g : ℕ) (payload : List ℕ)
      → length payload ≤ f
      → length payload ≤ g
      → decode_items leb128 f payload ≡ decode_items leb128 g payload
  unfolding decode_items
  decode_items_fuel f g [] hf hg = refl
  decode_items_fuel zero g (b ∷ l) hf hg = absurd (omega arith)
  decode_items_fuel (suc f) zero (b ∷ l) hf hg = absurd (omega arith)
  decode_items_fuel (suc f) (suc g) (b ∷ l) hf hg =
      rw (decode_items-turn f b l, decode_items-turn g b l)
        (same (λ rest. decode_items_fuel f g rest) (read_item leb128 (b ∷ l))
          (read_item-Leaves (b ∷ l)))
    where
      same :
          ((rest : List ℕ)
            → length rest ≤ f
            → length rest ≤ g
            → decode_items leb128 f rest ≡ decode_items leb128 g rest)
          → (o : Outcome PayloadError (List ℕ × List ℕ)) → Leaves 1 (suc (length l)) o
          → turn f o ≡ turn g o
      same onwards panic h = refl
      same onwards (error e) h = refl
      same onwards (ok (item, rest)) h =
          ap (push_item leb128 item) (onwards rest (omega arith) (omega arith))

  -- One turn of the decoder.
  pub decode_content_payload_turn :
      (payload item rest : List ℕ)
      → 0 < length payload
      → read_item leb128 payload ≡ ok (item, rest)
      → decode_content_payload leb128 payload
        ≡ push_item leb128 item (decode_content_payload leb128 rest)
  unfolding decode_content_payload
  decode_content_payload_turn [] item rest some_bytes e = absurd (omega arith)
  decode_content_payload_turn (b ∷ l) item rest some_bytes e =
      let left : length rest + 1 ≤ suc (length l) = leaves (read_item-Leaves (b ∷ l)) in
      rw (decode_items-turn (length l) b l, e)
        (ap (push_item leb128 item)
          (decode_items_fuel (length l) (length rest) rest (omega arith) (omega arith)))
    where
      leaves :
          Leaves 1 (suc (length l)) (read_item leb128 (b ∷ l)) → length rest + 1 ≤ suc (length l)
      leaves h = subst (Leaves 1 (suc (length l))) e h
