-- ===== src/Overlay/Payload/Transfer.antt =====
-- An offer from the one node to the other: what is offered, accepted, sent and taken in.
use trin.Prelude.{
  ℕ, ◌≤◌, ◌<◌, ◌≡◌, refl, sym, ap, ◌∙◌, ◌⊎◌, inl, inr, Bool, true, false, Option, none, some, List,
  [], ◌∷◌, arith, ◌==◌, ≡→==, ≢→==, length, All, Bool-cases,
}
use trin.Prelude.Outcome.{Outcome, error, ok}
use trin.Prelude.Words.{u16_from_be}
use trin.Wire.{Leb128}
use trin.Wire.Varint.{IsLeb128}
use trin.Wire.Codec.{AllFit, decode_content_payload-encode_content_payload}
use trin.Overlay.{ContentStore, read_keys, Cid}
use trin.Overlay.Offer.{
  Accept, populated_offer, lengths_differ, max_bits, zip, select_items, handle_offer,
  accept_payload,
}
use trin.Overlay.Offer.Accepted.{length-read_keys, length-Wanted, Answers, Wanted, handle_offer_lem}
use trin.Overlay.Offer.Wants.{
  all_set, Wants, Wanted-is_zero, Wanted-not-is_zero, Wanted-all_set, Wanted-not-all_set,
}
use trin.Overlay.Payload.{accept_contents, process_accept_utp_payload}

abbrev pub keys_of : List (List ℕ × List ℕ) → List (List ℕ)
keys_of [] = []
keys_of ((key, value) ∷ items) = key ∷ keys_of items

abbrev pub values_of : List (List ℕ × List ℕ) → List (List ℕ)
values_of [] = []
values_of ((key, value) ∷ items) = value ∷ values_of items

length-keys_of : (items : List (List ℕ × List ℕ)) → length (keys_of items) ≡ length items
length-keys_of [] = refl
length-keys_of ((key, value) ∷ items) = omega (arith, length-keys_of items)

length-values_of : (items : List (List ℕ × List ℕ)) → length (values_of items) ≡ length items
length-values_of [] = refl
length-values_of ((key, value) ∷ items) = omega (arith, length-values_of items)

select_items-AllFit :
    (bits : List Bool) (items : List (List ℕ × List ℕ))
    → AllFit (values_of items)
    → AllFit (select_items bits items)
select_items-AllFit [] items h = tt
select_items-AllFit (b ∷ bits) [] h = tt
select_items-AllFit (true ∷ bits) ((key, value) ∷ items) h =
    (h.0, select_items-AllFit bits items h.1)
select_items-AllFit (false ∷ bits) ((key, value) ∷ items) h = select_items-AllFit bits items h.1

select_items-all_set :
    (bits : List Bool) (items : List (List ℕ × List ℕ))
    → length bits ≡ length items
    → all_set bits ≡ true
    → select_items bits items ≡ values_of items
select_items-all_set [] [] e a = refl
select_items-all_set [] (item ∷ items) e a = absurd (omega (arith, e))
select_items-all_set (b ∷ bits) [] e a = absurd (omega (arith, e))
select_items-all_set (true ∷ bits) ((key, value) ∷ items) e a =
    ap (◌∷◌ value) (select_items-all_set bits items (omega (arith, e)) a)
select_items-all_set (false ∷ bits) ((key, value) ∷ items) e a = absurd (cc a)

length-select_items-le :
    (bits : List Bool) (items : List (List ℕ × List ℕ))
    → length (select_items bits items) ≤ length items
length-select_items-le [] items = omega arith
length-select_items-le (b ∷ bits) [] = omega arith
length-select_items-le (true ∷ bits) ((key, value) ∷ items) =
    omega (arith, length-select_items-le bits items)
length-select_items-le (false ∷ bits) ((key, value) ∷ items) =
    omega (arith, length-select_items-le bits items)

length-select_items-lt :
    (bits : List Bool) (items : List (List ℕ × List ℕ))
    → length bits ≡ length items
    → all_set bits ≡ false
    → length (select_items bits items) < length items
length-select_items-lt [] items e a = absurd (cc a)
length-select_items-lt (b ∷ bits) [] e a = absurd (omega (arith, e))
length-select_items-lt (true ∷ bits) ((key, value) ∷ items) e a =
    omega (arith, length-select_items-lt bits items (omega (arith, e)) a)
length-select_items-lt (false ∷ bits) ((key, value) ∷ items) e a =
    omega (arith, length-select_items-le bits items)

module _ {Store ContentKey E F : Type 0} (c : ContentStore Store ContentKey E)
    (try_from : List ℕ → Option ContentKey)
    (validate_content : Store → ContentKey → List ℕ → Outcome F (Unit {0})) (leb128 : Leb128) where
  -- What the payload of the sender comes to: it is taken in, at the store `s'`, if the store `s` wanted
  -- each of the contents, and refused as a whole otherwise.
  abbrev pub Arrives : Store → Store → List ContentKey → List (List ℕ × List ℕ) → List ℕ → Type 0
  Arrives s s' keys items payload =
      (All (Wants c s) keys
        × (process_accept_utp_payload c validate_content leb128 s' keys payload
            ≡ ok (accept_contents c validate_content s' (zip keys (values_of items)))))
      ⊎ ((¬ All (Wants c s) keys)
          × (process_accept_utp_payload c validate_content leb128 s' keys payload
              ≡ error lengths_differ))

  payload-Arrives :
      (laws : IsLeb128 leb128) (sender s s' : Store) (keys : List ContentKey) (accept : Accept)
      (items : List (List ℕ × List ℕ))
      → Wanted c try_from s keys accept.content_keys
      → length keys ≡ length items
      → AllFit (values_of items)
      → (payload : List ℕ) × (accept_payload c try_from leb128 sender accept (populated_offer items)
          ≡ ok payload)
        × Arrives s s' keys items payload
  unfolding accept_payload process_accept_utp_payload
  payload-Arrives laws sender s s' keys accept items w keys_fit fit =
      let bits = accept.content_keys in
      let bits_fit = length-Wanted c try_from s keys bits w ∙ keys_fit in
      let sent = select_items bits items in
      let (payload, e, d) =
        decode_content_payload-encode_content_payload leb128 laws sent
          (select_items-AllFit bits items fit) in
      (
        payload,
        (rw e refl),
        elim (Bool-cases (all_set bits)) [
          | inl all ↦
              let same = select_items-all_set bits items bits_fit all in
              let equal : (length keys == length sent) ≡ true =
                ≡→== _ _ (keys_fit ∙ (sym (length-values_of items) ∙ ap length (sym same))) in
              inl (Wanted-all_set c try_from s keys bits w all, (rw (d, equal, same) refl))
          | inr some_unset ↦
              let fewer = length-select_items-lt bits items bits_fit some_unset in
              let differ : (length keys == length sent) ≡ false =
                ≢→== _ _ (λ h. omega (arith, fewer, keys_fit, h)) in
              inr (Wanted-not-all_set c try_from s keys bits w some_unset, (rw (d, differ) refl))
        ],
      )

  -- A node offers at most eight contents, with keys that the other node reads and lengths that a `u32`
  -- holds, to a node whose store answers for each key. If that store wants none of the contents, the
  -- connection id is 0 and no task waits. If it wants all of them, one does, and the payload that it is
  -- sent is taken in, each content under its key. If it wants some but not all, a task waits as well,
  -- but the payload is refused as a whole: it has fewer contents than keys were offered.
  pub offer_transfer :
      (laws : IsLeb128 leb128) (sender s s' : Store) (enr : List ℕ) (cid : List ℕ → Cid)
      (items : List (List ℕ × List ℕ)) (keys : List ContentKey)
      → length items ≤ max_bits
      → read_keys try_from (keys_of items) ≡ some keys
      → Answers c try_from s
      → AllFit (values_of items)
      → (accept : Accept) × (task : Option (Cid × List ContentKey)) × (handle_offer c try_from s
            (some enr)
            cid
            (keys_of items)
          ≡ ok (accept, task))
        × ((All (λ key. ¬ Wants c s key) keys × (accept.connection_id ≡ 0) × (task ≡ none))
            ⊎ ((¬ All (λ key. ¬ Wants c s key) keys)
                × (accept.connection_id ≡ u16_from_be ((cid enr).send))
                × (task ≡ some (cid enr, keys))
                × (payload : List ℕ) × (accept_payload c try_from leb128 sender accept
                      (populated_offer items)
                    ≡ ok payload)
                × Arrives s s' keys items payload))
  offer_transfer laws sender s s' enr cid items keys few e answers fit =
      let (accept, task, handled, w, cases) =
        handle_offer_lem c try_from s enr cid (keys_of items) keys
          (omega (arith, few, length-keys_of items)) e answers in
      let bits = accept.content_keys in
      let keys_fit = length-read_keys try_from (keys_of items) keys e ∙ length-keys_of items in
      (
        accept,
        task,
        handled,
        elim cases [
          | inl (unset, id, nothing) ↦
              inl (Wanted-is_zero c try_from s keys bits w unset, id, nothing)
          | inr (some_set, id, waiting) ↦
              let (payload, built, arrives) =
                payload-Arrives laws sender s s' keys accept items w keys_fit fit in
              inr (
                Wanted-not-is_zero c try_from s keys bits w some_set,
                id,
                waiting,
                payload,
                built,
                arrives,
              )
        ],
      )
