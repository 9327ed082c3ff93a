-- ===== src/Tests/Offer.antt =====
-- An offer of two contents to a node that has one of them already.
use trin.Prelude.{
  ℕ, ◌≡◌, refl, ◌⊎◌, inl, inr, true, false, Option, none, some, List, [], ◌∷◌, arith, ltb, All,
  Bool-cases,
}
use trin.Prelude.Outcome.{Outcome, ok}
use trin.Prelude.Words.{u16_from_be}
use trin.Storage.{
  MemoryContentStore, store_it, not_within_radius, already_stored, get, put,
  is_key_within_radius_and_unavailable, distance_to_key, contains_key,
}
use trin.Overlay.{ContentStore, Cid}
use trin.Overlay.Offer.{Accept, is_zero, populated_offer, handle_offer, accept_payload}
use trin.Overlay.Offer.Accepted.{Answers, Wanted, handle_offer_lem}
use trin.Overlay.Offer.Wants.{Wants}
use trin.Overlay.Payload.Transfer.{Arrives, offer_transfer}
use trin.Tests.Store.{last_byte, id_of, one_content}
use trin.Tests.Wire.{leb128, leb128-IsLeb128}

abbrev pub memory_store : ContentStore MemoryContentStore ℕ ℕ
memory_store = record {
  get = get last_byte id_of ℕ;
  put = put last_byte id_of ℕ;
  is_key_within_radius_and_unavailable = is_key_within_radius_and_unavailable last_byte id_of ℕ;
  radius = λ s. s.radius;
}

abbrev pub key_of : List ℕ → Option ℕ
key_of [] = none
key_of (k ∷ raw) = some k

abbrev cid_of : List ℕ → Cid
cid_of enr = record { recv = 1; send = 2; peer = enr }

memory_store-Answers : Answers memory_store key_of one_content
unfolding is_key_within_radius_and_unavailable
memory_store-Answers key =
    elim (Bool-cases (ltb one_content.radius (distance_to_key last_byte id_of one_content key))) [
      | inl far ↦ (not_within_radius, (rw far refl))
      | inr near ↦ elim (Bool-cases (contains_key last_byte id_of one_content key)) [
        | inl stored ↦ (already_stored, (rw (near, stored) refl))
        | inr missing ↦ (store_it, (rw (near, missing) refl))
      ]
    ]

abbrev offered : List (List ℕ × List ℕ)
offered = (5 ∷ [], 239 ∷ []) ∷ (6 ∷ [], 1 ∷ 2 ∷ []) ∷ []

handle_offer_lem_example :
    (accept : Accept) × (task : Option (Cid × List ℕ)) × (handle_offer memory_store key_of
        one_content
        (some (7 ∷ []))
        cid_of
        ((5 ∷ []) ∷ (6 ∷ []) ∷ [])
      ≡ ok (accept, task))
    × Wanted memory_store key_of one_content (5 ∷ 6 ∷ []) accept.content_keys
    × (((is_zero accept.content_keys ≡ true) × (accept.connection_id ≡ 0) × (task ≡ none))
        ⊎ ((is_zero accept.content_keys ≡ false)
            × (accept.connection_id ≡ u16_from_be 2)
            × (task ≡ some (cid_of (7 ∷ []), 5 ∷ 6 ∷ []))))
handle_offer_lem_example =
    handle_offer_lem memory_store key_of one_content (7 ∷ []) cid_of ((5 ∷ []) ∷ (6 ∷ []) ∷ [])
      (5 ∷ 6 ∷ []) (omega arith) refl memory_store-Answers

-- Every content is valid.
abbrev trusting : MemoryContentStore → ℕ → List ℕ → Outcome ℕ (Unit {0})
trusting s key value = ok tt

-- The store has the content of the key 5, and that of 6 is within its radius.
offer_transfer_example :
    (accept : Accept) × (task : Option (Cid × List ℕ)) × (handle_offer memory_store key_of
        one_content
        (some (7 ∷ []))
        cid_of
        ((5 ∷ []) ∷ (6 ∷ []) ∷ [])
      ≡ ok (accept, task))
    × ((All (λ key. ¬ Wants memory_store one_content key) (5 ∷ 6 ∷ [])
          × (accept.connection_id ≡ 0)
          × (task ≡ none))
        ⊎ ((¬ All (λ key. ¬ Wants memory_store one_content key) (5 ∷ 6 ∷ []))
            × (accept.connection_id ≡ u16_from_be 2)
            × (task ≡ some (cid_of (7 ∷ []), 5 ∷ 6 ∷ []))
            × (payload : List ℕ) × (accept_payload memory_store key_of leb128 one_content accept
                  (populated_offer offered)
                ≡ ok payload)
            × Arrives memory_store key_of trusting leb128 one_content one_content
                (5 ∷ 6 ∷ [])
                offered
                payload))
offer_transfer_example =
    offer_transfer memory_store key_of trusting leb128 leb128-IsLeb128 one_content one_content
      one_content (7 ∷ []) cid_of offered (5 ∷ 6 ∷ []) (omega arith) refl memory_store-Answers
      (omega arith, (omega arith, tt))
