-- ===== src/Overlay/Offer.antt =====
-- OFFER and ACCEPT in portalnet/src/overlay_service.rs: what is accepted, and what is sent.
pub mod Accepted
pub mod Wants
use trin.Prelude.{
  ℕ, ◌+◌, ◌%◌, ◌^◌, Bool, true, false, not, Option, none, some, List, [], ◌∷◌, ltb, ◌==◌, length,
  map, if◌then◌else◌,
}
use trin.Prelude.Outcome.{Outcome, panic, error, ok, and_then}
use trin.Prelude.Words.{u16_from_be}
use trin.Storage.{ShouldWeStoreContent, store_it, not_within_radius, already_stored}
use trin.Wire.{Leb128, PayloadError, encode_content_payload}
use trin.Overlay.{OverlayRequestError, accept_error, ContentStore, read_keys, Cid}

pub record Accept : Type 0 where
  pub connection_id : ℕ
  pub content_keys : List Bool

-- The requests that can be paired with an ACCEPT, and the others.
pub data Request : Type 0 where
  offer : List (List ℕ) → Request
  populated_offer : List (List ℕ × List ℕ) → Request
  populated_offer_with_result : List ℕ × List ℕ → Request
  other_request : Request

pub data TransferError : Type 0 where
  invalid_request_paired : TransferError
  keys_not_decoded : TransferError
  content_unreadable : TransferError
  content_not_got : TransferError
  payload_not_built : PayloadError → TransferError
  payload_not_read : PayloadError → TransferError
  lengths_differ : TransferError

-- `is_zero` of the bit list.
abbrev pub is_zero : List Bool → Bool
is_zero [] = true
is_zero (b ∷ bits) = if b then false else is_zero bits

abbrev pub is_store : ShouldWeStoreContent → Bool
is_store store_it = true
is_store not_within_radius = false
is_store already_stored = false

-- The most bits that the list of an ACCEPT has.
abbrev pub max_bits : ℕ
max_bits = 8

-- An error of another kind becomes this one.
abbrev pub map_err : {E F A : Type 0} → (E → F) → Outcome E A → Outcome F A
map_err f panic = panic
map_err f (error e) = error (f e)
map_err f (ok a) = ok a

abbrev pub or_else : {E A : Type 0} → E → Option A → Outcome E A
or_else e none = error e
or_else e (some a) = ok a

-- `zip`, which stops at the end of the shorter list.
abbrev pub zip : {A B : Type 0} → List A → List B → List (A × B)
zip [] ys = []
zip (x ∷ xs) [] = []
zip (x ∷ xs) (y ∷ ys) = (x, y) ∷ zip xs ys

-- The items whose bit is set.
abbrev pub select_items : List Bool → List (List ℕ × List ℕ) → List (List ℕ)
select_items [] items = []
select_items (b ∷ bits) [] = []
select_items (b ∷ bits) ((key, value) ∷ items) =
    let rest = select_items bits items in if b then value ∷ rest else rest

module _ {Store ContentKey E : Type 0} (c : ContentStore Store ContentKey E)
    (try_from : List ℕ → Option ContentKey) where
  -- The loop over the keys sets a bit for each.
  abbrev pub requested_keys : Store → List ContentKey → Outcome OverlayRequestError (List Bool)
  requested_keys s [] = ok []
  requested_keys s (key ∷ keys) =
      let rest = requested_keys s keys in
      and_then (map_err (λ _. accept_error) (c.is_key_within_radius_and_unavailable s key))
        (λ value. and_then rest (λ bits. ok (is_store value ∷ bits)))

  -- The response, and the task that waits for the contents: the connection and the keys. `node_addr`
  -- is the ENR that is cached for the source, and `cid` the connection id made for it.
  abbrev pub accept_some :
      Option (List ℕ)
      → (List ℕ → Cid)
      → List ContentKey
      → List Bool
      → Outcome OverlayRequestError (Accept × Option (Cid × List ContentKey))
  accept_some node_addr cid keys bits =
      if is_zero bits
      then ok (record { connection_id = 0; content_keys = bits }, none)
      else and_then (or_else accept_error node_addr) (λ enr. ok (
        record { connection_id = u16_from_be ((cid enr).send); content_keys = bits },
        some (cid enr, keys),
      ))

  unfoldable pub handle_offer :
      Store
      → Option (List ℕ)
      → (List ℕ → Cid)
      → List (List ℕ)
      → Outcome OverlayRequestError (Accept × Option (Cid × List ContentKey))
  handle_offer s node_addr cid content_keys =
      if ltb max_bits (length content_keys)
      then error accept_error
      else and_then (or_else accept_error (read_keys try_from content_keys))
          (λ keys. and_then (requested_keys s keys) (accept_some node_addr cid keys))

  -- The loop of `provide_requested_content`.
  abbrev pub provide_items :
      Store → List Bool → List ContentKey → Outcome TransferError (List (List ℕ))
  provide_items s [] keys = ok []
  provide_items s (b ∷ bits) [] = ok []
  provide_items s (b ∷ bits) (key ∷ keys) =
      let rest = provide_items s bits keys in
      if b
      then and_then (map_err (λ _. content_not_got) (c.get s key)) (λ content.
        and_then (or_else content_unreadable content)
          (λ value. and_then rest (λ items. ok (value ∷ items))))
      else rest

  unfoldable pub provide_requested_content :
      Store → List Bool → List (List ℕ) → Outcome TransferError (List (List ℕ))
  provide_requested_content s bits content_keys_offered =
      and_then (or_else keys_not_decoded (read_keys try_from content_keys_offered))
        (provide_items s bits)

  -- The contents that `process_accept` sends.
  abbrev pub content_items_of : Store → List Bool → Request → Outcome TransferError (List (List ℕ))
  content_items_of s bits (offer keys) = provide_requested_content s bits keys
  content_items_of s bits (populated_offer items) = ok (select_items bits items)
  content_items_of s bits (populated_offer_with_result item) = ok (select_items bits (item ∷ []))
  content_items_of s bits other_request = error invalid_request_paired

  abbrev pub is_offer : Request → Bool
  is_offer (offer keys) = true
  is_offer (populated_offer items) = true
  is_offer (populated_offer_with_result item) = true
  is_offer other_request = false

  -- The response, and the connection that is made, unless nothing is wanted.
  unfoldable pub process_accept :
      Accept → List ℕ → Request → Outcome TransferError (Accept × Option Cid)
  process_accept response enr request =
      let conn_id = u16_from_be response.connection_id in
      if not (is_offer request)
      then error invalid_request_paired
      else if is_zero response.content_keys
      then ok (response, none)
      else ok
          (response, some (record { recv = conn_id; send = (conn_id + 1) % 2 ^ 16; peer = enr }))

  -- The payload that is sent on the connection.
  unfoldable pub accept_payload : Leb128 → Store → Accept → Request → Outcome TransferError (List ℕ)
  unfolding provide_requested_content encode_content_payload
  accept_payload leb128 s response request =
      and_then (content_items_of s response.content_keys request)
        (λ items. map_err payload_not_built (encode_content_payload leb128 items))
