-- ===== src/Overlay.antt =====
-- The handling of messages in portalnet/src/overlay_service.rs: what its parts share. An ENR is its
-- bytes, and so is a content key as it travels.
pub mod Offer
pub mod Payload
pub mod Responses
use trin.Prelude.{ℕ, Bool, true, false, Option, none, some, List, [], ◌∷◌}
use trin.Prelude.Outcome.{Outcome}
use trin.Storage.{ShouldWeStoreContent}

-- The errors that building a response gives; each has a message.
pub data OverlayRequestError : Type 0 where
  invalid_request : OverlayRequestError
  failure : OverlayRequestError
  accept_error : OverlayRequestError

-- The trait ContentStore of trin-storage/src/lib.rs, with the store as a value.
pub record ContentStore (Store ContentKey E : Type 0) : Type 0 where
  pub get : Store → ContentKey → Outcome E (Option (List ℕ))
  pub put : Store → ContentKey → List ℕ → Outcome E Store
  pub is_key_within_radius_and_unavailable : Store → ContentKey → Outcome E ShouldWeStoreContent
  pub radius : Store → ℕ

-- The keys, if all of them are read.
abbrev pub cons_key :
    {ContentKey : Type 0} → Option ContentKey → Option (List ContentKey) → Option (List ContentKey)
cons_key none keys = none
cons_key (some key) none = none
cons_key (some key) (some keys) = some (key ∷ keys)

abbrev pub read_keys :
    {ContentKey : Type 0} → (List ℕ → Option ContentKey) → List (List ℕ) → Option (List ContentKey)
read_keys try_from [] = some []
read_keys try_from (k ∷ raw) = cons_key (try_from k) (read_keys try_from raw)

pub record Cid : Type 0 where
  pub recv : ℕ
  pub send : ℕ
  pub peer : List ℕ
