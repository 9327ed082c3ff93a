-- ===== src/Overlay/Payload.antt =====
-- The payload of an accepted offer in portalnet/src/overlay_service.rs. The tasks for the contents run
-- one after another, in the order of the contents, and the validator is a parameter.
pub mod Transfer
use trin.Prelude.{ℕ, Option, none, some, List, [], ◌∷◌, not, ◌==◌, length, if◌then◌else◌}
use trin.Prelude.Outcome.{Outcome, panic, error, ok, and_then}
use trin.Storage.{ShouldWeStoreContent, store_it, not_within_radius, already_stored}
use trin.Wire.{Leb128, decode_content_payload}
use trin.Overlay.{ContentStore}
use trin.Overlay.Offer.{TransferError, payload_not_read, lengths_differ, map_err, zip}

abbrev pub cons_some : {A : Type 0} → Option A → List A → List A
cons_some none l = l
cons_some (some a) l = a ∷ l

module _ {Store ContentKey E : Type 0} (c : ContentStore Store ContentKey E) where
  -- The end of the task of a content: what is propagated. A task that panics propagates nothing.
  abbrev pub after_put :
      Store → ContentKey × List ℕ → Outcome E Store → Store × Option (ContentKey × List ℕ)
  after_put s item panic = (s, none)
  after_put s item (error e) = (s, some item)
  after_put s item (ok s') = (s', some item)

  abbrev pub store_desired :
      Store
      → ContentKey × List ℕ
      → Outcome E ShouldWeStoreContent
      → Store × Option (ContentKey × List ℕ)
  store_desired s item panic = (s, none)
  store_desired s item (error e) = (s, some item)
  store_desired s item (ok store_it) = after_put s item (c.put s item.0 item.1)
  store_desired s item (ok not_within_radius) = (s, some item)
  store_desired s item (ok already_stored) = (s, some item)

  abbrev pub accept_valid :
      {F : Type 0}
      → Store
      → ContentKey × List ℕ
      → Outcome F (Unit {0})
      → Store × Option (ContentKey × List ℕ)
  accept_valid s item panic = (s, none)
  accept_valid s item (error e) = (s, none)
  accept_valid s item (ok _) =
      store_desired s item (c.is_key_within_radius_and_unavailable s item.0)

  module _ {F : Type 0}
      (validate_content : Store → ContentKey → List ℕ → Outcome F (Unit {0})) where
    -- The tasks of the contents: the store after them, and what is propagated.
    unfoldable pub accept_contents :
        Store → List (ContentKey × List ℕ) → Store × List (ContentKey × List ℕ)
    accept_contents s [] = (s, [])
    accept_contents s (item ∷ items) =
        let (s', content) = accept_valid s item (validate_content s item.0 item.1) in
        let (s'', contents) = accept_contents s' items in (s'', cons_some content contents)

    unfoldable pub process_accept_utp_payload :
        Leb128
        → Store
        → List ContentKey
        → List ℕ
        → Outcome TransferError (Store × List (ContentKey × List ℕ))
    unfolding decode_content_payload accept_contents
    process_accept_utp_payload leb128 s content_keys payload =
        and_then (map_err payload_not_read (decode_content_payload leb128 payload))
          (λ content_values.
            if not (length content_keys == length content_values)
            then error lengths_differ
            else ok (accept_contents s (zip content_keys content_values)))
