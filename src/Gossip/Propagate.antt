-- ===== src/Gossip/Propagate.antt =====
-- `propagate_gossip_cross_thread` of portalnet/src/gossip.rs: contents are offered to the recipients, all
-- contents of one recipient in one request. The hash map is an association list from the text of
-- an ENR.
pub mod Requests
pub mod Offered
use trin.Prelude.{ℕ, Bool, Option, none, some, List, [], ◌∷◌, ◌++◌, length, if◌then◌else◌}
use trin.Storage.{same_bytes}
use trin.Gossip.{Node, Env, calculate_interested_enrs}

-- A content with the bytes of its key.
abbrev pub Item : Type 0
Item = List ℕ × List ℕ

-- `entry`, `or_default` and `push`
abbrev pub push_item : List ℕ → Item → List (List ℕ × List Item) → List (List ℕ × List Item)
push_item text item [] = (text, item ∷ []) ∷ []
push_item text item ((j, items) ∷ m) =
    let rest = push_item text item m in
    if same_bytes j text then (j, items ++ (item ∷ [])) ∷ m else (j, items) ∷ rest

-- `to_base64` and `from_str` of an ENR, and the bytes of a key.
pub record Texts (Enr ContentKey : Type 0) : Type 0 where
  pub to_base64 : Enr → List ℕ
  pub from_str : List ℕ → Option Enr
  pub raw_key : ContentKey → List ℕ

-- The nodes of the entries that are connected.
abbrev pub connected_nodes :
    {NodeId Enr : Type 0} → List (Bool × Node NodeId Enr) → List (Node NodeId Enr)
connected_nodes [] = []
connected_nodes ((is_connected, n) ∷ entries) =
    let rest = connected_nodes entries in if is_connected then n ∷ rest else rest

module _ {NodeId Enr ContentKey : Type 0} (env : Env NodeId Enr ContentKey)
    (texts : Texts Enr ContentKey) where
  -- The loop over the recipients of an item.
  abbrev pub push_to_all : Item → List Enr → List (List ℕ × List Item) → List (List ℕ × List Item)
  push_to_all item [] m = m
  push_to_all item (enr ∷ enrs) m = push_to_all item enrs (push_item (texts.to_base64 enr) item m)

  -- The loop over the contents.
  abbrev pub enrs_and_content :
      List (Node NodeId Enr)
      → List (ContentKey × List ℕ)
      → List (List ℕ × List Item)
      → List (List ℕ × List Item)
  enrs_and_content all_nodes [] m = m
  enrs_and_content all_nodes (c ∷ content) m =
      enrs_and_content all_nodes content
        (push_to_all (texts.raw_key c.0, c.1) (calculate_interested_enrs env c.0 all_nodes) m)

  abbrev pub request_to : Option Enr → List Item → List (Enr × List Item) → List (Enr × List Item)
  request_to none items rest = rest
  request_to (some enr) items rest = (enr, items) ∷ rest

  -- The requests PopulatedOffer that are sent, with their destinations.
  abbrev pub offer_requests : List (List ℕ × List Item) → List (Enr × List Item)
  offer_requests [] = []
  offer_requests ((text, items) ∷ m) = request_to (texts.from_str text) items (offer_requests m)

  abbrev pub propagate_to :
      List (Node NodeId Enr) → List (ContentKey × List ℕ) → ℕ × List (Enr × List Item)
  propagate_to [] content = (0, [])
  propagate_to (n ∷ all_nodes) content =
      let m = enrs_and_content (n ∷ all_nodes) content [] in (length m, offer_requests m)

  -- The number of peers, and the requests.
  unfoldable pub propagate_gossip_cross_thread :
      List (Bool × Node NodeId Enr) → List (ContentKey × List ℕ) → ℕ × List (Enr × List Item)
  unfolding calculate_interested_enrs
  propagate_gossip_cross_thread entries content = propagate_to (connected_nodes entries) content
