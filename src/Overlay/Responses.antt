-- ===== src/Overlay/Responses.antt =====
-- The responses to FINDNODES and FINDCONTENT in portalnet/src/overlay_service.rs. The routing table
-- of discv5, SSZ and the uTP connection are parameters.
pub mod Popped
pub mod Filtered
pub mod Listed
use trin.Prelude.{
  ℕ, zero, suc, ◌-◌, Bool, true, false, not, Option, none, some, List, [], ◌∷◌, ltb, leb, ◌==◌,
  length, take, if◌then◌else◌,
}
use trin.Prelude.Outcome.{Outcome, panic, error, ok, and_then}
use trin.Prelude.Words.{u16_from_be}
use trin.Distance.{xor_distance}
use trin.Gossip.{sort_by}
use trin.Storage.{same_bytes}
use trin.Overlay.{OverlayRequestError, invalid_request, failure, accept_error, ContentStore, Cid}
use trin.Overlay.Offer.{or_else}

-- An entry of the routing table.
pub record Entry (Enr : Type 0) : Type 0 where
  pub enr : Enr
  pub is_connected : Bool

-- The routing table: its entries, and those at the log2 distances, up to a number.
pub record KBuckets (Enr : Type 0) : Type 0 where
  pub nodes : List (Entry Enr)
  pub nodes_by_distances : List ℕ → ℕ → List (Entry Enr)

-- The bytes of the node id of an ENR, those of a 256-bit integer, and the length of a list in SSZ.
pub record Crates (Enr : Type 0) : Type 0 where
  pub node_id : Enr → List ℕ
  pub from_big_endian : List ℕ → ℕ
  pub ssz_bytes_len : List Enr → ℕ

abbrev pub find_nodes_max_nodes : ℕ
find_nodes_max_nodes = 32

abbrev pub find_content_max_nodes : ℕ
find_content_max_nodes = 32

abbrev pub max_discv5_packet_size : ℕ
max_discv5_packet_size = 1280

abbrev pub max_discv5_talk_req_payload_size : ℕ
max_discv5_talk_req_payload_size = max_discv5_packet_size - 16 - 23 - 32 - 16 - 8 - 8 - 6

abbrev pub max_portal_nodes_enrs_size : ℕ
max_portal_nodes_enrs_size = max_discv5_talk_req_payload_size - 1 - 1 - 4

abbrev pub max_portal_content_payload_size : ℕ
max_portal_content_payload_size = max_discv5_talk_req_payload_size - 2 - 4

-- `Vec::pop`
abbrev pub pop : {A : Type 0} → List A → List A
pop [] = []
pop (x ∷ []) = []
pop (x ∷ y ∷ l) = x ∷ pop (y ∷ l)

-- `dedup` of a sorted list.
abbrev pub dedup_after : ℕ → List ℕ → List ℕ
dedup_after n [] = []
dedup_after n (m ∷ l) = let rest = dedup_after m l in if n == m then rest else m ∷ rest

abbrev pub dedup : List ℕ → List ℕ
dedup [] = []
dedup (n ∷ l) = n ∷ dedup_after n l

-- The ENRs of the connected entries.
abbrev pub connected_enrs : {Enr : Type 0} → List (Entry Enr) → List Enr
connected_enrs [] = []
connected_enrs (e ∷ nodes) =
    let rest = connected_enrs nodes in if e.is_connected then e.enr ∷ rest else rest

pub data Content (Enr : Type 0) : Type 0 where
  connection_id : ℕ → Content Enr
  content : List ℕ → Content Enr
  enrs : List Enr → Content Enr

module _ {Enr : Type 0} (crates : Crates Enr) where
  -- The loop, with fuel: `none` if it runs out.
  abbrev pub pop_loop : ℕ → List Enr → ℕ → Option (List Enr)
  pop_loop zero l max_size = if ltb max_size (crates.ssz_bytes_len l) then none else some l
  pop_loop (suc fuel) l max_size =
      let rest = pop_loop fuel (pop l) max_size in
      if ltb max_size (crates.ssz_bytes_len l) then rest else some l

  -- The list is empty after as many turns as it has elements.
  unfoldable pub pop_while_ssz_bytes_len_gt : List Enr → ℕ → Option (List Enr)
  pop_while_ssz_bytes_len_gt l max_size = pop_loop (length l) l max_size

  -- The filter that leaves out the source.
  abbrev pub without : List ℕ → List Enr → List Enr
  without source [] = []
  without source (e ∷ l) =
      let rest = without source l in if same_bytes (crates.node_id e) source then rest else e ∷ rest

  abbrev pub at_distances : KBuckets Enr → List ℕ → List Enr
  at_distances kbuckets [] = []
  at_distances kbuckets (d ∷ log2_distances) =
      connected_enrs (kbuckets.nodes_by_distances (d ∷ log2_distances) find_nodes_max_nodes)

  -- Distance 0 is that of the local node.
  abbrev pub local_or_at : KBuckets Enr → Enr → List ℕ → List Enr
  local_or_at kbuckets local_enr [] = []
  local_or_at kbuckets local_enr (zero ∷ log2_distances) =
      local_enr ∷ at_distances kbuckets log2_distances
  local_or_at kbuckets local_enr (suc d ∷ log2_distances) =
      at_distances kbuckets (suc d ∷ log2_distances)

  unfoldable pub nodes_by_distance : KBuckets Enr → Enr → List ℕ → List Enr
  unfolding sort_by
  nodes_by_distance kbuckets local_enr log2_distances =
      local_or_at kbuckets local_enr (dedup (sort_by (λ n. n) log2_distances))

  -- The ENRs of a response NODES; `total` is 1.
  unfoldable pub handle_find_nodes : KBuckets Enr → Enr → List ℕ → List ℕ → Option (List Enr)
  unfolding nodes_by_distance pop_while_ssz_bytes_len_gt
  handle_find_nodes kbuckets local_enr source distances =
      pop_while_ssz_bytes_len_gt (without source (nodes_by_distance kbuckets local_enr distances))
        max_portal_nodes_enrs_size

  abbrev pub enr_distance : List ℕ → Enr → ℕ
  enr_distance content_id e = xor_distance crates.from_big_endian content_id (crates.node_id e)

  -- The distances are computed where the sort compares them.
  unfoldable pub find_nodes_close_to_content : KBuckets Enr → List ℕ → List Enr
  unfolding sort_by
  find_nodes_close_to_content kbuckets content_id =
      take find_content_max_nodes
        (sort_by (enr_distance content_id) (connected_enrs kbuckets.nodes))

  abbrev pub enrs_response :
      Option (List Enr) → Outcome OverlayRequestError (Content Enr × Option (Cid × List ℕ))
  enrs_response none = panic
  enrs_response (some l) = ok (enrs l, none)

  -- A content that is too long is sent by a task on the connection.
  abbrev pub content_response :
      Option Enr
      → (Enr → Cid)
      → List ℕ
      → Outcome OverlayRequestError (Content Enr × Option (Cid × List ℕ))
  content_response node_addr cid value =
      if leb (length value) max_portal_content_payload_size
      then ok (content value, none)
      else and_then (or_else accept_error node_addr)
          (λ enr. ok (connection_id (u16_from_be ((cid enr).send)), some (cid enr, value)))

  module _ {Store ContentKey E : Type 0} (c : ContentStore Store ContentKey E)
      (try_from : List ℕ → Option ContentKey) (id_of_key : ContentKey → List ℕ) where
    abbrev pub stored_response :
        KBuckets Enr
        → Option Enr
        → (Enr → Cid)
        → List ℕ
        → ContentKey
        → Outcome E (Option (List ℕ))
        → Outcome OverlayRequestError (Content Enr × Option (Cid × List ℕ))
    stored_response kbuckets node_addr cid source key panic = panic
    stored_response kbuckets node_addr cid source key (error e) = error failure
    stored_response kbuckets node_addr cid source key (ok (some value)) =
        content_response node_addr cid value
    stored_response kbuckets node_addr cid source key (ok none) = enrs_response (
        pop_while_ssz_bytes_len_gt
          (without source (find_nodes_close_to_content kbuckets (id_of_key key)))
          max_portal_content_payload_size)

    unfoldable pub handle_find_content :
        Store
        → KBuckets Enr
        → Option Enr
        → (Enr → Cid)
        → List ℕ
        → List ℕ
        → Outcome OverlayRequestError (Content Enr × Option (Cid × List ℕ))
    unfolding pop_while_ssz_bytes_len_gt find_nodes_close_to_content
    handle_find_content s kbuckets node_addr cid source content_key =
        and_then (or_else invalid_request (try_from content_key))
          (λ key. stored_response kbuckets node_addr cid source key (c.get s key))
