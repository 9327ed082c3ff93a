-- ===== src/Tests/Responses.antt =====
-- Three nodes, of ids of one byte, of which two are connected; an ENR takes 400 bytes.
use trin.Prelude.{ℕ, ◌*◌, ◌≤◌, ◌≡◌, refl, true, false, none, some, List, [], ◌∷◌, length, All, In}
use trin.Prelude.Outcome.{ok}
use trin.Gossip.Sorting.{IsSorted, Served}
use trin.Storage.{get}
use trin.Overlay.{Cid}
use trin.Overlay.Responses.{
  Entry, KBuckets, Crates, find_content_max_nodes, max_portal_nodes_enrs_size,
  max_portal_content_payload_size, connected_enrs, enrs, enr_distance, handle_find_nodes,
  handle_find_content,
}
use trin.Overlay.Responses.Filtered.{IsOther}
use trin.Overlay.Responses.Listed.{IsAsked, handle_find_nodes_lem, handle_find_content_lem}
use trin.Tests.Store.{last_byte, id_of, one_content}
use trin.Tests.Offer.{memory_store, key_of}

abbrev small_crates : Crates ℕ
small_crates = record {
  node_id = id_of;
  from_big_endian = last_byte;
  ssz_bytes_len = λ l. length l * 400;
}

abbrev three_nodes : List (Entry ℕ)
three_nodes =
    record { enr = 1; is_connected = true }
    ∷ record { enr = 2; is_connected = false }
    ∷ record { enr = 3; is_connected = true }
    ∷ []

abbrev small_table : KBuckets ℕ
small_table = record { nodes = three_nodes; nodes_by_distances = λ ds n. three_nodes }

abbrev cid_to : ℕ → Cid
cid_to enr = record { recv = 1; send = 2; peer = enr ∷ [] }

handle_find_nodes_lem_example :
    (l : List ℕ) × (handle_find_nodes small_crates small_table 4 (id_of 3) (2 ∷ 0 ∷ 2 ∷ [])
      ≡ some l)
    × (length l * 400 ≤ max_portal_nodes_enrs_size)
    × All
        (λ e.
          IsOther small_crates (id_of 3) e × IsAsked small_crates small_table 4 (2 ∷ 0 ∷ 2 ∷ []) e)
        l
handle_find_nodes_lem_example =
    handle_find_nodes_lem small_crates small_table 4 (id_of 3) (2 ∷ 0 ∷ 2 ∷ []) refl

missing_content : memory_store.get one_content 6 ≡ ok none
unfolding get
missing_content = refl

handle_find_content_lem_example :
    (l : List ℕ) × (handle_find_content small_crates memory_store key_of id_of one_content
        small_table none cid_to
        (id_of 3)
        (6 ∷ [])
      ≡ ok (enrs l, none))
    × (length l * 400 ≤ max_portal_content_payload_size)
    × (length l ≤ find_content_max_nodes)
    × IsSorted (enr_distance small_crates (id_of 6)) l
    × All (λ e. IsOther small_crates (id_of 3) e × In e (connected_enrs three_nodes)) l
    × ((e : ℕ)
        → In e (connected_enrs three_nodes)
        → IsOther small_crates (id_of 3) e
        → Served (enr_distance small_crates (id_of 6)) l e)
handle_find_content_lem_example =
    handle_find_content_lem small_crates memory_store key_of id_of one_content small_table none
      cid_to (id_of 3) (6 ∷ []) 6 refl refl missing_content
