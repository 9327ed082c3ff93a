-- ===== src/Find/QueryInfo.antt =====
-- portalnet/src/find/query_info.rs. The callback channels, the temporary ENRs and the trace of a
-- query are not modelled: no function of that file reads them.
pub mod Distances
use trin.Prelude.{
  ℕ, zero, suc, ◌+◌, ◌-◌, ◌%◌, ◌^◌, Bool, Option, none, some, List, [], ◌∷◌, ◌++◌, ltb, leb, length,
  take, if◌then◌else◌,
}

-- A computed value, a panic, or the error "Requested a node find itself".
pub data Asked {ℓ} (A : Type ℓ) : Type ℓ where
  panics : Asked A
  itself : Asked A
  asks : A → Asked A

abbrev pub u16_add : ℕ → ℕ → ℕ
u16_add a b = (a + b) % 2 ^ 16

-- A round of the loop pushes the distance above and, if there is room, the one below.
abbrev pub push_above : ℕ → ℕ → List ℕ → List ℕ
push_above distance difference l =
    if leb (u16_add distance difference) 256 then l ++ u16_add distance difference ∷ [] else l

abbrev pub push_below : ℕ → ℕ → ℕ → List ℕ → List ℕ
push_below size distance difference l =
    if ltb (length l) size
    then (if leb difference distance then l ++ (distance - difference) ∷ [] else l)
    else l

-- `while result_list.len() < size`, with fuel; `none` means that the fuel ran out.
unfoldable pub fill : ℕ → ℕ → ℕ → ℕ → List ℕ → Option (List ℕ)
fill zero size distance difference l = none
fill (suc fuel) size distance difference l =
    let rest =
      fill fuel size distance (u16_add difference 1)
        (push_below size distance difference (push_above distance difference l)) in
    if ltb (length l) size then rest else some l

abbrev pub slice : ℕ → Option (List ℕ) → Asked (List ℕ)
slice size none = panics
slice size (some l) = if leb size (length l) then asks (take size l) else panics

-- The loop makes fewer rounds than this.
abbrev pub rounds : ℕ
rounds = 128

-- The argument is what `log2_distance` of the crate discv5 returns for the two keys.
unfoldable pub findnode_log2distance : Option ℕ → ℕ → Asked (List ℕ)
unfolding fill
findnode_log2distance none size = if ltb 127 size then panics else itself
findnode_log2distance (some distance_u64) size =
    if ltb 127 size
    then panics
    else slice size (fill rounds size (distance_u64 % 2 ^ 16) 1 (distance_u64 % 2 ^ 16 ∷ []))

pub data QueryType (Node ContentKey : Type 0) : Type 0 where
  find_node : Node → ℕ → QueryType Node ContentKey
  find_content : ContentKey → QueryType Node ContentKey

pub data Request : Type 0 where
  find_nodes : List ℕ → Request
  find_content_request : List ℕ → Request

-- What the file uses of discv5 and of content keys.
pub record Keys (Node Key ContentKey : Type 0) : Type 0 where
  pub log2_distance : Node → Node → Option ℕ
  pub key_of : Node → Key
  pub into_bytes : ContentKey → List ℕ
  pub content_id : ContentKey → List ℕ
  pub node_of : List ℕ → Node

module _ {Node Key ContentKey : Type 0} (env : Keys Node Key ContentKey) where
  abbrev pub as_find_nodes : Asked (List ℕ) → Asked Request
  as_find_nodes panics = panics
  as_find_nodes itself = itself
  as_find_nodes (asks distances) = asks (find_nodes distances)

  unfoldable pub rpc_request : QueryType Node ContentKey → Node → Asked Request
  rpc_request (find_node target distances_to_request) peer =
      as_find_nodes (findnode_log2distance (env.log2_distance peer target) distances_to_request)
  rpc_request (find_content target) peer = asks (find_content_request (env.into_bytes target))

  -- `TargetKey::key`
  unfoldable pub target_key : QueryType Node ContentKey → Key
  target_key (find_node target distances_to_request) = env.key_of target
  target_key (find_content target) = env.key_of (env.node_of (env.content_id target))
