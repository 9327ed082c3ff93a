-- ===== src/Gossip.antt =====
-- The choice of the recipients of a content in portalnet/src/gossip.rs.
pub mod Sorting
pub mod Recipients
pub mod Propagate
use trin.Prelude.{
  ℕ, List, [], ◌∷◌, ◌++◌, Bool, true, false, ltb, leb, length, take, drop, if◌then◌else◌,
}
use trin.Distance.{xor_distance}

-- What the function reads of a node of the routing table.
pub record Node (NodeId Enr : Type 0) : Type 0 where
  pub id : NodeId
  pub enr : Enr
  pub data_radius : ℕ

-- What it uses of other crates: `choose_multiple` of rand, from a seed that is left implicit, and the
-- bytes of identifiers and of content keys.
pub record Env (NodeId Enr ContentKey : Type 0) : Type 0 where
  pub choose_multiple : ℕ → List Enr → List Enr
  pub from_big_endian : List ℕ → ℕ
  pub raw : NodeId → List ℕ
  pub node_id : Enr → NodeId
  pub content_id : ContentKey → List ℕ

abbrev pub num_closest_nodes : ℕ
num_closest_nodes = 4

abbrev pub num_farther_nodes : ℕ
num_farther_nodes = 4

-- `sort_by`, which is stable, with the comparison of the distances `d`.
module _ {Enr : Type 0} (d : Enr → ℕ) where
  unfoldable pub insert_by : Enr → List Enr → List Enr
  insert_by x [] = x ∷ []
  insert_by x (y ∷ l) = let rest = insert_by x l in if leb (d x) (d y) then x ∷ y ∷ l else y ∷ rest

  unfoldable pub sort_by : List Enr → List Enr
  unfolding insert_by
  sort_by [] = []
  sort_by (x ∷ l) = insert_by x (sort_by l)

module _ {NodeId Enr ContentKey : Type 0} (env : Env NodeId Enr ContentKey) where
  abbrev pub node_distance : ContentKey → NodeId → ℕ
  node_distance content_key n =
      xor_distance env.from_big_endian (env.content_id content_key) (env.raw n)

  abbrev pub enr_distance : ContentKey → Enr → ℕ
  enr_distance content_key e = node_distance content_key (env.node_id e)

  abbrev pub is_interested : ContentKey → Node NodeId Enr → Bool
  is_interested content_key n = ltb (node_distance content_key n.id) n.data_radius

  -- The ENRs of the nodes whose radius takes the content in.
  unfoldable pub interested_enrs : ContentKey → List (Node NodeId Enr) → List Enr
  interested_enrs content_key [] = []
  interested_enrs content_key (n ∷ all_nodes) =
      let rest = interested_enrs content_key all_nodes in
      if is_interested content_key n then n.enr ∷ rest else rest

  unfoldable pub select_gossip_recipients : List Enr → List Enr
  select_gossip_recipients sorted =
      take num_closest_nodes sorted
      ++ (if ltb num_closest_nodes (length sorted)
          then env.choose_multiple num_farther_nodes (drop num_closest_nodes sorted)
          else [])

  abbrev pub unless_empty : List Enr → List Enr → List Enr
  unless_empty [] recipients = []
  unless_empty (e ∷ enrs) recipients = recipients

  unfoldable pub calculate_interested_enrs : ContentKey → List (Node NodeId Enr) → List Enr
  unfolding interested_enrs sort_by select_gossip_recipients
  calculate_interested_enrs content_key all_nodes =
      let enrs = interested_enrs content_key all_nodes in
      unless_empty enrs (select_gossip_recipients (sort_by (enr_distance content_key) enrs))
