-- ===== src/Find/FindContent/Results.antt =====
-- The results of FindContentQuery, portalnet/src/find/iterators/findcontent.rs.
use trin.Prelude.{Bool, Option, none, some, List, [], ◌∷◌, take, if◌then◌else◌}
use trin.Find.KeySpace.{KeySpace}
use trin.Find.Query.{
  QueryPeerState, not_contacted, waiting, unresponsive, failed, succeeded, QueryPeer, Query,
}
use trin.Find.ClosestPeers.{Peers, succeeded_nodes}
use trin.Find.FindContent.{
  FindContentQuery, FindContentQueryResponse, FindContentQueryResult, nodes, found, utp,
  ContentAndPeer, content_from, utp_from, start, on_failure, on_success, poll,
}

-- `same_node` is the `Eq` that the source asks of `TNodeId`.
module _ {Node Key : Type 0} (ks : KeySpace Node Key) (same_node : Node → Node → Bool) where
  abbrev pub keep_to_poke : Node → QueryPeer Key → QueryPeerState → List Node → List Node
  keep_to_poke source p succeeded rest =
      if same_node (ks.preimage p.key) source then rest else ks.preimage p.key ∷ rest
  keep_to_poke source p not_contacted rest = rest
  keep_to_poke source p (waiting t) rest = rest
  keep_to_poke source p unresponsive rest = rest
  keep_to_poke source p failed rest = rest

  -- The `filter_map` of `get_nodes_to_poke`.
  unfoldable pub to_poke : Node → Peers Key → List Node
  to_poke source [] = []
  to_poke source ((d, p) ∷ m) = keep_to_poke source p p.state (to_poke source m)

  unfoldable pub get_nodes_to_poke : FindContentQuery Node Key → Node → List Node
  unfolding to_poke
  get_nodes_to_poke q source = take q.config.num_results (to_poke source q.closest_peers)

  abbrev keep_pending : QueryPeer Key → QueryPeerState → List Node → List Node
  keep_pending p (waiting t) rest = ks.preimage p.key ∷ rest
  keep_pending p not_contacted rest = rest
  keep_pending p succeeded rest = rest
  keep_pending p unresponsive rest = rest
  keep_pending p failed rest = rest

  pending : Node → Peers Key → List Node
  pending source [] = []
  pending source ((d, p) ∷ m) =
      if same_node (ks.preimage p.key) source
      then pending source m
      else keep_pending p p.state (pending source m)

  pub pending_peers : FindContentQuery Node Key → Node → List Node
  unfolding pending
  pending_peers q source = pending source q.closest_peers

  abbrev pub result_of :
      FindContentQuery Node Key → Option (ContentAndPeer Node) → FindContentQueryResult Node
  result_of q (some (content_from bytes peer)) = found bytes (get_nodes_to_poke q peer)
  result_of q (some (utp_from id peer)) = utp id (get_nodes_to_poke q peer) peer
  result_of q none = nodes (take q.config.num_results (succeeded_nodes ks q.closest_peers))

  unfoldable pub into_result : FindContentQuery Node Key → FindContentQueryResult Node
  into_result q = result_of q q.content

  -- The implementation of the trait.
  abbrev pub find_content_query :
      Query
        (FindContentQuery Node Key)
        Node
        (FindContentQueryResponse Node)
        (FindContentQueryResult Node)
  find_content_query = record {
    started = λ q. q.started;
    start = start;
    on_failure = on_failure ks;
    on_success = on_success ks;
    poll = poll ks;
    into_result = into_result;
  }
