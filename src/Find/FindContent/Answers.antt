-- ===== src/Find/FindContent/Answers.antt =====
-- `into_result` of a FindContentQuery, and the way of a content from its arrival to the result.
use trin.Prelude.{
  ℕ, zero, suc, ◌≤◌, ◌≡◌, refl, ◌⊎◌, inl, inr, Bool, false, none, some, List, [], ◌∷◌, arith,
  length, length-take, take, All, Bool-cases,
}
use trin.Prelude.Words.{usize_sub}
use trin.BTreeMap.{get, set}
use trin.Find.KeySpace.{KeySpace}
use trin.Find.Query.{
  QueryPeer, QueryPeerState, not_contacted, waiting, unresponsive, failed, succeeded, is_finished,
  finished, set_state, done,
}
use trin.Find.ClosestPeers.{Peers, keep_succeeded, succeeded_nodes}
use trin.Find.ClosestPeers.Consistent.{waiting_counted}
use trin.Find.ClosestPeers.Chosen.{
  Ranked, nobody, nearest, Ranked-lower, Ranked-take, succeeded_nodes-Ranked, Among, Crowded,
  succeeded_nodes_nearest,
}
use trin.Find.FindContent.{FindContentQuery, nodes, found, content, content_from, on_success, poll}
use trin.Find.FindContent.Valid.{IsValid}
use trin.Find.FindContent.Results.{keep_to_poke, to_poke, get_nodes_to_poke, into_result}

module _ {Node Key : Type 0} (ks : KeySpace Node Key) (same_node : Node → Node → Bool) where
  poke_step :
      {m : Peers Key} {b : ℕ} {rest rest' : List Node} (source : Node) (p : QueryPeer Key)
      (s : QueryPeerState)
      → ((a : ℕ) → Ranked ks m a rest → Ranked ks m a rest')
      → Ranked ks m b (keep_succeeded ks p s rest)
      → Ranked ks m b (keep_to_poke ks same_node source p s rest')
  poke_step source p succeeded keep (nearest b d n rest h at r) =
      elim (Bool-cases (same_node (ks.preimage p.key) source)) [
        | inl same ↦ rw same (keep b (Ranked-lower ks b (omega arith) r))
        | inr other ↦ rw other (nearest b d n _ h at (keep (suc d) r))
      ]
  poke_step {b = b} source p not_contacted keep r = keep b r
  poke_step {b = b} source p (waiting t) keep r = keep b r
  poke_step {b = b} source p unresponsive keep r = keep b r
  poke_step {b = b} source p failed keep r = keep b r

  to_poke-Ranked :
      {m : Peers Key} (source : Node) (s : Peers Key) (b : ℕ)
      → Ranked ks m b (succeeded_nodes ks s)
      → Ranked ks m b (to_poke ks same_node source s)
  unfolding to_poke succeeded_nodes
  to_poke-Ranked source [] b r = nobody b
  to_poke-Ranked source ((d, p) ∷ s) b r = poke_step source p p.state (to_poke-Ranked source s) r

  -- No node to poke is the one that the content came from.
  abbrev pub Excludes : Node → List Node → Type 0
  Excludes source = All (λ n. same_node n source ≡ false)

  take-Excludes :
      (k : ℕ) (source : Node) (l : List Node) → Excludes source l → Excludes source (take k l)
  take-Excludes zero source l h = tt
  take-Excludes (suc k) source [] h = tt
  take-Excludes (suc k) source (x ∷ l) h = (h.0, take-Excludes k source l h.1)

  to_poke-Excludes :
      (source : Node) (s : Peers Key) → Excludes source (to_poke ks same_node source s)
  unfolding to_poke
  to_poke-Excludes source [] = tt
  to_poke-Excludes source ((d, p) ∷ s) = ground (arith, to_poke-Excludes source s)

  -- In a valid query the nodes to poke succeeded, come by rising distance, are at most
  -- `num_results`, and exclude the node that the content came from.
  pub get_nodes_to_poke_lem :
      (q : FindContentQuery Node Key) (source : Node)
      → IsValid ks q
      → let pokes = get_nodes_to_poke ks same_node q source in
        Ranked ks q.closest_peers 0 pokes
        × Excludes source pokes
        × (length pokes ≤ q.config.num_results)
  unfolding get_nodes_to_poke
  get_nodes_to_poke_lem q source v = (
    Ranked-take ks q.config.num_results (
        to_poke-Ranked source q.closest_peers 0
          (succeeded_nodes-Ranked ks q.closest_peers v.sorted)),
    take-Excludes q.config.num_results source _ (to_poke-Excludes source q.closest_peers),
    omega (arith, length-take q.config.num_results (to_poke ks same_node source q.closest_peers)),
  )

  -- Without content the result of a valid query lists peers that succeeded, by rising distance,
  -- at most `num_results`; and each peer that succeeded is listed, unless that many nearer ones
  -- are.
  pub into_result_nodes :
      (q : FindContentQuery Node Key)
      → IsValid ks q
      → q.content ≡ none
      → (l : List Node) × (into_result ks same_node q ≡ nodes l)
        × Ranked ks q.closest_peers 0 l
        × (length l ≤ q.config.num_results)
        × ((d : ℕ) (p : QueryPeer Key)
            → get d q.closest_peers ≡ some p
            → p.state ≡ succeeded
            → Among ks (ks.preimage p.key) l ⊎ Crowded ks q.closest_peers d q.config.num_results l)
  unfolding into_result
  into_result_nodes q v empty = (
    take q.config.num_results (succeeded_nodes ks q.closest_peers),
    rw (empty, into_result),
    Ranked-take ks q.config.num_results (succeeded_nodes-Ranked ks q.closest_peers v.sorted),
    omega (arith, length-take q.config.num_results (succeeded_nodes ks q.closest_peers)),
    λ d p h e. succeeded_nodes_nearest ks q.config.num_results d p q.closest_peers v.sorted h e,
  )

  -- A content that comes, in a valid query that is not finished, from a peer that is waited for
  -- finishes the query at the next poll, and is the result, with nodes to poke among which its
  -- source is not.
  pub content_delivered :
      (q : FindContentQuery Node Key) (peer : Node) (bytes : List ℕ) (p : QueryPeer Key) (t now : ℕ)
      → IsValid ks q
      → is_finished q.progress ≡ false
      → get (ks.distance (ks.into_key peer) q.target_key) q.closest_peers ≡ some p
      → p.state ≡ waiting t
      → (q' : FindContentQuery Node Key) × (q'' : FindContentQuery Node Key) × (pokes : List Node)
        × (on_success ks q peer (content bytes) ≡ some q')
        × (poll ks q' now ≡ some (done, q''))
        × (into_result ks same_node q'' ≡ found bytes pokes)
        × Excludes peer pokes
  unfolding on_success poll into_result get_nodes_to_poke
  content_delivered q peer bytes p t now v live h w = (
    answered_query,
    record answered_query { progress = finished },
    get_nodes_to_poke ks same_node answered_query peer,
    rw (live, on_success) (rw (h, on_success) (ground (arith, waiting_counted ks d p t v h w))),
    ground arith,
    refl,
    take-Excludes q.config.num_results peer _ (to_poke-Excludes peer answered_query.closest_peers),
  )
    where
      d : ℕ
      d = ks.distance (ks.into_key peer) q.target_key

      answered_query : FindContentQuery Node Key
      answered_query = record q {
        num_waiting = usize_sub q.num_waiting 1;
        closest_peers = set d (set_state p succeeded) q.closest_peers;
        content = some (content_from bytes peer);
      }
