-- ===== src/Find/FindContent/Growth.antt =====
-- How many peers the operations of a FindContentQuery add.
use trin.Prelude.{
  ℕ, ◌+◌, ◌≤◌, Bool, false, Option, none, some, arith, length, ltb, Bool-cases, inl, inr,
}
use trin.BTreeMap.{set}
use trin.Find.KeySpace.{KeySpace}
use trin.Find.Query.{
  QueryPeer, QueryPeerState, not_contacted, waiting, unresponsive, failed, succeeded, set_state,
  QueryState,
}
use trin.Find.ClosestPeers.{Scan}
use trin.Find.ClosestPeers.Scanned.{Outcome, scan-Outcome}
use trin.Find.ClosestPeers.Size.{length-set, length-incorporate, length-Scanned}
use trin.Find.FindContent.{
  FindContentQuery, FindContentQueryResponse, closest_nodes, content, connection_id, fail_entry,
  on_failure, respond, succeed_entry, on_success, after_scan, poll,
}
use trin.Find.FindContent.Cases.{on_failure_cases, on_success_cases, poll_cases}
use trin.Find.FindContent.Evolution.{peers-conclude}

-- At most `n` more peers than before.
abbrev pub GrowsBy :
    {Node Key : Type 0} → ℕ → FindContentQuery Node Key → FindContentQuery Node Key → Type 0
GrowsBy n q q' = length q'.closest_peers ≤ length q.closest_peers + n

-- How many peers a response can bring in.
abbrev pub brought : {Node : Type 0} → FindContentQueryResponse Node → ℕ
brought (closest_nodes closer_peers) = length closer_peers
brought (content bytes) = 0
brought (connection_id id) = 0

module _ {Node Key : Type 0} (ks : KeySpace Node Key) where
  abbrev pub ReturnGrowsBy :
      ℕ → FindContentQuery Node Key → Option (FindContentQuery Node Key) → Type 0
  ReturnGrowsBy n q none = Unit
  ReturnGrowsBy n q (some q') = GrowsBy n q q'

  fail_entry-ReturnGrowsBy :
      (q : FindContentQuery Node Key) (d : ℕ) (p : QueryPeer Key) (s : QueryPeerState)
      → ReturnGrowsBy 0 q (fail_entry q d p s)
  fail_entry-ReturnGrowsBy q d p s =
      ground (arith, length-set d (set_state p failed) q.closest_peers)

  pub on_failure-ReturnGrowsBy :
      (q : FindContentQuery Node Key) (peer : Node) → ReturnGrowsBy 0 q (on_failure ks q peer)
  on_failure-ReturnGrowsBy q peer =
      on_failure_cases ks (ReturnGrowsBy 0 q) q peer (omega arith)
        (λ d p h. fail_entry-ReturnGrowsBy q d p p.state)

  length-respond :
      (q : FindContentQuery Node Key) (peer : Node) (response : FindContentQueryResponse Node)
      → GrowsBy (brought response) q (respond ks q peer response)
  unfolding respond
  length-respond q peer (closest_nodes closer_peers) =
      length-incorporate ks q.config q.target_key _ closer_peers false q.closest_peers
  length-respond q peer (content bytes) = omega arith
  length-respond q peer (connection_id id) = omega arith

  length-answer :
      (q : FindContentQuery Node Key) (d : ℕ) (peer : Node)
      (response : FindContentQueryResponse Node) (p : QueryPeer Key) (w : ℕ)
      → GrowsBy (brought response) q (
          respond ks
            (record q {
              num_waiting = w;
              closest_peers = set d (set_state p succeeded) q.closest_peers;
            })
            peer
            response)
  length-answer q d peer response p w = omega (
    arith,
    length-respond
        (record q {
          num_waiting = w;
          closest_peers = set d (set_state p succeeded) q.closest_peers;
        })
        peer response,
    length-set d (set_state p succeeded) q.closest_peers,
  )

  succeed_entry-ReturnGrowsBy :
      (q : FindContentQuery Node Key) (d : ℕ) (peer : Node)
      (response : FindContentQueryResponse Node) (p : QueryPeer Key) (s : QueryPeerState)
      → ReturnGrowsBy (brought response) q (succeed_entry ks q d peer response p s)
  succeed_entry-ReturnGrowsBy q d peer response p (waiting t) =
      elim (Bool-cases (ltb 0 q.num_waiting)) [
        | inl some_waiting ↦ rw some_waiting (length-answer q d peer response p _)
        | inr nobody ↦ rw nobody tt
      ]
  succeed_entry-ReturnGrowsBy q d peer response p unresponsive =
      length-answer q d peer response p q.num_waiting
  succeed_entry-ReturnGrowsBy q d peer response p not_contacted = omega arith
  succeed_entry-ReturnGrowsBy q d peer response p failed = omega arith
  succeed_entry-ReturnGrowsBy q d peer response p succeeded = omega arith

  pub on_success-ReturnGrowsBy :
      (q : FindContentQuery Node Key) (peer : Node) (response : FindContentQueryResponse Node)
      → ReturnGrowsBy (brought response) q (on_success ks q peer response)
  on_success-ReturnGrowsBy q peer response =
      on_success_cases ks (ReturnGrowsBy (brought response) q) q peer response (omega arith)
        (λ d p h. succeed_entry-ReturnGrowsBy q d peer response p p.state)

  abbrev pub PollGrowsBy :
      ℕ → FindContentQuery Node Key → Option (QueryState Node × FindContentQuery Node Key) → Type 0
  PollGrowsBy n q none = Unit
  PollGrowsBy n q (some (s, q')) = GrowsBy n q q'

  pub poll-PollGrowsBy : (q : FindContentQuery Node Key) (now : ℕ) → PollGrowsBy 0 q (poll ks q now)
  poll-PollGrowsBy q now =
      poll_cases ks (PollGrowsBy 0 q) q now (λ over. omega arith) (λ c live found. omega arith)
        (λ live empty.
          through _ _ (scan-Outcome ks q.config now _ q.num_waiting (some 0) q.closest_peers))
    where
      through :
          (busy : Bool) (o : Option (Scan Node Key))
          → Outcome ks q.config now busy q.num_waiting (some 0) q.closest_peers o
          → PollGrowsBy 0 q (after_scan q o)
      through busy none r = tt
      through busy (some x) r =
          rw
            (peers-conclude ks (record q { closest_peers = x.peers; num_waiting = x.num_waiting })
              x.exit)
            (omega (arith, length-Scanned ks r))
