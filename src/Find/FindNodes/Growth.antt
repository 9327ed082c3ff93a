-- ===== src/Find/FindNodes/Growth.antt =====
-- How many peers the operations of a FindNodeQuery add.
use trin.Prelude.{
  ℕ, ◌+◌, ◌≤◌, Bool, false, Option, none, some, List, arith, length, ltb, Bool-cases, inl, inr,
}
use trin.BTreeMap.{set}
use trin.Find.KeySpace.{KeySpace}
use trin.Find.Query.{
  QueryPeer, QueryPeerState, not_contacted, waiting, unresponsive, failed, succeeded, set_state,
  QueryState,
}
use trin.Find.ClosestPeers.{Scan}
use trin.Find.ClosestPeers.Scanned.{Outcome, scan-Outcome}
use trin.Find.ClosestPeers.Size.{length-set, length-incorporate, length-Scanned}
use trin.Find.FindNodes.{
  FindNodeQuery, fail_entry, on_failure, answered, respond, succeed_entry, on_success, after_scan,
  poll,
}
use trin.Find.FindNodes.Cases.{on_failure_cases, on_success_cases, poll_cases}
use trin.Find.FindNodes.Evolution.{peers-conclude}

-- At most `n` more peers than before.
abbrev pub GrowsBy : {Key : Type 0} → ℕ → FindNodeQuery Key → FindNodeQuery Key → Type 0
GrowsBy n q q' = length q'.closest_peers ≤ length q.closest_peers + n

module _ {Node Key : Type 0} (ks : KeySpace Node Key) where
  pub on_failure-GrowsBy :
      (q : FindNodeQuery Key) (peer : Node) → GrowsBy 0 q (on_failure ks q peer)
  on_failure-GrowsBy q peer =
      on_failure_cases ks (GrowsBy 0 q) q peer (omega arith) (λ d p h. entry d p p.state)
    where
      entry : (d : ℕ) (p : QueryPeer Key) (s : QueryPeerState) → GrowsBy 0 q (fail_entry q d p s)
      entry d p s = ground (arith, length-set d (set_state p failed) q.closest_peers)

  abbrev pub ReturnGrowsBy : ℕ → FindNodeQuery Key → Option (FindNodeQuery Key) → Type 0
  ReturnGrowsBy n q none = Unit
  ReturnGrowsBy n q (some q') = GrowsBy n q q'

  length-respond :
      (q : FindNodeQuery Key) (response : List Node)
      → GrowsBy (length response) q (respond ks q response)
  unfolding respond
  length-respond q response =
      length-incorporate ks q.config q.target_key _ response false q.closest_peers

  length-answer :
      (q : FindNodeQuery Key) (d : ℕ) (response : List Node) (p : QueryPeer Key) (w : ℕ)
      → GrowsBy (length response) q (
          respond ks
            (record q {
              num_waiting = w;
              closest_peers = set d (answered (length response) p) q.closest_peers;
            })
            response)
  length-answer q d response p w = omega (
    arith,
    length-respond
        (record q {
          num_waiting = w;
          closest_peers = set d (answered (length response) p) q.closest_peers;
        })
        response,
    length-set d (answered (length response) p) q.closest_peers,
  )

  succeed_entry-ReturnGrowsBy :
      (q : FindNodeQuery Key) (d : ℕ) (response : List Node) (p : QueryPeer Key)
      (s : QueryPeerState)
      → ReturnGrowsBy (length response) q (succeed_entry ks q d response p s)
  succeed_entry-ReturnGrowsBy q d response p (waiting t) = elim (Bool-cases (ltb 0 q.num_waiting)) [
    | inl some_waiting ↦ rw some_waiting (length-answer q d response p _)
    | inr nobody ↦ rw nobody tt
  ]
  succeed_entry-ReturnGrowsBy q d response p unresponsive =
      length-answer q d response p q.num_waiting
  succeed_entry-ReturnGrowsBy q d response p not_contacted = omega arith
  succeed_entry-ReturnGrowsBy q d response p failed = omega arith
  succeed_entry-ReturnGrowsBy q d response p succeeded = omega arith

  pub on_success-ReturnGrowsBy :
      (q : FindNodeQuery Key) (peer : Node) (response : List Node)
      → ReturnGrowsBy (length response) q (on_success ks q peer response)
  on_success-ReturnGrowsBy q peer response =
      on_success_cases ks (ReturnGrowsBy (length response) q) q peer response (omega arith)
        (λ d p h. succeed_entry-ReturnGrowsBy q d response p p.state)

  abbrev pub PollGrowsBy :
      ℕ → FindNodeQuery Key → Option (QueryState Node × FindNodeQuery Key) → Type 0
  PollGrowsBy n q none = Unit
  PollGrowsBy n q (some (s, q')) = GrowsBy n q q'

  pub poll-PollGrowsBy : (q : FindNodeQuery Key) (now : ℕ) → PollGrowsBy 0 q (poll ks q now)
  poll-PollGrowsBy q now =
      poll_cases ks (PollGrowsBy 0 q) q now (λ over. omega arith)
        (λ live.
          through _ _ (scan-Outcome ks q.config now _ q.num_waiting (some 0) q.closest_peers))
    where
      through :
          (busy : Bool) (o : Option (Scan Node Key))
          → Outcome ks q.config now busy q.num_waiting (some 0) q.closest_peers o
          → PollGrowsBy 0 q (after_scan q o)
      through busy none r = tt
      through busy (some x) r =
          rw
            (peers-conclude ks (record q { closest_peers = x.peers; num_waiting = x.num_waiting })
              x.exit)
            (omega (arith, length-Scanned ks r))
