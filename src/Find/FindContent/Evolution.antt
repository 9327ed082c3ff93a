-- ===== src/Find/FindContent/Evolution.antt =====
-- What the operations of a FindContentQuery do to its peers.
use trin.Prelude.{
  ℕ, ◌≡◌, refl, sym, subst, inl, inr, Bool, false, Option, none, some, ltb, Bool-cases, arith,
}
use trin.BTreeMap.{get, set}
use trin.BTreeMap.Order.{IsSorted, set-From}
use trin.Find.KeySpace.{KeySpace}
use trin.Find.Query.{
  QueryPeer, QueryPeerState, not_contacted, waiting, unresponsive, failed, succeeded, set_state,
  QueryState,
}
use trin.Find.Query.States.{PeerStep, fails, fails_late, succeeds, succeeds_late}
use trin.Find.ClosestPeers.{Exit, Scan}
use trin.Find.ClosestPeers.Scanned.{Outcome, scan-Outcome}
use trin.Find.ClosestPeers.Evolution.{
  Evolves, Evolves-refl, Evolves-set, Evolves-incorporate, Evolves-Scanned,
}
use trin.Find.FindContent.{
  FindContentQuery, FindContentQueryResponse, closest_nodes, content, connection_id, fail_entry,
  on_failure, respond, succeed_entry, on_success, conclude, after_scan, poll,
}
use trin.Find.FindContent.Cases.{on_failure_cases, on_success_cases, poll_cases}
use trin.Find.FindContent.Valid.{IsValid}

module _ {Node Key : Type 0} (ks : KeySpace Node Key) where
  -- The peers after a call that returns.
  abbrev pub EvolvesTo : FindContentQuery Node Key → Option (FindContentQuery Node Key) → Type 0
  EvolvesTo q none = Unit
  EvolvesTo q (some q') = Evolves q.closest_peers q'.closest_peers

  fail_entry-EvolvesTo :
      (q : FindContentQuery Node Key) (d : ℕ) (p : QueryPeer Key) (s : QueryPeerState)
      → get d q.closest_peers ≡ some p
      → p.state ≡ s
      → EvolvesTo q (fail_entry q d p s)
  fail_entry-EvolvesTo q d p (waiting t) h e = elim (Bool-cases (ltb 0 q.num_waiting)) [
    | inl some_waiting ↦ rw some_waiting (
        Evolves-set d p (set_state p failed) q.closest_peers h refl
          (subst (λ s. PeerStep s failed) (sym e) (fails t)))
    | inr nobody ↦ rw nobody tt
  ]
  fail_entry-EvolvesTo q d p unresponsive h e =
      Evolves-set d p (set_state p failed) q.closest_peers h refl
        (subst (λ s. PeerStep s failed) (sym e) fails_late)
  fail_entry-EvolvesTo q d p not_contacted h e = Evolves-refl q.closest_peers
  fail_entry-EvolvesTo q d p failed h e = Evolves-refl q.closest_peers
  fail_entry-EvolvesTo q d p succeeded h e = Evolves-refl q.closest_peers

  pub on_failure-EvolvesTo :
      (q : FindContentQuery Node Key) (peer : Node) → EvolvesTo q (on_failure ks q peer)
  on_failure-EvolvesTo q peer =
      on_failure_cases ks (EvolvesTo q) q peer (Evolves-refl q.closest_peers)
        (λ d p h. fail_entry-EvolvesTo q d p p.state h refl)

  respond-Evolves :
      (q q' : FindContentQuery Node Key) (peer : Node) (response : FindContentQueryResponse Node)
      → IsSorted q'.closest_peers
      → Evolves q.closest_peers q'.closest_peers
      → Evolves q.closest_peers (respond ks q' peer response).closest_peers
  unfolding respond
  respond-Evolves q q' peer (closest_nodes closer_peers) s e =
      Evolves-incorporate ks q'.config q'.target_key _ closer_peers false q.closest_peers _ s e
  respond-Evolves q q' peer (content bytes) s e = e
  respond-Evolves q q' peer (connection_id id) s e = e

  answer-Evolves :
      (q : FindContentQuery Node Key) (d : ℕ) (peer : Node)
      (response : FindContentQueryResponse Node) (p : QueryPeer Key) (w : ℕ)
      → IsValid ks q
      → get d q.closest_peers ≡ some p
      → PeerStep p.state succeeded
      → Evolves q.closest_peers
          (respond ks
            (record q {
              num_waiting = w;
              closest_peers = set d (set_state p succeeded) q.closest_peers;
            })
            peer
            response).closest_peers
  answer-Evolves q d peer response p w v h st =
      respond-Evolves q
        (record q {
          num_waiting = w;
          closest_peers = set d (set_state p succeeded) q.closest_peers;
        })
        peer response (set-From 0 d _ q.closest_peers v.sorted)
        (Evolves-set d p (set_state p succeeded) q.closest_peers h refl st)

  succeed_entry-EvolvesTo :
      (q : FindContentQuery Node Key) (d : ℕ) (peer : Node)
      (response : FindContentQueryResponse Node) (p : QueryPeer Key) (s : QueryPeerState)
      → IsValid ks q
      → get d q.closest_peers ≡ some p
      → p.state ≡ s
      → EvolvesTo q (succeed_entry ks q d peer response p s)
  succeed_entry-EvolvesTo q d peer response p (waiting t) v h e =
      elim (Bool-cases (ltb 0 q.num_waiting)) [
        | inl some_waiting ↦ rw some_waiting (
            answer-Evolves q d peer response p _ v h
              (subst (λ s. PeerStep s succeeded) (sym e) (succeeds t)))
        | inr nobody ↦ rw nobody tt
      ]
  succeed_entry-EvolvesTo q d peer response p unresponsive v h e =
      answer-Evolves q d peer response p q.num_waiting v h
        (subst (λ s. PeerStep s succeeded) (sym e) succeeds_late)
  succeed_entry-EvolvesTo q d peer response p not_contacted v h e = Evolves-refl q.closest_peers
  succeed_entry-EvolvesTo q d peer response p failed v h e = Evolves-refl q.closest_peers
  succeed_entry-EvolvesTo q d peer response p succeeded v h e = Evolves-refl q.closest_peers

  pub on_success-EvolvesTo :
      (q : FindContentQuery Node Key) (peer : Node) (response : FindContentQueryResponse Node)
      → IsValid ks q
      → EvolvesTo q (on_success ks q peer response)
  on_success-EvolvesTo q peer response v =
      on_success_cases ks (EvolvesTo q) q peer response (Evolves-refl q.closest_peers)
        (λ d p h. succeed_entry-EvolvesTo q d peer response p p.state v h refl)

  abbrev pub PollEvolvesTo :
      FindContentQuery Node Key → Option (QueryState Node × FindContentQuery Node Key) → Type 0
  PollEvolvesTo q none = Unit
  PollEvolvesTo q (some (s, q')) = Evolves q.closest_peers q'.closest_peers

  pub peers-conclude :
      (q : FindContentQuery Node Key) (e : Exit Node)
      → (conclude q e).1.closest_peers ≡ q.closest_peers
  peers-conclude q e = ground arith

  pub poll-PollEvolvesTo :
      (q : FindContentQuery Node Key) (now : ℕ) → PollEvolvesTo q (poll ks q now)
  poll-PollEvolvesTo q now =
      poll_cases ks (PollEvolvesTo q) q now (λ over. Evolves-refl q.closest_peers)
        (λ c live found. Evolves-refl q.closest_peers)
        (λ live empty.
          through _ _ (scan-Outcome ks q.config now _ q.num_waiting (some 0) q.closest_peers))
    where
      through :
          (busy : Bool) (o : Option (Scan Node Key))
          → Outcome ks q.config now busy q.num_waiting (some 0) q.closest_peers o
          → PollEvolvesTo q (after_scan q o)
      through busy none r = tt
      through busy (some x) r =
          rw
            (peers-conclude (record q { closest_peers = x.peers; num_waiting = x.num_waiting })
              x.exit)
            (Evolves-Scanned ks q.config now busy r)
