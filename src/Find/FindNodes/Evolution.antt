-- ===== src/Find/FindNodes/Evolution.antt =====
-- What the operations of a FindNodeQuery do to its peers.
use trin.Prelude.{
  ℕ, ◌≡◌, refl, sym, subst, inl, inr, Bool, false, Option, none, some, List, length, ltb,
  Bool-cases, arith,
}
use trin.BTreeMap.{get, set}
use trin.BTreeMap.Order.{set-From}
use trin.Find.KeySpace.{KeySpace}
use trin.Find.Query.{
  QueryPeer, QueryPeerState, not_contacted, waiting, unresponsive, failed, succeeded, set_state,
  QueryState,
}
use trin.Find.Query.States.{PeerStep, fails, fails_late, succeeds, succeeds_late}
use trin.Find.ClosestPeers.{Exit, Scan}
use trin.Find.ClosestPeers.Scanned.{Outcome, scan-Outcome}
use trin.Find.ClosestPeers.Evolution.{
  Evolves, Evolves-refl, Evolves-set, Evolves-incorporate, Evolves-Scanned,
}
use trin.Find.FindNodes.{
  FindNodeQuery, fail_entry, on_failure, answered, respond, succeed_entry, on_success, conclude,
  after_scan, poll,
}
use trin.Find.FindNodes.Cases.{on_failure_cases, on_success_cases, poll_cases}
use trin.Find.FindNodes.Valid.{IsValid}

module _ {Node Key : Type 0} (ks : KeySpace Node Key) where
  fail_entry-Evolves :
      (q : FindNodeQuery Key) (d : ℕ) (p : QueryPeer Key) (s : QueryPeerState)
      → get d q.closest_peers ≡ some p
      → p.state ≡ s
      → Evolves q.closest_peers (fail_entry q d p s).closest_peers
  fail_entry-Evolves q d p (waiting t) h e =
      Evolves-set d p (set_state p failed) q.closest_peers h refl
        (subst (λ s. PeerStep s failed) (sym e) (fails t))
  fail_entry-Evolves q d p unresponsive h e =
      Evolves-set d p (set_state p failed) q.closest_peers h refl
        (subst (λ s. PeerStep s failed) (sym e) fails_late)
  fail_entry-Evolves q d p not_contacted h e = Evolves-refl q.closest_peers
  fail_entry-Evolves q d p failed h e = Evolves-refl q.closest_peers
  fail_entry-Evolves q d p succeeded h e = Evolves-refl q.closest_peers

  pub on_failure-Evolves :
      (q : FindNodeQuery Key) (peer : Node)
      → Evolves q.closest_peers (on_failure ks q peer).closest_peers
  on_failure-Evolves q peer =
      on_failure_cases ks (λ q'. Evolves q.closest_peers q'.closest_peers) q peer
        (Evolves-refl q.closest_peers) (λ d p h. fail_entry-Evolves q d p p.state h refl)

  -- The peers after a call that returns.
  abbrev pub EvolvesTo : FindNodeQuery Key → Option (FindNodeQuery Key) → Type 0
  EvolvesTo q none = Unit
  EvolvesTo q (some q') = Evolves q.closest_peers q'.closest_peers

  answer-Evolves :
      (q : FindNodeQuery Key) (d : ℕ) (response : List Node) (p : QueryPeer Key) (w : ℕ)
      → IsValid ks q
      → get d q.closest_peers ≡ some p
      → PeerStep p.state succeeded
      → Evolves q.closest_peers
          (respond ks
            (record q {
              num_waiting = w;
              closest_peers = set d (answered (length response) p) q.closest_peers;
            })
            response).closest_peers
  unfolding respond
  answer-Evolves q d response p w v h st =
      Evolves-incorporate ks q.config q.target_key _ response false q.closest_peers _
        (set-From 0 d _ q.closest_peers v.sorted)
        (Evolves-set d p (answered (length response) p) q.closest_peers h refl st)

  succeed_entry-EvolvesTo :
      (q : FindNodeQuery Key) (d : ℕ) (response : List Node) (p : QueryPeer Key)
      (s : QueryPeerState)
      → IsValid ks q
      → get d q.closest_peers ≡ some p
      → p.state ≡ s
      → EvolvesTo q (succeed_entry ks q d response p s)
  succeed_entry-EvolvesTo q d response p (waiting t) v h e =
      elim (Bool-cases (ltb 0 q.num_waiting)) [
        | inl some_waiting ↦ rw some_waiting (
            answer-Evolves q d response p _ v h
              (subst (λ s. PeerStep s succeeded) (sym e) (succeeds t)))
        | inr nobody ↦ rw nobody tt
      ]
  succeed_entry-EvolvesTo q d response p unresponsive v h e =
      answer-Evolves q d response p q.num_waiting v h
        (subst (λ s. PeerStep s succeeded) (sym e) succeeds_late)
  succeed_entry-EvolvesTo q d response p not_contacted v h e = Evolves-refl q.closest_peers
  succeed_entry-EvolvesTo q d response p failed v h e = Evolves-refl q.closest_peers
  succeed_entry-EvolvesTo q d response p succeeded v h e = Evolves-refl q.closest_peers

  pub on_success-EvolvesTo :
      (q : FindNodeQuery Key) (peer : Node) (response : List Node)
      → IsValid ks q
      → EvolvesTo q (on_success ks q peer response)
  on_success-EvolvesTo q peer response v =
      on_success_cases ks (EvolvesTo q) q peer response (Evolves-refl q.closest_peers)
        (λ d p h. succeed_entry-EvolvesTo q d response p p.state v h refl)

  abbrev pub PollEvolvesTo :
      FindNodeQuery Key → Option (QueryState Node × FindNodeQuery Key) → Type 0
  PollEvolvesTo q none = Unit
  PollEvolvesTo q (some (s, q')) = Evolves q.closest_peers q'.closest_peers

  pub peers-conclude :
      (q : FindNodeQuery Key) (e : Exit Node) → (conclude q e).1.closest_peers ≡ q.closest_peers
  peers-conclude q e = ground arith

  pub poll-PollEvolvesTo : (q : FindNodeQuery Key) (now : ℕ) → PollEvolvesTo q (poll ks q now)
  poll-PollEvolvesTo q now =
      poll_cases ks (PollEvolvesTo q) q now (λ over. Evolves-refl q.closest_peers)
        (λ live.
          through _ _ (scan-Outcome ks q.config now _ q.num_waiting (some 0) q.closest_peers))
    where
      through :
          (busy : Bool) (o : Option (Scan Node Key))
          → Outcome ks q.config now busy q.num_waiting (some 0) q.closest_peers o
          → PollEvolvesTo q (after_scan q o)
      through busy none r = tt
      through busy (some x) r =
          rw
            (peers-conclude (record q { closest_peers = x.peers; num_waiting = x.num_waiting })
              x.exit)
            (Evolves-Scanned ks q.config now busy r)
