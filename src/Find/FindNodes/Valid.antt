-- ===== src/Find/FindNodes/Valid.antt =====
-- The invariant of a FindNodeQuery, kept by every operation, none of which panics on a valid query.
use trin.Prelude.{
  ℕ, ◌≡◌, refl, inl, inr, false, Option, none, some, List, length, Bool-cases, ltb, lt→ltb,
}
use trin.BTreeMap.{get}
use trin.Find.KeySpace.{KeySpace, IsKeySpace}
use trin.Find.Query.{
  QueryConfig, QueryPeer, QueryPeerState, not_contacted, waiting, unresponsive, failed, succeeded,
  set_state, QueryState,
}
use trin.Find.ClosestPeers.{Exit, contact, full, complete, exhausted, Scan, at_capacity}
use trin.Find.ClosestPeers.Scanned.{Outcome, scan-Outcome}
use trin.Find.ClosestPeers.Waiting.{IsSome}
use trin.Find.ClosestPeers.Consistent.{
  Fits, Consistent, settle_waiting, settle_unresponsive, waiting_counted, respond-Consistent,
  Scanned-Consistent, scan-Consistent, initial_peers-Consistent,
}
use trin.Find.FindNodes.Cases.{on_failure_cases, on_success_cases, poll_cases}
use trin.Find.FindNodes.{
  FindNodeQuery, with_config, fail_entry, on_failure, answered, respond, succeed_entry, on_success,
  conclude, after_scan, poll,
}

module _ {Node Key : Type 0} (ks : KeySpace Node Key) where
  abbrev pub IsValid : FindNodeQuery Key → Type 0
  IsValid q = Consistent ks q.config q.target_key q.num_waiting q.closest_peers

  -- A call that returns, in a valid query.
  abbrev pub Returns : Option (FindNodeQuery Key) → Type 0
  Returns none = ⊥
  Returns (some q) = IsValid q

  abbrev pub PollReturns : Option (QueryState Node × FindNodeQuery Key) → Type 0
  PollReturns none = ⊥
  PollReturns (some (s, q)) = IsValid q

  pub with_config-IsValid :
      (config : QueryConfig) (target : Key) (known : List Key)
      → IsValid (with_config ks config target known)
  unfolding with_config
  with_config-IsValid config target known = initial_peers-Consistent ks config target known

  fail_entry-IsValid :
      (q : FindNodeQuery Key) (d : ℕ) (p : QueryPeer Key) (s : QueryPeerState)
      → IsValid q
      → Fits q.closest_peers
      → get d q.closest_peers ≡ some p
      → p.state ≡ s
      → IsValid (fail_entry q d p s)
  fail_entry-IsValid q d p (waiting t) v fits h e =
      settle_waiting ks d p (set_state p failed) t v fits h e refl refl
  fail_entry-IsValid q d p unresponsive v fits h e =
      settle_unresponsive ks d p (set_state p failed) v h e refl refl
  fail_entry-IsValid q d p not_contacted v fits h e = v
  fail_entry-IsValid q d p failed v fits h e = v
  fail_entry-IsValid q d p succeeded v fits h e = v

  pub on_failure-IsValid :
      (q : FindNodeQuery Key) (peer : Node)
      → IsValid q
      → Fits q.closest_peers
      → IsValid (on_failure ks q peer)
  on_failure-IsValid q peer v fits =
      on_failure_cases ks IsValid q peer v (λ d p h. fail_entry-IsValid q d p p.state v fits h refl)

  respond-IsValid :
      (laws : IsKeySpace ks) (q : FindNodeQuery Key) (response : List Node)
      → IsValid q
      → IsValid (respond ks q response)
  unfolding respond
  respond-IsValid laws q response v = respond-Consistent ks laws _ response false v

  succeed_entry-Returns :
      (laws : IsKeySpace ks) (q : FindNodeQuery Key) (d : ℕ) (response : List Node)
      (p : QueryPeer Key) (s : QueryPeerState)
      → IsValid q
      → Fits q.closest_peers
      → get d q.closest_peers ≡ some p
      → p.state ≡ s
      → Returns (succeed_entry ks q d response p s)
  succeed_entry-Returns laws q d response p (waiting t) v fits h e =
      rw (lt→ltb 0 q.num_waiting (waiting_counted ks d p t v h e)) (
        respond-IsValid laws _ response
          (settle_waiting ks d p (answered (length response) p) t v fits h e refl refl))
  succeed_entry-Returns laws q d response p unresponsive v fits h e =
      respond-IsValid laws _ response
        (settle_unresponsive ks d p (answered (length response) p) v h e refl refl)
  succeed_entry-Returns laws q d response p not_contacted v fits h e = v
  succeed_entry-Returns laws q d response p failed v fits h e = v
  succeed_entry-Returns laws q d response p succeeded v fits h e = v

  pub on_success-Returns :
      (laws : IsKeySpace ks) (q : FindNodeQuery Key) (peer : Node) (response : List Node)
      → IsValid q
      → Fits q.closest_peers
      → Returns (on_success ks q peer response)
  on_success-Returns laws q peer response v fits =
      on_success_cases ks Returns q peer response v
        (λ d p h. succeed_entry-Returns laws q d response p p.state v fits h refl)

  conclude-IsValid : (q : FindNodeQuery Key) (e : Exit Node) → IsValid q → IsValid (conclude q e).1
  conclude-IsValid q (contact n) v = v
  conclude-IsValid q full v = v
  conclude-IsValid q complete v = v
  conclude-IsValid q exhausted v = elim (Bool-cases (ltb 0 q.num_waiting)) [
    | inl more ↦ rw more v
    | inr none_left ↦ rw none_left v
  ]

  after_scan-PollReturns :
      (q : FindNodeQuery Key) (now : ℕ) (o : Option (Scan Node Key))
      → let busy = at_capacity q.config q.progress q.num_waiting in
        IsSome ks q.config now busy o
        → Outcome ks q.config now busy q.num_waiting (some 0) q.closest_peers o
        → IsValid q
        → Fits q.closest_peers
        → PollReturns (after_scan q o)
  after_scan-PollReturns q now none calm r v fits = calm
  after_scan-PollReturns q now (some s) calm r v fits =
      conclude-IsValid (record q { closest_peers = s.peers; num_waiting = s.num_waiting }) s.exit
        (Scanned-Consistent ks now q.progress r v fits)

  pub poll-PollReturns :
      (q : FindNodeQuery Key) (now : ℕ)
      → IsValid q
      → Fits q.closest_peers
      → PollReturns (poll ks q now)
  poll-PollReturns q now v fits =
      poll_cases ks PollReturns q now (λ over. v)
        (λ live.
          after_scan-PollReturns q now _ (scan-Consistent ks now _ (some 0) v fits)
            (scan-Outcome ks q.config now _ q.num_waiting (some 0) q.closest_peers) v fits)
