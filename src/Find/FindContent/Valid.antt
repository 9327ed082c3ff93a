-- ===== src/Find/FindContent/Valid.antt =====
-- The invariant of a FindContentQuery, kept by every operation, none of which panics on a valid query.
use trin.Prelude.{ℕ, ◌≡◌, refl, inl, inr, false, Option, none, some, List, Bool-cases, ltb, lt→ltb}
use trin.BTreeMap.{get}
use trin.Find.KeySpace.{KeySpace, IsKeySpace}
use trin.Find.Query.{
  QueryConfig, QueryPeer, QueryPeerState, not_contacted, waiting, unresponsive, failed, succeeded,
  set_state, QueryState,
}
use trin.Find.ClosestPeers.{Exit, contact, full, complete, exhausted, Scan, at_capacity}
use trin.Find.ClosestPeers.Scanned.{Outcome, scan-Outcome}
use trin.Find.ClosestPeers.Waiting.{IsSome}
use trin.Find.ClosestPeers.Consistent.{
  Fits, Consistent, settle_waiting, settle_unresponsive, waiting_counted, respond-Consistent,
  Scanned-Consistent, scan-Consistent, initial_peers-Consistent,
}
use trin.Find.FindContent.Cases.{on_failure_cases, on_success_cases, poll_cases}
use trin.Find.FindContent.{
  FindContentQuery, FindContentQueryResponse, closest_nodes, content, connection_id, with_config,
  fail_entry, on_failure, respond, succeed_entry, on_success, conclude, after_scan, poll,
}

module _ {Node Key : Type 0} (ks : KeySpace Node Key) where
  abbrev pub IsValid : FindContentQuery Node Key → Type 0
  IsValid q = Consistent ks q.config q.target_key q.num_waiting q.closest_peers

  -- A call that returns, in a valid query.
  abbrev pub Returns : Option (FindContentQuery Node Key) → Type 0
  Returns none = ⊥
  Returns (some q) = IsValid q

  abbrev pub PollReturns : Option (QueryState Node × FindContentQuery Node Key) → Type 0
  PollReturns none = ⊥
  PollReturns (some (s, q)) = IsValid q

  pub with_config-IsValid :
      (config : QueryConfig) (target : Key) (known : List Key)
      → IsValid (with_config ks config target known)
  unfolding with_config
  with_config-IsValid config target known = initial_peers-Consistent ks config target known

  fail_entry-Returns :
      (q : FindContentQuery Node Key) (d : ℕ) (p : QueryPeer Key) (s : QueryPeerState)
      → IsValid q
      → Fits q.closest_peers
      → get d q.closest_peers ≡ some p
      → p.state ≡ s
      → Returns (fail_entry q d p s)
  fail_entry-Returns q d p (waiting t) v fits h e =
      rw (lt→ltb 0 q.num_waiting (waiting_counted ks d p t v h e))
        (settle_waiting ks d p (set_state p failed) t v fits h e refl refl)
  fail_entry-Returns q d p unresponsive v fits h e =
      settle_unresponsive ks d p (set_state p failed) v h e refl refl
  fail_entry-Returns q d p not_contacted v fits h e = v
  fail_entry-Returns q d p failed v fits h e = v
  fail_entry-Returns q d p succeeded v fits h e = v

  pub on_failure-Returns :
      (q : FindContentQuery Node Key) (peer : Node)
      → IsValid q
      → Fits q.closest_peers
      → Returns (on_failure ks q peer)
  on_failure-Returns q peer v fits =
      on_failure_cases ks Returns q peer v (λ d p h. fail_entry-Returns q d p p.state v fits h refl)

  respond-IsValid :
      (laws : IsKeySpace ks) (q : FindContentQuery Node Key) (peer : Node)
      (response : FindContentQueryResponse Node)
      → IsValid q
      → IsValid (respond ks q peer response)
  unfolding respond
  respond-IsValid laws q peer (closest_nodes closer_peers) v =
      respond-Consistent ks laws _ closer_peers false v
  respond-IsValid laws q peer (content bytes) v = v
  respond-IsValid laws q peer (connection_id id) v = v

  succeed_entry-Returns :
      (laws : IsKeySpace ks) (q : FindContentQuery Node Key) (d : ℕ) (peer : Node)
      (response : FindContentQueryResponse Node) (p : QueryPeer Key) (s : QueryPeerState)
      → IsValid q
      → Fits q.closest_peers
      → get d q.closest_peers ≡ some p
      → p.state ≡ s
      → Returns (succeed_entry ks q d peer response p s)
  succeed_entry-Returns laws q d peer response p (waiting t) v fits h e =
      rw (lt→ltb 0 q.num_waiting (waiting_counted ks d p t v h e)) (
        respond-IsValid laws _ peer response
          (settle_waiting ks d p (set_state p succeeded) t v fits h e refl refl))
  succeed_entry-Returns laws q d peer response p unresponsive v fits h e =
      respond-IsValid laws _ peer response
        (settle_unresponsive ks d p (set_state p succeeded) v h e refl refl)
  succeed_entry-Returns laws q d peer response p not_contacted v fits h e = v
  succeed_entry-Returns laws q d peer response p failed v fits h e = v
  succeed_entry-Returns laws q d peer response p succeeded v fits h e = v

  pub on_success-Returns :
      (laws : IsKeySpace ks) (q : FindContentQuery Node Key) (peer : Node)
      (response : FindContentQueryResponse Node)
      → IsValid q
      → Fits q.closest_peers
      → Returns (on_success ks q peer response)
  on_success-Returns laws q peer response v fits =
      on_success_cases ks Returns q peer response v
        (λ d p h. succeed_entry-Returns laws q d peer response p p.state v fits h refl)

  conclude-IsValid :
      (q : FindContentQuery Node Key) (e : Exit Node) → IsValid q → IsValid (conclude q e).1
  conclude-IsValid q (contact n) v = v
  conclude-IsValid q full v = v
  conclude-IsValid q complete v = v
  conclude-IsValid q exhausted v = elim (Bool-cases (ltb 0 q.num_waiting)) [
    | inl more ↦ rw more v
    | inr none_left ↦ rw none_left v
  ]

  after_scan-PollReturns :
      (q : FindContentQuery Node Key) (now : ℕ) (o : Option (Scan Node Key))
      → let busy = at_capacity q.config q.progress q.num_waiting in
        IsSome ks q.config now busy o
        → Outcome ks q.config now busy q.num_waiting (some 0) q.closest_peers o
        → IsValid q
        → Fits q.closest_peers
        → PollReturns (after_scan q o)
  after_scan-PollReturns q now none calm r v fits = calm
  after_scan-PollReturns q now (some s) calm r v fits =
      conclude-IsValid (record q { closest_peers = s.peers; num_waiting = s.num_waiting }) s.exit
        (Scanned-Consistent ks now q.progress r v fits)

  pub poll-PollReturns :
      (q : FindContentQuery Node Key) (now : ℕ)
      → IsValid q
      → Fits q.closest_peers
      → PollReturns (poll ks q now)
  poll-PollReturns q now v fits =
      poll_cases ks PollReturns q now (λ over. v) (λ c live found. v)
        (λ live empty.
          after_scan-PollReturns q now _ (scan-Consistent ks now _ (some 0) v fits)
            (scan-Outcome ks q.config now _ q.num_waiting (some 0) q.closest_peers) v fits)
