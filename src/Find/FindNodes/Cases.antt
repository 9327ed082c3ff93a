-- ===== src/Find/FindNodes/Cases.antt =====
-- One rule for each operation of a FindNodeQuery: what has to be shown of its branches.
use trin.Prelude.{ℕ, ◌≡◌, refl, Bool, true, false, Option, none, some, List, if◌then◌else◌}
use trin.BTreeMap.{get}
use trin.Find.KeySpace.{KeySpace}
use trin.Find.Query.{is_finished, QueryPeer, QueryState, done}
use trin.Find.ClosestPeers.{scan, at_capacity}
use trin.Find.FindNodes.{
  FindNodeQuery, fail_entry, on_failure, succeed_entry, on_success, after_scan, poll,
}

module _ {Node Key : Type 0} (ks : KeySpace Node Key) where
  pub on_failure_cases {ℓ} :
      (P : FindNodeQuery Key → Type ℓ) (q : FindNodeQuery Key) (peer : Node)
      → P q
      → ((d : ℕ) (p : QueryPeer Key)
          → get d q.closest_peers ≡ some p
          → P (fail_entry q d p p.state))
      → P (on_failure ks q peer)
  unfolding on_failure
  on_failure_cases P q peer same entry =
      go (is_finished q.progress) (get d q.closest_peers) (entry d)
    where
      d : ℕ
      d = ks.distance (ks.into_key peer) q.target_key

      go :
          (b : Bool) (o : Option (QueryPeer Key))
          → ((p : QueryPeer Key) → o ≡ some p → P (fail_entry q d p p.state))
          → P (if b then q else elim o [ none ↦ q | some p ↦ fail_entry q d p p.state ])
      go true o h = same
      go false none h = same
      go false (some p) h = h p refl

  pub on_success_cases {ℓ} :
      (P : Option (FindNodeQuery Key) → Type ℓ) (q : FindNodeQuery Key) (peer : Node)
      (response : List Node)
      → P (some q)
      → ((d : ℕ) (p : QueryPeer Key)
          → get d q.closest_peers ≡ some p
          → P (succeed_entry ks q d response p p.state))
      → P (on_success ks q peer response)
  unfolding on_success
  on_success_cases P q peer response same entry =
      go (is_finished q.progress) (get d q.closest_peers) (entry d)
    where
      d : ℕ
      d = ks.distance (ks.into_key peer) q.target_key

      go :
          (b : Bool) (o : Option (QueryPeer Key))
          → ((p : QueryPeer Key) → o ≡ some p → P (succeed_entry ks q d response p p.state))
          → P (
              if b
              then some q
              else elim o [ none ↦ some q | some p ↦ succeed_entry ks q d response p p.state ])
      go true o h = same
      go false none h = same
      go false (some p) h = h p refl

  pub poll_cases {ℓ} :
      (P : Option (QueryState Node × FindNodeQuery Key) → Type ℓ) (q : FindNodeQuery Key) (now : ℕ)
      → (is_finished q.progress ≡ true → P (some (done, q)))
      → (is_finished q.progress ≡ false
          → P (
              after_scan q (
                scan ks q.config now
                  (at_capacity q.config q.progress q.num_waiting)
                  q.num_waiting
                  (some 0)
                  q.closest_peers)))
      → P (poll ks q now)
  unfolding poll
  poll_cases P q now over live = go (is_finished q.progress) over live
    where
      go :
          (b : Bool)
          → (b ≡ true → P (some (done, q)))
          → (b ≡ false
              → P (
                  after_scan q (
                    scan ks q.config now
                      (at_capacity q.config q.progress q.num_waiting)
                      q.num_waiting
                      (some 0)
                      q.closest_peers)))
          → P (
              if b
              then some (done, q)
              else after_scan q (
                  scan ks q.config now
                    (at_capacity q.config q.progress q.num_waiting)
                    q.num_waiting
                    (some 0)
                    q.closest_peers))
      go true f g = f refl
      go false f g = g refl
