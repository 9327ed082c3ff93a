-- ===== src/Find/FindContent/Cases.antt =====
-- One rule for each operation of a FindContentQuery: what has to be shown of its branches.
use trin.Prelude.{ℕ, ◌≡◌, refl, Bool, true, false, Option, none, some, if◌then◌else◌}
use trin.BTreeMap.{get}
use trin.Find.KeySpace.{KeySpace}
use trin.Find.Query.{finished, is_finished, QueryPeer, QueryState, done}
use trin.Find.ClosestPeers.{scan, at_capacity}
use trin.Find.FindContent.{
  FindContentQuery, FindContentQueryResponse, ContentAndPeer, poll_peers, fail_entry, on_failure,
  succeed_entry, on_success, after_scan, poll,
}

module _ {Node Key : Type 0} (ks : KeySpace Node Key) where
  pub on_failure_cases {ℓ} :
      (P : Option (FindContentQuery Node Key) → Type ℓ) (q : FindContentQuery Node Key)
      (peer : Node)
      → P (some q)
      → ((d : ℕ) (p : QueryPeer Key)
          → get d q.closest_peers ≡ some p
          → P (fail_entry q d p p.state))
      → P (on_failure ks q peer)
  unfolding on_failure
  on_failure_cases P q peer same entry =
      go (is_finished q.progress) (get d q.closest_peers) (entry d)
    where
      d : ℕ
      d = ks.distance (ks.into_key peer) q.target_key

      go :
          (b : Bool) (o : Option (QueryPeer Key))
          → ((p : QueryPeer Key) → o ≡ some p → P (fail_entry q d p p.state))
          → P (if b then some q else elim o [ none ↦ some q | some p ↦ fail_entry q d p p.state ])
      go true o h = same
      go false none h = same
      go false (some p) h = h p refl

  pub on_success_cases {ℓ} :
      (P : Option (FindContentQuery Node Key) → Type ℓ) (q : FindContentQuery Node Key)
      (peer : Node) (response : FindContentQueryResponse Node)
      → P (some q)
      → ((d : ℕ) (p : QueryPeer Key)
          → get d q.closest_peers ≡ some p
          → P (succeed_entry ks q d peer response p p.state))
      → P (on_success ks q peer response)
  unfolding on_success
  on_success_cases P q peer response same entry =
      go (is_finished q.progress) (get d q.closest_peers) (entry d)
    where
      d : ℕ
      d = ks.distance (ks.into_key peer) q.target_key

      go :
          (b : Bool) (o : Option (QueryPeer Key))
          → ((p : QueryPeer Key) → o ≡ some p → P (succeed_entry ks q d peer response p p.state))
          → P (
              if b
              then some q
              else elim o [ none ↦ some q | some p ↦ succeed_entry ks q d peer response p p.state ])
      go true o h = same
      go false none h = same
      go false (some p) h = h p refl

  -- `poll` of a live query without content, which runs the loop.
  abbrev pub Loop {ℓ} :
      (Option (QueryState Node × FindContentQuery Node Key) → Type ℓ)
      → FindContentQuery Node Key
      → ℕ
      → Type ℓ
  Loop P q now = P (
      after_scan q (
        scan ks q.config now (at_capacity q.config q.progress q.num_waiting) q.num_waiting (some 0)
          q.closest_peers))

  pub poll_cases {ℓ} :
      (P : Option (QueryState Node × FindContentQuery Node Key) → Type ℓ)
      (q : FindContentQuery Node Key) (now : ℕ)
      → (is_finished q.progress ≡ true → P (some (done, q)))
      → ((c : ContentAndPeer Node)
          → is_finished q.progress ≡ false
          → q.content ≡ some c
          → P (some (done, record q { progress = finished })))
      → (is_finished q.progress ≡ false → q.content ≡ none → Loop P q now)
      → P (poll ks q now)
  unfolding poll
  poll_cases P q now over found live = go (is_finished q.progress) q.content over found live
    where
      go :
          (b : Bool) (o : Option (ContentAndPeer Node))
          → (b ≡ true → P (some (done, q)))
          → ((c : ContentAndPeer Node)
              → b ≡ false
              → o ≡ some c
              → P (some (done, record q { progress = finished })))
          → (b ≡ false → o ≡ none → Loop P q now)
          → P (if b then some (done, q) else poll_peers ks q now o)
      go true o f g h = f refl
      go false none f g h = h refl refl
      go false (some c) f g h = g c refl refl
