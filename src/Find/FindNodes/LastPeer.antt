-- ===== src/Find/FindNodes/LastPeer.antt =====
-- The progress that `on_success` of a FindNodeQuery notes. Its documentation says that the query
-- makes progress when the response holds a peer nearer than any seen so far.
use trin.Prelude.{
  ℕ, ◌<◌, ◌≤◌, ◌≡◌, ap, false, some, List, [], ◌∷◌, ◌++◌, arith, length, Bool-cases, inl, inr, ◌==◌,
}
use trin.Prelude.Words.{usize_sub}
use trin.BTreeMap.{get, set}
use trin.BTreeMap.Order.{IsSorted, set-From}
use trin.BTreeMap.Lookup.{get-set}
use trin.Find.KeySpace.{KeySpace}
use trin.Find.Query.{QueryPeer, waiting, is_finished}
use trin.Find.ClosestPeers.{update_progress}
use trin.Find.ClosestPeers.Size.{length-set}
use trin.Find.ClosestPeers.LastPeer.{incorporate_last}
use trin.Find.ClosestPeers.Consistent.{waiting_counted}
use trin.Find.FindNodes.{FindNodeQuery, answered, respond, on_success}
use trin.Find.FindNodes.Valid.{IsValid}

module _ {Node Key : Type 0} (ks : KeySpace Node Key) where
  respond_last :
      (q : FindNodeQuery Key) (e : ℕ) (p : QueryPeer Key) (others : List Node) (n : Node)
      → IsSorted q.closest_peers
      → get e q.closest_peers ≡ some p
      → e < ks.distance q.target_key (ks.into_key n)
      → q.config.num_results ≤ length q.closest_peers
      → (respond ks q (others ++ n ∷ [])).progress ≡ update_progress q.config false q.progress
  unfolding respond
  respond_last q e p others n s h lt enough =
      ap (λ b. update_progress q.config b q.progress)
        (incorporate_last ks q.config q.target_key (length q.closest_peers) e p others n false
          q.closest_peers s h lt enough)

  -- The last peer of a response alone decides: in a valid query that is not finished and knows
  -- `num_results` peers, a response from a peer that is waited for, whose last peer is farther
  -- than some known peer, counts as no progress, whatever its other peers are.
  pub on_success_last :
      (q : FindNodeQuery Key) (peer : Node) (others : List Node) (n : Node) (a : QueryPeer Key)
      (t e : ℕ) (p : QueryPeer Key)
      → IsValid ks q
      → is_finished q.progress ≡ false
      → get (ks.distance (ks.into_key peer) q.target_key) q.closest_peers ≡ some a
      → a.state ≡ waiting t
      → get e q.closest_peers ≡ some p
      → e < ks.distance q.target_key (ks.into_key n)
      → q.config.num_results ≤ length q.closest_peers
      → (q' : FindNodeQuery Key) × (on_success ks q peer (others ++ n ∷ []) ≡ some q')
        × (q'.progress ≡ update_progress q.config false q.progress)
  unfolding on_success
  on_success_last q peer others n a t e p v live h w g lt enough = (
    respond ks after response,
    rw (live, on_success) (rw (h, on_success) (ground (arith, waiting_counted ks d a t v h w))),
    elim (Bool-cases (d == e)) [
      | inl same ↦
          respond_last after e a' others n sorted
            (ground (arith, get-set d e a' a q.closest_peers h)) lt known
      | inr other ↦
          respond_last after e p others n sorted
            (ground (arith, get-set d e a' a q.closest_peers h)) lt known
    ],
  )
    where
      response : List Node
      response = others ++ n ∷ []

      d : ℕ
      d = ks.distance (ks.into_key peer) q.target_key

      a' : QueryPeer Key
      a' = answered (length response) a

      after : FindNodeQuery Key
      after = record q {
        num_waiting = usize_sub q.num_waiting 1;
        closest_peers = set d a' q.closest_peers;
      }

      sorted : IsSorted after.closest_peers
      sorted = set-From 0 d a' q.closest_peers v.sorted

      known : q.config.num_results ≤ length after.closest_peers
      known = omega (arith, length-set d a' q.closest_peers)
