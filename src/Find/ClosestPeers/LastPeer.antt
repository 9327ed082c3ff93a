-- ===== src/Find/ClosestPeers/LastPeer.antt =====
-- The loop of `on_success` overwrites its flag at every peer, so that the last peer decides.
use trin.Prelude.{ℕ, ◌<◌, ◌≤◌, ◌≡◌, Bool, false, some, List, [], ◌∷◌, ◌++◌, arith}
use trin.BTreeMap.{get, first_key, or_insert}
use trin.BTreeMap.Order.{From, IsSorted, or_insert-From}
use trin.BTreeMap.Lookup.{get_above, get-or_insert_kept}
use trin.Find.KeySpace.{KeySpace}
use trin.Find.Query.{QueryConfig, QueryPeer, new_peer, not_contacted}
use trin.Find.ClosestPeers.{Peers, is_first, incorporate}

not_first :
    {Key : Type 0} (b d e : ℕ) (p : QueryPeer Key) (m : Peers Key)
    → From b m
    → get e m ≡ some p
    → e < d
    → is_first d (first_key m) ≡ false
unfolding get first_key
not_first b d e p [] s h lt = cc
not_first b d e p ((f, q) ∷ m) s h lt =
    ground (arith, get_above f e p ((f, q) ∷ m) (omega arith, s.1) h)

module _ {Node Key : Type 0} (ks : KeySpace Node Key) where
  -- Where as many peers are known as results are wanted, the last reported peer alone decides: if
  -- some known peer is nearer than that one, no progress is noted.
  pub incorporate_last :
      (c : QueryConfig) (target : Key) (k e : ℕ) (p : QueryPeer Key) (others : List Node) (n : Node)
      (b : Bool) (m : Peers Key)
      → IsSorted m
      → get e m ≡ some p
      → e < ks.distance target (ks.into_key n)
      → c.num_results ≤ k
      → (incorporate ks c target k (others ++ n ∷ []) b m).0 ≡ false
  unfolding incorporate
  incorporate_last c target k e p [] n b m s h lt enough =
      let d = ks.distance target (ks.into_key n) in
      let x = new_peer (ks.into_key n) not_contacted in
      let later =
        not_first 0 d e p (or_insert d x m) (or_insert-From 0 d x m (omega arith) s)
          (get-or_insert_kept 0 d e p x m h s) lt in
      rw later (ground arith)
  incorporate_last c target k e p (x ∷ others) n b m s h lt enough =
      let d = ks.distance target (ks.into_key x) in
      let x' = new_peer (ks.into_key x) not_contacted in
      incorporate_last c target k e p others n _ (or_insert d x' m)
        (or_insert-From 0 d x' m (omega arith) s) (get-or_insert_kept 0 d e p x' m h s) lt enough
