-- ===== src/Find/ClosestPeers/Layout.antt =====
-- The peers stay sorted by their distance to the target, each under its own distance.
use trin.Prelude.{
  ℕ, zero, suc, ◌≤◌, ◌<◌, ◌≡◌, refl, Bool, false, Option, some, List, [], ◌∷◌, arith, take,
}
use trin.Prelude.Words.{usize_mod}
use trin.BTreeMap.{get, set, or_insert, insert, collect}
use trin.BTreeMap.Order.{From, IsSorted, or_insert-From, collect-IsSorted}
use trin.Find.KeySpace.{KeySpace, IsKeySpace}
use trin.Find.Query.{QueryConfig, QueryPeer, new_peer, not_contacted}
use trin.Find.ClosestPeers.{
  Peers, Exit, stop, next, visit, incorporate, initial_peers, initial_entries,
}
use trin.Find.ClosestPeers.Scanned.{Scanned, ends, leaves, goes_on}

module _ {Node Key : Type 0} (ks : KeySpace Node Key) where
  -- Each peer stands under the distance of its key to the target.
  abbrev pub Placed : Key → Peers Key → Type 0
  Placed target [] = Unit
  Placed target ((d, p) ∷ m) = (d ≡ ks.distance p.key target) × Placed target m

  pub set-Placed :
      (target : Key) (d : ℕ) (p p' : QueryPeer Key) (m : Peers Key)
      → get d m ≡ some p
      → p'.key ≡ p.key
      → Placed target m
      → Placed target (set d p' m)
  unfolding get set
  set-Placed target d p p' [] h e l = tt
  set-Placed target d p p' ((e', q) ∷ m) h e l = ground (arith, set-Placed target d p p' m)

  or_insert-Placed :
      (target : Key) (d : ℕ) (p : QueryPeer Key) (m : Peers Key)
      → d ≡ ks.distance p.key target
      → Placed target m
      → Placed target (or_insert d p m)
  unfolding or_insert
  or_insert-Placed target d p [] h l = (h, tt)
  or_insert-Placed target d p ((e, q) ∷ m) h l = ground (arith, or_insert-Placed target d p m)

  insert-Placed :
      (target : Key) (d : ℕ) (p : QueryPeer Key) (m : Peers Key)
      → d ≡ ks.distance p.key target
      → Placed target m
      → Placed target (insert d p m)
  unfolding insert
  insert-Placed target d p [] h l = (h, tt)
  insert-Placed target d p ((e, q) ∷ m) h l = ground (arith, insert-Placed target d p m)

  collect-Placed :
      (target : Key) (n : ℕ) (known : List Key) (m : Peers Key)
      → Placed target m
      → Placed target (collect m (take n (initial_entries ks target known)))
  unfolding collect initial_entries
  collect-Placed target zero known m l = l
  collect-Placed target (suc n) [] m l = l
  collect-Placed target (suc n) (k ∷ known) m l =
      collect-Placed target n known (insert (ks.distance k target) (new_peer k not_contacted) m)
        (insert-Placed target (ks.distance k target) (new_peer k not_contacted) m refl l)

  pub initial_peers-Placed :
      (c : QueryConfig) (target : Key) (known : List Key)
      → Placed target (initial_peers ks c target known)
  unfolding initial_peers
  initial_peers-Placed c target known = collect-Placed target c.num_results known [] tt

  pub initial_peers-IsSorted :
      (c : QueryConfig) (target : Key) (known : List Key)
      → IsSorted (initial_peers ks c target known)
  unfolding initial_peers
  initial_peers-IsSorted c target known = collect-IsSorted [] _ tt

  pub incorporate-IsSorted :
      (c : QueryConfig) (target : Key) (n : ℕ) (response : List Node) (b : Bool) (m : Peers Key)
      → IsSorted m
      → IsSorted (incorporate ks c target n response b m).1
  unfolding incorporate
  incorporate-IsSorted c target n [] b m s = s
  incorporate-IsSorted c target n (x ∷ rest) b m s =
      incorporate-IsSorted c target n rest _ _
        (or_insert-From 0 (ks.distance target (ks.into_key x)) _ m (omega arith) s)

  module _ (laws : IsKeySpace ks) where
    pub incorporate-Placed :
        (c : QueryConfig) (target : Key) (n : ℕ) (response : List Node) (b : Bool) (m : Peers Key)
        → Placed target m
        → Placed target (incorporate ks c target n response b m).1
    unfolding incorporate
    incorporate-Placed c target n [] b m l = l
    incorporate-Placed c target n (x ∷ rest) b m l = incorporate-Placed c target n rest _ _ (
        or_insert-Placed target (ks.distance target (ks.into_key x)) _ m
          (laws.distance_comm target (ks.into_key x)) l)

module _ {Node Key : Type 0} (ks : KeySpace Node Key) (c : QueryConfig) (now : ℕ)
    (busy : Bool) where
  leaves_key :
      (w : ℕ) (r : Option ℕ) (p : QueryPeer Key) {e : Exit Node} {w' : ℕ} {p' : QueryPeer Key}
      → visit ks c now busy w r p ≡ stop e w' p'
      → p'.key ≡ p.key
  unfolding visit
  leaves_key w r p v = ground arith

  goes_on_key :
      (w : ℕ) (r : Option ℕ) (p : QueryPeer Key) {w' : ℕ} {r' : Option ℕ} {p' : QueryPeer Key}
      → visit ks c now busy w r p ≡ next w' r' p'
      → p'.key ≡ p.key
  unfolding visit
  goes_on_key w r p v = ground arith

  pub Scanned-From :
      (b : ℕ) {w : ℕ} {r : Option ℕ} {m m' : Peers Key} {e : Exit Node} {w' : ℕ}
      → Scanned ks c now busy w r m e w' m'
      → From b m
      → From b m'
  Scanned-From b (ends _ _) s = s
  Scanned-From b (leaves _ _ d p m e w' p' v) s = s
  Scanned-From b (goes_on _ _ d p m w1 r1 p' e w' m' v t) s = (s.0, Scanned-From (suc d) t s.1)

  pub Scanned-Placed :
      (target : Key) {w : ℕ} {r : Option ℕ} {m m' : Peers Key} {e : Exit Node} {w' : ℕ}
      → Scanned ks c now busy w r m e w' m'
      → Placed ks target m
      → Placed ks target m'
  Scanned-Placed target (ends _ _) l = l
  Scanned-Placed target {w} {r} (leaves _ _ d p m e w' p' v) l = (cc (leaves_key w r p v), l.1)
  Scanned-Placed target {w} {r} (goes_on _ _ d p m w1 r1 p' e w' m' v t) l =
      (cc (goes_on_key w r p v), Scanned-Placed target t l.1)

  turn_falls :
      (w : ℕ) (r : Option ℕ) (p : QueryPeer Key) {w' : ℕ} {r' : Option ℕ} {p' : QueryPeer Key}
      → visit ks c now busy w r p ≡ next w' r' p'
      → w < usize_mod
      → w' ≤ w
  unfolding visit
  turn_falls w r p v fits = ground arith

  -- A new request is made only below the capacity, so that the count stays within a limit.
  pub Scanned-within :
      (limit : ℕ) {w : ℕ} {r : Option ℕ} {m m' : Peers Key} {e : Exit Node} {w' : ℕ}
      → Scanned ks c now busy w r m e w' m'
      → w < usize_mod
      → w ≤ limit
      → (busy ≡ false → w < limit)
      → w' ≤ limit
  unfolding visit
  Scanned-within limit (ends _ _) fits h room = h
  Scanned-within limit {w} {r} (leaves _ _ d p m e w' p' v) fits h room = ground arith
  Scanned-within limit {w} {r} (goes_on _ _ d p m w1 r1 p' e w' m' v t) fits h room =
      let less : w1 ≤ w = turn_falls w r p v fits in
      Scanned-within limit t (omega arith) (omega arith) (λ free. omega (arith, room free))
