-- ===== src/Find/ClosestPeers/Waiting.antt =====
-- How many peers a query waits for: the count that `num_waiting` caches.
use trin.Prelude.{
  ℕ, zero, suc, take, ◌+◌, ◌≤◌, ◌<◌, ◌≡◌, ◌≢◌, refl, Bool, Option, none, some, List, [], ◌∷◌, arith,
  length,
}
use trin.Prelude.Words.{usize_mod}
use trin.BTreeMap.{get, set, or_insert, insert, collect}
use trin.Find.KeySpace.{KeySpace}
use trin.Find.Query.{
  QueryConfig, QueryPeerState, not_contacted, waiting, unresponsive, failed, succeeded, QueryPeer,
  new_peer,
}
use trin.Find.ClosestPeers.{
  Peers, Exit, Turn, stop, panic, next, Scan, visit, put_back, scan, incorporate, initial_peers,
  initial_entries,
}
use trin.Find.ClosestPeers.Scanned.{Scanned, ends, leaves, goes_on}

abbrev pub waits : QueryPeerState → ℕ
waits (waiting t) = 1
waits not_contacted = 0
waits unresponsive = 0
waits failed = 0
waits succeeded = 0

abbrev pub count_waiting : {Key : Type 0} → Peers Key → ℕ
count_waiting [] = 0
count_waiting ((d, p) ∷ m) = waits p.state + count_waiting m

module _ {Key : Type 0} where
  pub count_waiting-or_insert :
      (d : ℕ) (k : Key) (m : Peers Key)
      → count_waiting (or_insert d (new_peer k not_contacted) m) ≡ count_waiting m
  unfolding or_insert
  count_waiting-or_insert d k [] = refl
  count_waiting-or_insert d k ((e, p) ∷ m) = ground (arith, count_waiting-or_insert d k m)

  pub count_waiting-set :
      (d : ℕ) (p p' : QueryPeer Key) (m : Peers Key)
      → get d m ≡ some p
      → count_waiting (set d p' m) + waits p.state ≡ count_waiting m + waits p'.state
  unfolding get set
  count_waiting-set d p p' [] h = cc
  count_waiting-set d p p' ((e, q) ∷ m) h = ground (arith, count_waiting-set d p p' m)

  pub count_waiting-le : (m : Peers Key) → count_waiting m ≤ length m
  count_waiting-le [] = omega arith
  count_waiting-le ((d, p) ∷ m) = ground (arith, count_waiting-le m)

  pub waits-le-count_waiting :
      (d : ℕ) (p : QueryPeer Key) (m : Peers Key)
      → get d m ≡ some p
      → waits p.state ≤ count_waiting m
  unfolding get
  waits-le-count_waiting d p [] h = cc
  waits-le-count_waiting d p ((e, q) ∷ m) h = ground (arith, waits-le-count_waiting d p m)

module _ {Node Key : Type 0} (ks : KeySpace Node Key) where
  count_waiting-insert :
      (d : ℕ) (k : Key) (m : Peers Key)
      → count_waiting (insert d (new_peer k not_contacted) m) ≤ count_waiting m
  unfolding insert
  count_waiting-insert d k [] = omega arith
  count_waiting-insert d k ((e, p) ∷ m) = ground (arith, count_waiting-insert d k m)

  count_waiting-collect :
      (target : Key) (n : ℕ) (known : List Key) (m : Peers Key)
      → count_waiting (collect m (take n (initial_entries ks target known))) ≤ count_waiting m
  unfolding collect initial_entries
  count_waiting-collect target zero known m = omega arith
  count_waiting-collect target (suc n) [] m = omega arith
  count_waiting-collect target (suc n) (k ∷ known) m = omega (
    arith,
    count_waiting-insert (ks.distance k target) k m,
    count_waiting-collect target n known
        (insert (ks.distance k target) (new_peer k not_contacted) m),
  )

  pub count_waiting-initial_peers :
      (c : QueryConfig) (target : Key) (known : List Key)
      → count_waiting (initial_peers ks c target known) ≡ 0
  unfolding initial_peers
  count_waiting-initial_peers c target known =
      omega (arith, count_waiting-collect target c.num_results known [])

  pub count_waiting-incorporate :
      (c : QueryConfig) (target : Key) (n : ℕ) (response : List Node) (b : Bool) (m : Peers Key)
      → count_waiting (incorporate ks c target n response b m).1 ≡ count_waiting m
  unfolding incorporate
  count_waiting-incorporate c target n [] b m = refl
  count_waiting-incorporate c target n (x ∷ rest) b m = omega (
    arith,
    count_waiting-incorporate c target n rest _ _,
    count_waiting-or_insert (ks.distance target (ks.into_key x)) (ks.into_key x) m,
  )

module _ {Node Key : Type 0} (ks : KeySpace Node Key) (c : QueryConfig) (now : ℕ)
    (busy : Bool) where
  -- A turn that goes on keeps the difference of the count and the peer's share.
  next_turn :
      (w : ℕ) (r : Option ℕ) (p : QueryPeer Key) {w' : ℕ} {r' : Option ℕ} {p' : QueryPeer Key}
      → visit ks c now busy w r p ≡ next w' r' p'
      → w < usize_mod
      → (w' + waits p.state ≡ w + waits p'.state) × (waits p'.state ≤ waits p.state)
  unfolding visit
  next_turn w r p v fits = ground arith

  -- The count stays in step with the peers, where `k` are counted elsewhere.
  pub counted :
      (k w : ℕ) {r : Option ℕ} {m m' : Peers Key} {e : Exit Node} {w' : ℕ}
      → Scanned ks c now busy w r m e w' m'
      → w ≡ k + count_waiting m
      → k + length m < usize_mod
      → w' ≡ k + count_waiting m'
  unfolding visit
  counted k w (ends _ _) h fits = h
  counted k w {r} (leaves _ _ d p m e w' p' v) h fits = ground (arith, count_waiting-le m)
  counted k w {r} (goes_on _ _ d p m w1 r1 p' e w' m' v s) h fits =
      let few = count_waiting-le m in
      let turn = next_turn w r p v (ground (arith, few)) in
      let one : waits p.state ≤ 1 = ground arith in
      omega (arith, counted (k + waits p'.state) w1 s (omega arith) (omega arith))

  abbrev pub IsSome : Option (Scan Node Key) → Type 0
  IsSome none = ⊥
  IsSome (some s) = Unit

  after_turn-IsSome :
      (d : ℕ) (m : Peers Key) (t : Turn Node Key)
      → t ≢ panic
      → ((w' : ℕ) (r' : Option ℕ) (p' : QueryPeer Key)
          → t ≡ next w' r' p'
          → IsSome (scan ks c now busy w' r' m))
      → IsSome (elim t [
        | stop e w' p' ↦ some (record { exit = e; num_waiting = w'; peers = (d, p') ∷ m })
        | panic ↦ none
        | next w' r' p' ↦ put_back ks d p' (scan ks c now busy w' r' m)
      ])
  after_turn-IsSome d m (stop e w' p') calm ih = tt
  after_turn-IsSome d m panic calm ih = absurd (calm refl)
  after_turn-IsSome d m (next w' r' p') calm ih =
      put_back-IsSome (scan ks c now busy w' r' m) (ih w' r' p' refl)
    where
      put_back-IsSome : (o : Option (Scan Node Key)) → IsSome o → IsSome (put_back ks d p' o)
      put_back-IsSome none h = h
      put_back-IsSome (some s) h = tt

  calm_turn :
      (w : ℕ) (r : Option ℕ) (p : QueryPeer Key)
      → waits p.state ≤ w
      → visit ks c now busy w r p ≢ panic
  unfolding visit
  calm_turn w r p h = ground arith

  -- Where `num_waiting` counts the waiting peers, the assertion in the loop holds.
  pub scan-IsSome :
      (k w : ℕ) (r : Option ℕ) (m : Peers Key)
      → w ≡ k + count_waiting m
      → k + length m < usize_mod
      → IsSome (scan ks c now busy w r m)
  unfolding scan
  scan-IsSome k w r [] h fits = tt
  scan-IsSome k w r ((d, p) ∷ m) h fits =
      let few = count_waiting-le m in
      let one : waits p.state ≤ 1 = ground arith in
      after_turn-IsSome d m (visit ks c now busy w r p) (calm_turn w r p (omega arith))
        λ w' r' p' v.
          let turn = next_turn w r p v (omega arith) in
          scan-IsSome (k + waits p'.state) w' r' m (omega arith) (omega arith)
