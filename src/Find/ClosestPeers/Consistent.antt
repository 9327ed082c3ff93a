-- ===== src/Find/ClosestPeers/Consistent.antt =====
-- The invariant that both kinds of query keep, and the three ways in which they change their peers:
-- a peer settles, a response comes in, and the loop of `poll` runs.
use Prim.Native.Nat.{max}
use trin.Prelude.{ℕ, ◌+◌, ◌≤◌, ◌<◌, ◌≡◌, sym, ap, Bool, false, Option, some, List, arith, length}
use trin.Prelude.Words.{usize_mod, usize_sub}
use trin.BTreeMap.{get, set}
use trin.BTreeMap.Order.{IsSorted, set-From}
use trin.Find.KeySpace.{KeySpace, IsKeySpace}
use trin.Find.Query.{
  QueryConfig, QueryProgress, iterating, stalled, finished, QueryPeer, waiting, unresponsive,
}
use trin.Find.ClosestPeers.{Peers, Exit, at_capacity, scan, incorporate, initial_peers}
use trin.Find.ClosestPeers.Scanned.{Scanned}
use trin.Find.ClosestPeers.Waiting.{
  waits, count_waiting, count_waiting-le, count_waiting-set, waits-le-count_waiting,
  count_waiting-incorporate, counted, count_waiting-initial_peers, IsSome, scan-IsSome,
}
use trin.Find.ClosestPeers.Layout.{
  Placed, set-Placed, incorporate-IsSorted, incorporate-Placed, initial_peers-IsSorted,
  initial_peers-Placed, Scanned-From, Scanned-Placed, Scanned-within,
}

-- The limit on the requests in flight: the larger of the two capacities.
abbrev pub limit : QueryConfig → ℕ
limit c = max c.parallelism c.num_results

-- A map has fewer entries than a `usize` counts.
abbrev pub Fits : {Key : Type 0} → Peers Key → Type 0
Fits m = length m < usize_mod

-- Below its capacity a query stays below the limit.
free_within :
    (c : QueryConfig) (progress : QueryProgress) (w : ℕ)
    → at_capacity c progress w ≡ false
    → w < limit c
unfolding at_capacity
free_within c (iterating n) w h = ground arith
free_within c stalled w h = ground arith
free_within c finished w h = cc

module _ {Node Key : Type 0} (ks : KeySpace Node Key) where
  -- `num_waiting` counts the peers that are waited for, the peers stand in the order of their
  -- distance to the target, and no more are waited for than the larger capacity.
  pub record Consistent (c : QueryConfig) (target : Key) (w : ℕ) (m : Peers Key) : Type 0 where
    pub counts : w ≡ count_waiting m
    pub sorted : IsSorted m
    pub placed : Placed ks target m
    pub within : w ≤ limit c

  module _ {c : QueryConfig} {target : Key} {w : ℕ} {m : Peers Key} where
    -- A write of `p'`, which is not waited for, over `p`.
    settle :
        (d : ℕ) (p p' : QueryPeer Key) (w' : ℕ)
        → Consistent c target w m
        → get d m ≡ some p
        → p'.key ≡ p.key
        → w' + waits p.state ≡ w
        → waits p'.state ≡ 0
        → Consistent c target w' (set d p' m)
    settle d p p' w' v h k e z = record {
      counts = omega (arith, count_waiting-set d p p' m h, v.counts);
      sorted = set-From 0 d p' m v.sorted;
      placed = set-Placed ks target d p p' m h k v.placed;
      within = omega (arith, v.within);
    }

    -- A peer that is waited for is counted.
    pub waiting_counted :
        (d : ℕ) (p : QueryPeer Key) (t : ℕ)
        → Consistent c target w m
        → get d m ≡ some p
        → p.state ≡ waiting t
        → 1 ≤ w
    waiting_counted d p t v h e = ground (arith, v.counts, waits-le-count_waiting d p m h)

    pub settle_waiting :
        (d : ℕ) (p p' : QueryPeer Key) (t : ℕ)
        → Consistent c target w m
        → Fits m
        → get d m ≡ some p
        → p.state ≡ waiting t
        → p'.key ≡ p.key
        → waits p'.state ≡ 0
        → Consistent c target (usize_sub w 1) (set d p' m)
    settle_waiting d p p' t v fits h e k z =
        let one : waits p.state ≡ 1 = ap waits e in
        settle d p p' (usize_sub w 1) v h k
          (omega (arith, waiting_counted d p t v h e, v.counts, count_waiting-le m)) z

    pub settle_unresponsive :
        (d : ℕ) (p p' : QueryPeer Key)
        → Consistent c target w m
        → get d m ≡ some p
        → p.state ≡ unresponsive
        → p'.key ≡ p.key
        → waits p'.state ≡ 0
        → Consistent c target w (set d p' m)
    settle_unresponsive d p p' v h e k z =
        let nought : waits p.state ≡ 0 = ap waits e in settle d p p' w v h k (omega arith) z

    pub respond-Consistent :
        (laws : IsKeySpace ks) (n : ℕ) (response : List Node) (b : Bool)
        → Consistent c target w m
        → Consistent c target w (incorporate ks c target n response b m).1
    respond-Consistent laws n response b v = record {
      counts = omega (arith, v.counts, count_waiting-incorporate ks c target n response b m);
      sorted = incorporate-IsSorted ks c target n response b m v.sorted;
      placed = incorporate-Placed ks laws c target n response b m v.placed;
      within = v.within;
    }

    pub Scanned-Consistent :
        (now : ℕ) (progress : QueryProgress) {r : Option ℕ} {e : Exit Node} {w' : ℕ}
        {m' : Peers Key}
        → Scanned ks c now (at_capacity c progress w) w r m e w' m'
        → Consistent c target w m
        → Fits m
        → Consistent c target w' m'
    Scanned-Consistent now progress s v fits =
        let busy : Bool = at_capacity c progress w in
        let few = count_waiting-le m in
        record {
          counts =
              omega (arith, counted ks c now busy 0 w s (omega (arith, v.counts)) (omega arith));
          sorted = Scanned-From ks c now busy 0 s v.sorted;
          placed = Scanned-Placed ks c now busy target s v.placed;
          within =
              Scanned-within ks c now busy (limit c) s (omega (arith, v.counts, few)) v.within
                (free_within c progress w);
        }

    -- The loop does not panic.
    pub scan-Consistent :
        (now : ℕ) (busy : Bool) (r : Option ℕ)
        → Consistent c target w m
        → Fits m
        → IsSome ks c now busy (scan ks c now busy w r m)
    scan-Consistent now busy r v fits =
        scan-IsSome ks c now busy 0 w r m (omega (arith, v.counts)) (omega arith)

  pub initial_peers-Consistent :
      (c : QueryConfig) (target : Key) (known : List Key)
      → Consistent c target 0 (initial_peers ks c target known)
  initial_peers-Consistent c target known = record {
    counts = sym (count_waiting-initial_peers ks c target known);
    sorted = initial_peers-IsSorted ks c target known;
    placed = initial_peers-Placed ks c target known;
    within = omega arith;
  }
