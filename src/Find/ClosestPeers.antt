-- ===== src/Find/ClosestPeers.antt =====
-- The parts that FindNodeQuery and FindContentQuery (portalnet/src/find/iterators/findnodes.rs and
-- findcontent.rs) have in common, word for word: the closest peers by distance, the capacity, the
-- progress and the loop of `poll`. Each function maps to its text in findnodes.rs.
pub mod Scanned
pub mod Waiting
pub mod Layout
pub mod Evolution
pub mod Consistent
pub mod Size
pub mod LastPeer
pub mod Exits
pub mod Completion
pub mod Chosen
use trin.Prelude.{
  ℕ, ◌+◌, ◌<◌, Bool, true, false, ◌||◌, Option, none, some, List, [], ◌∷◌, ltb, leb, ◌==◌, take,
  if◌then◌else◌,
}
use trin.Prelude.Words.{usize_add, usize_sub}
use trin.BTreeMap.{BTreeMap, or_insert, first_key, collect}
use trin.Find.KeySpace.{KeySpace}
use trin.Find.Query.{
  QueryConfig, QueryProgress, iterating, stalled, finished, QueryPeerState, not_contacted, waiting,
  unresponsive, failed, succeeded, QueryPeer, new_peer, set_state,
}

abbrev pub Peers : Type 0 → Type 0
Peers Key = BTreeMap (QueryPeer Key)

-- `at_capacity`
unfoldable pub at_capacity : QueryConfig → QueryProgress → ℕ → Bool
at_capacity c stalled num_waiting = leb c.num_results num_waiting
at_capacity c (iterating n) num_waiting = leb c.parallelism num_waiting
at_capacity c finished num_waiting = true

-- The update of `progress` at the end of `on_success`.
unfoldable pub update_progress : QueryConfig → Bool → QueryProgress → QueryProgress
update_progress c progress (iterating n) =
    let n' : ℕ = (if progress then 0 else usize_add n 1) in
    if leb c.parallelism n' then stalled else iterating n'
update_progress c progress stalled = if progress then iterating 0 else stalled
update_progress c progress finished = finished

-- `keys().next() == Some(&distance)`
abbrev pub is_first : ℕ → Option ℕ → Bool
is_first d none = false
is_first d (some e) = e == d

-- What a turn of the loop of `poll` does.
pub data Exit (Node : Type 0) : Type 0 where
  contact : Node → Exit Node
  full : Exit Node
  complete : Exit Node
  exhausted : Exit Node

-- A turn returns, panics, or goes on with the count of waiting peers, the result counter and the
-- peer as it leaves them.
pub data Turn (Node Key : Type 0) : Type 0 where
  stop : Exit Node → ℕ → QueryPeer Key → Turn Node Key
  panic : Turn Node Key
  next : ℕ → Option ℕ → QueryPeer Key → Turn Node Key

pub record Scan (Node Key : Type 0) : Type 0 where
  pub exit : Exit Node
  pub num_waiting : ℕ
  pub peers : Peers Key

module _ {Node Key : Type 0} (ks : KeySpace Node Key) where
  -- The loop of `on_success` over the peers of a response.
  unfoldable pub incorporate :
      QueryConfig → Key → ℕ → List Node → Bool → Peers Key → Bool × Peers Key
  incorporate c target num_closest [] progress peers = (progress, peers)
  incorporate c target num_closest (n ∷ rest) progress peers =
      let key = ks.into_key n in
      let d = ks.distance target key in
      let peers' = or_insert d (new_peer key not_contacted) peers in
      incorporate c target num_closest rest
        (is_first d (first_key peers') || ltb num_closest c.num_results) peers'

  -- The entries that `with_config` collects.
  unfoldable pub initial_entries : Key → List Key → List (ℕ × QueryPeer Key)
  initial_entries target [] = []
  initial_entries target (k ∷ rest) =
      (ks.distance k target, new_peer k not_contacted) ∷ initial_entries target rest

  unfoldable pub initial_peers : QueryConfig → Key → List Key → Peers Key
  unfolding initial_entries
  initial_peers c target known = collect [] (take c.num_results (initial_entries target known))

  -- A peer that succeeded while some result is counted.
  abbrev pub count_result : QueryConfig → ℕ → Option ℕ → QueryPeer Key → Turn Node Key
  count_result c w none p = next w none p
  count_result c w (some n) p =
      if leb c.num_results (usize_add n 1)
      then stop complete w p
      else next w (some (usize_add n 1)) p

  abbrev pub visit_state :
      QueryConfig → ℕ → Bool → ℕ → Option ℕ → QueryPeer Key → QueryPeerState → Turn Node Key
  visit_state c now busy w r p not_contacted =
      if busy
      then stop full w p
      else stop (contact (ks.preimage p.key)) (usize_add w 1)
          (set_state p (waiting (now + c.peer_timeout)))
  visit_state c now busy w r p (waiting t) =
      if leb t now
      then (if ltb 0 w then next (usize_sub w 1) r (set_state p unresponsive) else panic)
      else if busy
      then stop full w p
      else next w none p
  visit_state c now busy w r p succeeded = count_result c w r p
  visit_state c now busy w r p failed = next w r p
  visit_state c now busy w r p unresponsive = next w r p

  -- One turn of the loop of `poll`.
  unfoldable pub visit : QueryConfig → ℕ → Bool → ℕ → Option ℕ → QueryPeer Key → Turn Node Key
  visit c now busy w r p = visit_state c now busy w r p p.state

  abbrev pub put_back : ℕ → QueryPeer Key → Option (Scan Node Key) → Option (Scan Node Key)
  put_back d p none = none
  put_back d p (some s) = some (record s { peers = (d, p) ∷ s.peers })

  -- The loop of `poll` over `closest_peers.values_mut()`.
  unfoldable pub scan : QueryConfig → ℕ → Bool → ℕ → Option ℕ → Peers Key → Option (Scan Node Key)
  unfolding visit
  scan c now busy w r [] = some (record { exit = exhausted; num_waiting = w; peers = [] })
  scan c now busy w r ((d, p) ∷ m) = elim (visit c now busy w r p) [
    | stop e w' p' ↦ some (record { exit = e; num_waiting = w'; peers = (d, p') ∷ m })
    | panic ↦ none
    | next w' r' p' ↦ put_back d p' (scan c now busy w' r' m)
  ]

  -- The peers that succeeded, nearest first: the `filter_map` of `into_result`.
  abbrev pub keep_succeeded : QueryPeer Key → QueryPeerState → List Node → List Node
  keep_succeeded p succeeded rest = ks.preimage p.key ∷ rest
  keep_succeeded p not_contacted rest = rest
  keep_succeeded p (waiting t) rest = rest
  keep_succeeded p unresponsive rest = rest
  keep_succeeded p failed rest = rest

  unfoldable pub succeeded_nodes : Peers Key → List Node
  succeeded_nodes [] = []
  succeeded_nodes ((d, p) ∷ m) = keep_succeeded p p.state (succeeded_nodes m)
