-- ===== src/Find/FindNodes.antt =====
-- FindNodeQuery of portalnet/src/find/iterators/findnodes.rs. A method returns the new query;
-- `none` is a panic of an `assert!`. A `debug_assert!` is not compiled into a release build.
mod Cases
pub mod Valid
pub mod Polls
pub mod Answers
pub mod Evolution
pub mod Growth
pub mod Runs
pub mod Final
pub mod LastPeer
use trin.Prelude.{
  ℕ, ◌≡◌, Bool, true, false, Option, none, some, List, [], ◌∷◌, ltb, leb, length, take, guard,
  ◌>>=◌, ◌>>◌, if◌then◌else◌,
}
use trin.Prelude.Words.{usize_sub}
use trin.BTreeMap
use trin.Find.KeySpace.{KeySpace}
use trin.Find.Query.{
  QueryConfig, QueryProgress, iterating, finished, is_finished, QueryPeerState, not_contacted,
  waiting, unresponsive, failed, succeeded, QueryPeer, increment_peers_returned, set_state,
  QueryState, waiting_on, waiting_at_capacity, done, Query,
}
use trin.Find.ClosestPeers.{
  Peers, at_capacity, update_progress, Exit, contact, full, complete, exhausted, Scan, incorporate,
  initial_peers, scan, succeeded_nodes,
}

pub record FindNodeQuery (Key : Type 0) : Type 0 where
  pub target_key : Key
  pub started : Option ℕ
  pub progress : QueryProgress
  pub closest_peers : Peers Key
  pub num_waiting : ℕ
  pub config : QueryConfig

unfoldable pub start : {Key : Type 0} → FindNodeQuery Key → ℕ → FindNodeQuery Key
start q now = record q { started = some now }

-- The match on the state of an occupied entry in `on_failure`.
abbrev fail_entry :
    {Key : Type 0} → FindNodeQuery Key → ℕ → QueryPeer Key → QueryPeerState → FindNodeQuery Key
fail_entry q d p (waiting t) = record q {
  num_waiting = usize_sub q.num_waiting 1;
  closest_peers = BTreeMap.set d (set_state p failed) q.closest_peers;
}
fail_entry q d p unresponsive = record q {
  closest_peers = BTreeMap.set d (set_state p failed) q.closest_peers;
}
fail_entry q d p not_contacted = q
fail_entry q d p failed = q
fail_entry q d p succeeded = q

-- The peer of an occupied entry once it has answered with `n` peers.
abbrev answered : {Key : Type 0} → ℕ → QueryPeer Key → QueryPeer Key
answered n p = set_state (increment_peers_returned p n) succeeded

-- What `poll` returns and writes once its loop is left.
abbrev conclude :
    {Node Key : Type 0} → FindNodeQuery Key → Exit Node → QueryState Node × FindNodeQuery Key
conclude q (contact n) = (waiting_on (some n), q)
conclude q full = (waiting_at_capacity, q)
conclude q complete = (done, record q { progress = finished })
conclude q exhausted =
    if ltb 0 q.num_waiting then (waiting_on none, q) else (done, record q { progress = finished })

abbrev after_scan :
    {Node Key : Type 0}
    → FindNodeQuery Key
    → Option (Scan Node Key)
    → Option (QueryState Node × FindNodeQuery Key)
after_scan q none = none
after_scan q (some s) =
    some (conclude (record q { closest_peers = s.peers; num_waiting = s.num_waiting }) s.exit)

module _ {Node Key : Type 0} (ks : KeySpace Node Key) where
  unfoldable pub with_config : QueryConfig → Key → List Key → FindNodeQuery Key
  with_config config target known = record {
    target_key = target;
    started = none;
    progress = iterating 0;
    closest_peers = initial_peers ks config target known;
    num_waiting = 0;
    config = config;
  }

  pub on_failure : FindNodeQuery Key → Node → FindNodeQuery Key
  on_failure q peer =
      let d = ks.distance (ks.into_key peer) q.target_key in
      if is_finished q.progress
      then q
      else elim (BTreeMap.get d q.closest_peers) [ none ↦ q | some p ↦ fail_entry q d p p.state ]

  -- The loop of `on_success` and the update of the progress.
  respond : FindNodeQuery Key → List Node → FindNodeQuery Key
  respond q response =
      let (progress, peers) =
        incorporate ks q.config q.target_key (length q.closest_peers) response false
          q.closest_peers in
      record q { closest_peers = peers; progress = update_progress q.config progress q.progress }

  -- The match on the state of an occupied entry in `on_success`, with what follows it.
  abbrev succeed_entry :
      FindNodeQuery Key
      → ℕ
      → List Node
      → QueryPeer Key
      → QueryPeerState
      → Option (FindNodeQuery Key)
  succeed_entry q d response p (waiting t) = do
    guard (ltb 0 q.num_waiting)
    some (
        respond
          (record q {
            num_waiting = usize_sub q.num_waiting 1;
            closest_peers = BTreeMap.set d (answered (length response) p) q.closest_peers;
          })
          response)
  succeed_entry q d response p unresponsive = some (
      respond
        (record q { closest_peers = BTreeMap.set d (answered (length response) p) q.closest_peers })
        response)
  succeed_entry q d response p not_contacted = some q
  succeed_entry q d response p failed = some q
  succeed_entry q d response p succeeded = some q

  unfoldable pub on_success : FindNodeQuery Key → Node → List Node → Option (FindNodeQuery Key)
  unfolding respond
  on_success q peer response =
      let d = ks.distance (ks.into_key peer) q.target_key in
      if is_finished q.progress then some q else elim (BTreeMap.get d q.closest_peers) [
        | none ↦ some q
        | some p ↦ succeed_entry q d response p p.state
      ]

  unfoldable pub poll : FindNodeQuery Key → ℕ → Option (QueryState Node × FindNodeQuery Key)
  poll q now =
      let busy = at_capacity q.config q.progress q.num_waiting in
      if is_finished q.progress
      then some (done, q)
      else after_scan q (scan ks q.config now busy q.num_waiting (some 0) q.closest_peers)

  pub into_result : FindNodeQuery Key → List Node
  into_result q = take q.config.num_results (succeeded_nodes ks q.closest_peers)

  -- The implementation of the trait.
  abbrev pub find_node_query : Query (FindNodeQuery Key) Node (List Node) (List Node)
  find_node_query = record {
    started = λ q. q.started;
    start = start;
    on_failure = λ q peer. some (on_failure q peer);
    on_success = on_success;
    poll = poll;
    into_result = into_result;
  }
