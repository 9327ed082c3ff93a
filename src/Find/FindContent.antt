-- ===== src/Find/FindContent.antt =====
-- FindContentQuery of portalnet/src/find/iterators/findcontent.rs. A method returns the new query;
-- `none` is a panic of an `assert!`.
pub mod Results
mod Cases
pub mod Valid
pub mod Polls
pub mod Answers
pub mod Evolution
pub mod Growth
pub mod Runs
use trin.Prelude.{
  ℕ, Bool, true, false, Option, none, some, List, [], ◌∷◌, ltb, length, take, guard, ◌>>=◌, ◌>>◌,
  if◌then◌else◌,
}
use trin.Prelude.Words.{usize_sub, u16_from_be}
use trin.BTreeMap
use trin.Find.KeySpace.{KeySpace}
use trin.Find.Query.{
  QueryConfig, QueryProgress, iterating, finished, is_finished, QueryPeerState, not_contacted,
  waiting, unresponsive, failed, succeeded, QueryPeer, set_state, QueryState, waiting_on,
  waiting_at_capacity, done, Query,
}
use trin.Find.ClosestPeers.{
  Peers, at_capacity, update_progress, Exit, contact, full, complete, exhausted, Scan, incorporate,
  initial_peers, scan, succeeded_nodes,
}

pub data FindContentQueryResponse (Node : Type 0) : Type 0 where
  closest_nodes : List Node → FindContentQueryResponse Node
  content : List ℕ → FindContentQueryResponse Node
  connection_id : ℕ → FindContentQueryResponse Node

pub data FindContentQueryResult (Node : Type 0) : Type 0 where
  nodes : List Node → FindContentQueryResult Node
  found : List ℕ → List Node → FindContentQueryResult Node
  utp : ℕ → List Node → Node → FindContentQueryResult Node

-- The content, or the uTP connection that carries it, and the peer that answered.
pub data ContentAndPeer (Node : Type 0) : Type 0 where
  content_from : List ℕ → Node → ContentAndPeer Node
  utp_from : ℕ → Node → ContentAndPeer Node

pub record FindContentQuery (Node Key : Type 0) : Type 0 where
  pub target_key : Key
  pub started : Option ℕ
  pub progress : QueryProgress
  pub closest_peers : Peers Key
  pub content : Option (ContentAndPeer Node)
  pub num_waiting : ℕ
  pub config : QueryConfig

unfoldable pub start :
    {Node Key : Type 0} → FindContentQuery Node Key → ℕ → FindContentQuery Node Key
start q now = record q { started = some now }

-- The match on the state of an occupied entry in `on_failure`.
abbrev fail_entry :
    {Node Key : Type 0}
    → FindContentQuery Node Key
    → ℕ
    → QueryPeer Key
    → QueryPeerState
    → Option (FindContentQuery Node Key)
fail_entry q d p (waiting t) = do
  guard (ltb 0 q.num_waiting)
  some (record q {
    num_waiting = usize_sub q.num_waiting 1;
    closest_peers = BTreeMap.set d (set_state p failed) q.closest_peers;
  })
fail_entry q d p unresponsive =
    some (record q { closest_peers = BTreeMap.set d (set_state p failed) q.closest_peers })
fail_entry q d p not_contacted = some q
fail_entry q d p failed = some q
fail_entry q d p succeeded = some q

-- What `poll` returns and writes once its loop is left.
abbrev conclude :
    {Node Key : Type 0}
    → FindContentQuery Node Key
    → Exit Node
    → QueryState Node × FindContentQuery Node Key
conclude q (contact n) = (waiting_on (some n), q)
conclude q full = (waiting_at_capacity, q)
conclude q complete = (done, record q { progress = finished })
conclude q exhausted =
    if ltb 0 q.num_waiting then (waiting_on none, q) else (done, record q { progress = finished })

abbrev after_scan :
    {Node Key : Type 0}
    → FindContentQuery Node Key
    → Option (Scan Node Key)
    → Option (QueryState Node × FindContentQuery Node Key)
after_scan q none = none
after_scan q (some s) =
    some (conclude (record q { closest_peers = s.peers; num_waiting = s.num_waiting }) s.exit)

module _ {Node Key : Type 0} (ks : KeySpace Node Key) where
  unfoldable pub with_config : QueryConfig → Key → List Key → FindContentQuery Node Key
  with_config config target known = record {
    target_key = target;
    started = none;
    progress = iterating 0;
    closest_peers = initial_peers ks config target known;
    content = none;
    num_waiting = 0;
    config = config;
  }

  pub on_failure : FindContentQuery Node Key → Node → Option (FindContentQuery Node Key)
  on_failure q peer =
      let d = ks.distance (ks.into_key peer) q.target_key in
      if is_finished q.progress then some q else elim (BTreeMap.get d q.closest_peers) [
        | none ↦ some q
        | some p ↦ fail_entry q d p p.state
      ]

  -- The match of `on_success` on the response.
  respond :
      FindContentQuery Node Key → Node → FindContentQueryResponse Node → FindContentQuery Node Key
  respond q peer (closest_nodes closer_peers) =
      let (progress, peers) =
        incorporate ks q.config q.target_key (length q.closest_peers) closer_peers false
          q.closest_peers in
      record q { closest_peers = peers; progress = update_progress q.config progress q.progress }
  respond q peer (content bytes) = record q { content = some (content_from bytes peer) }
  respond q peer (connection_id id) = record q { content = some (utp_from (u16_from_be id) peer) }

  -- The match on the state of an occupied entry in `on_success`, with what follows it.
  abbrev succeed_entry :
      FindContentQuery Node Key
      → ℕ
      → Node
      → FindContentQueryResponse Node
      → QueryPeer Key
      → QueryPeerState
      → Option (FindContentQuery Node Key)
  succeed_entry q d peer response p (waiting t) = do
    guard (ltb 0 q.num_waiting)
    some (
        respond
          (record q {
            num_waiting = usize_sub q.num_waiting 1;
            closest_peers = BTreeMap.set d (set_state p succeeded) q.closest_peers;
          })
          peer response)
  succeed_entry q d peer response p unresponsive = some (
      respond (record q { closest_peers = BTreeMap.set d (set_state p succeeded) q.closest_peers })
        peer response)
  succeed_entry q d peer response p not_contacted = some q
  succeed_entry q d peer response p failed = some q
  succeed_entry q d peer response p succeeded = some q

  unfoldable pub on_success :
      FindContentQuery Node Key
      → Node
      → FindContentQueryResponse Node
      → Option (FindContentQuery Node Key)
  unfolding respond
  on_success q peer response =
      let d = ks.distance (ks.into_key peer) q.target_key in
      if is_finished q.progress then some q else elim (BTreeMap.get d q.closest_peers) [
        | none ↦ some q
        | some p ↦ succeed_entry q d peer response p p.state
      ]

  abbrev poll_peers :
      FindContentQuery Node Key
      → ℕ
      → Option (ContentAndPeer Node)
      → Option (QueryState Node × FindContentQuery Node Key)
  poll_peers q now (some c) = some (done, record q { progress = finished })
  poll_peers q now none =
      let busy = at_capacity q.config q.progress q.num_waiting in
      after_scan q (scan ks q.config now busy q.num_waiting (some 0) q.closest_peers)

  unfoldable pub poll :
      FindContentQuery Node Key → ℕ → Option (QueryState Node × FindContentQuery Node Key)
  poll q now = if is_finished q.progress then some (done, q) else poll_peers q now q.content
