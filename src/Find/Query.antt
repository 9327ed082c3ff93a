-- ===== src/Find/Query.antt =====
-- portalnet/src/find/iterators/query.rs, and `QueryState` of find/query_pool.rs. An `Instant` and a
-- `Duration` are numbers of one unit.
pub mod States
use trin.Prelude.{ℕ, Option, Bool, true, false}
use trin.Prelude.Words.{usize_add}

pub record QueryConfig : Type 0 where
  pub parallelism : ℕ
  pub num_results : ℕ
  pub peer_timeout : ℕ

-- The unit of time is the second here.
abbrev pub default_config : QueryConfig
default_config = record { parallelism = 3; num_results = 20; peer_timeout = 2 }

pub data QueryProgress : Type 0 where
  iterating : ℕ → QueryProgress
  stalled : QueryProgress
  finished : QueryProgress

abbrev pub is_finished : QueryProgress → Bool
is_finished (iterating n) = false
is_finished stalled = false
is_finished finished = true

pub data QueryPeerState : Type 0 where
  not_contacted : QueryPeerState
  waiting : ℕ → QueryPeerState
  unresponsive : QueryPeerState
  failed : QueryPeerState
  succeeded : QueryPeerState

pub record QueryPeer (Key : Type 0) : Type 0 where
  pub key : Key
  pub peers_returned : ℕ
  pub state : QueryPeerState

abbrev pub new_peer : {Key : Type 0} → Key → QueryPeerState → QueryPeer Key
new_peer key state = record { key = key; peers_returned = 0; state = state }

abbrev pub increment_peers_returned : {Key : Type 0} → QueryPeer Key → ℕ → QueryPeer Key
increment_peers_returned p n = record p { peers_returned = usize_add p.peers_returned n }

abbrev pub set_state : {Key : Type 0} → QueryPeer Key → QueryPeerState → QueryPeer Key
set_state p s = record p { state = s }

-- What `poll` reports.
pub data QueryState (Node : Type 0) : Type 0 where
  waiting_on : Option Node → QueryState Node
  waiting_at_capacity : QueryState Node
  done : QueryState Node

-- The trait `Query`. A call that panics returns `none`.
pub record Query (TQuery Node Response Result : Type 0) : Type 0 where
  pub started : TQuery → Option ℕ
  pub start : TQuery → ℕ → TQuery
  pub on_failure : TQuery → Node → Option TQuery
  pub on_success : TQuery → Node → Response → Option TQuery
  pub poll : TQuery → ℕ → Option (QueryState Node × TQuery)
  pub into_result : TQuery → Result
