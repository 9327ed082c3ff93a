-- ===== src/Find/QueryPool.antt =====
-- QueryPool of portalnet/src/find/query_pool.rs, over any implementation of the trait `Query`. The
-- pool iterates over its queries in the order of the hash map, which is that of `queries`. A call
-- that panics returns `none`; `now` stands for `Instant::now()`.
pub mod Events
pub mod Valid
pub mod Adding
pub mod Timeouts
pub mod Queries
use trin.Prelude.{ℕ, ◌-◌, Option, none, some, List, [], ◌∷◌, leb, ◌>>=◌, if◌then◌else◌}
use trin.Prelude.Words.{usize_add}
use trin.HashMap
use trin.HashMap.{HashMap}
use trin.Find.Query.{QueryState, waiting_on, waiting_at_capacity, done, Query}

pub record QueryPool (Info TQuery : Type 0) : Type 0 where
  pub next_id : ℕ
  pub query_timeout : ℕ
  pub queries : HashMap (Info × TQuery)

pub data QueryPoolState (Info TQuery Node : Type 0) : Type 0 where
  idle : QueryPoolState Info TQuery Node
  waiting_for : Option (ℕ × Info × TQuery × Node) → QueryPoolState Info TQuery Node
  finished_query : ℕ → Info → TQuery → QueryPoolState Info TQuery Node
  timeout_query : ℕ → Info → TQuery → QueryPoolState Info TQuery Node

-- What the loop of `poll` found: `finished`, `waiting` and `timeout`, of which one is set at most.
pub data Event (Node : Type 0) : Type 0 where
  quiet : Event Node
  finishes : ℕ → Event Node
  contacts : ℕ → Node → Event Node
  times_out : ℕ → Event Node

module _ {Info TQuery : Type 0} where
  unfoldable pub new : ℕ → QueryPool Info TQuery
  new query_timeout = record { next_id = 0; query_timeout = query_timeout; queries = [] }

  pub add_query : QueryPool Info TQuery → Info → TQuery → ℕ × QueryPool Info TQuery
  add_query pool info query = (
    pool.next_id,
    record pool {
      next_id = usize_add pool.next_id 1;
      queries = HashMap.insert pool.next_id (info, query) pool.queries;
    },
  )

  unfoldable pub get_mut : QueryPool Info TQuery → ℕ → Option (Info × TQuery)
  get_mut pool id = HashMap.get id pool.queries

-- `unwrap_or(now)`
abbrev pub or_now : ℕ → Option ℕ → ℕ
or_now now none = now
or_now now (some t) = t

abbrev pub start_if_new :
    {TQuery Node Response Result : Type 0} (api : Query TQuery Node Response Result)
    → ℕ
    → TQuery
    → Option ℕ
    → TQuery
start_if_new api now query none = api.start query now
start_if_new api now query (some t) = query

module _ {Info TQuery Node Response Result : Type 0} (api : Query TQuery Node Response Result) where
  abbrev pub put_back :
      ℕ
      → Info
      → TQuery
      → Option (Event Node × HashMap (Info × TQuery))
      → Option (Event Node × HashMap (Info × TQuery))
  put_back id info query none = none
  put_back id info query (some (e, m)) = some (e, (id, (info, query)) ∷ m)

  -- The match of the loop of `poll` on what one query reports; `rest` is the loop over the others.
  abbrev pub on_state :
      ℕ
      → ℕ
      → ℕ
      → Info
      → HashMap (Info × TQuery)
      → Option (Event Node × HashMap (Info × TQuery))
      → QueryState Node × TQuery
      → Option (Event Node × HashMap (Info × TQuery))
  on_state now query_timeout id info m rest (done, query) =
      some (finishes id, (id, (info, query)) ∷ m)
  on_state now query_timeout id info m rest (waiting_on (some n), query) =
      some (contacts id n, (id, (info, query)) ∷ m)
  on_state now query_timeout id info m rest (waiting_on none, query) =
      if leb query_timeout (now - or_now now (api.started query))
      then some (times_out id, (id, (info, query)) ∷ m)
      else put_back id info query rest
  on_state now query_timeout id info m rest (waiting_at_capacity, query) =
      if leb query_timeout (now - or_now now (api.started query))
      then some (times_out id, (id, (info, query)) ∷ m)
      else put_back id info query rest

  -- The loop of `poll`.
  unfoldable pub poll_queries :
      ℕ → ℕ → HashMap (Info × TQuery) → Option (Event Node × HashMap (Info × TQuery))
  poll_queries now query_timeout [] = some (quiet, [])
  poll_queries now query_timeout ((id, (info, query)) ∷ m) =
      let rest = poll_queries now query_timeout m in
      api.poll (start_if_new api now query (api.started query)) now >>= λ r.
      on_state now query_timeout id info m rest r

  abbrev pub take_out :
      (ℕ → Info → TQuery → QueryPoolState Info TQuery Node)
      → ℕ
      → QueryPool Info TQuery
      → Option (QueryPoolState Info TQuery Node × QueryPool Info TQuery)
  take_out report id pool = HashMap.get id pool.queries >>= λ (info, query).
      some (report id info query, record pool { queries = HashMap.remove id pool.queries })

  abbrev pub is_idle : HashMap (Info × TQuery) → QueryPoolState Info TQuery Node
  is_idle [] = idle
  is_idle (q ∷ m) = waiting_for none

  -- What `poll` does once its loop is left.
  abbrev pub report :
      Event Node
      → QueryPool Info TQuery
      → Option (QueryPoolState Info TQuery Node × QueryPool Info TQuery)
  report quiet pool = some (is_idle pool.queries, pool)
  report (contacts id n) pool = HashMap.get id pool.queries >>= λ (info, query).
      some (waiting_for (some (id, info, query, n)), pool)
  report (finishes id) pool = take_out finished_query id pool
  report (times_out id) pool = take_out timeout_query id pool

  unfoldable pub poll :
      QueryPool Info TQuery → ℕ → Option (QueryPoolState Info TQuery Node × QueryPool Info TQuery)
  poll pool now = poll_queries now pool.query_timeout pool.queries >>= λ (event, queries').
      report event (record pool { queries = queries' })
