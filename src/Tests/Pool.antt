-- ===== src/Tests/Pool.antt =====
-- A QueryPool of FindNodeQuery, and the distances of a request.
use trin.Prelude.{
  ℕ, Bool, true, false, ◌≤◌, ◌≡◌, ◌==◌, if◌then◌else◌, refl, none, some, [], ◌∷◌, arith,
}
use trin.HashMap
use trin.HashMap.{get}
use trin.Find.Query.{iterating}
use trin.Find.ClosestPeers.{scan, visit, at_capacity}
use trin.Find.FindNodes.{FindNodeQuery, find_node_query, poll}
use trin.Find.FindContent.Results.{find_content_query}
use trin.Find.QueryPool.{
  QueryPool, QueryPoolState, waiting_for, timeout_query, add_query, get_mut, poll_queries,
}
use trin.Find.QueryPool as Pools
use trin.Find.QueryPool.Valid.{QueryLaws, IsValid}
use trin.Find.QueryPool.Events.{Returns, poll-Returns}
use trin.Find.QueryPool.Timeouts.{elapsed, AllInTime, poll_timeouts}
use trin.Find.QueryPool.Adding.{add_query_lem}
use trin.Find.QueryPool.Queries.{SoundNodes, SoundContent, find_node_laws, find_content_laws}
use trin.Find.QueryInfo.{findnode_log2distance}
use trin.Find.QueryInfo.Distances.{AsksFrom, findnode_log2distance_lem}
use trin.Tests.{number_space, small_config, one_waiting}

abbrev query : FindNodeQuery ℕ
query = record {
  target_key = 0;
  started = some 0;
  progress = iterating 0;
  closest_peers = one_waiting;
  num_waiting = 1;
  config = small_config;
}

query-SoundNodes : SoundNodes number_space query
query-SoundNodes = (
  record {
    counts = refl;
    sorted = (omega arith, (omega arith, tt));
    placed = (refl, (refl, tt));
    within = omega arith;
  },
  omega arith,
)

abbrev pool : QueryPool Bool (FindNodeQuery ℕ)
pool = record { next_id = 4; query_timeout = 3; queries = (1, (true, query)) ∷ [] }

abbrev emptied : QueryPool Bool (FindNodeQuery ℕ)
emptied = record pool { queries = [] }

abbrev gives_up : QueryPoolState Bool (FindNodeQuery ℕ) ℕ
gives_up = timeout_query 1 true query

pool-IsValid : IsValid (SoundNodes number_space) pool
pool-IsValid = record {
  queries_valid = (query-SoundNodes, tt);
  distinct = (tt, tt);
  below = (omega arith, tt);
}

late : Pools.poll (find_node_query number_space) pool 4 ≡ some (gives_up, emptied)
unfolding Pools.poll poll_queries poll scan visit at_capacity get HashMap.remove
late = refl

poll-Returns_example :
    Returns
      (find_node_query number_space)
      (SoundNodes number_space)
      pool
      (Pools.poll (find_node_query number_space) pool 4)
poll-Returns_example =
    poll-Returns (find_node_query number_space) (SoundNodes number_space)
      (find_node_laws number_space) pool 4 pool-IsValid

poll_timeouts_example :
    ((id : ℕ) (info : Bool) (q : FindNodeQuery ℕ)
      → gives_up ≡ timeout_query id info q
      → 3 ≤ elapsed (find_node_query number_space) 4 q)
    × (gives_up ≡ waiting_for none → AllInTime (find_node_query number_space) 4 3 emptied.queries)
poll_timeouts_example =
    poll_timeouts (find_node_query number_space) (SoundNodes number_space)
      (find_node_laws number_space) pool emptied 4 gives_up pool-IsValid late

added_query :
    let (id, pool') = add_query pool false query in
    (get_mut pool id ≡ none)
    × ((j : ℕ) → get_mut pool' j ≡ (if id == j then some (false, query) else get_mut pool j))
    × IsValid (SoundNodes number_space) pool'
added_query =
    add_query_lem (SoundNodes number_space) pool false query pool-IsValid query-SoundNodes
      (omega arith)

find_node_laws_example : QueryLaws (find_node_query number_space) (SoundNodes number_space)
find_node_laws_example = find_node_laws number_space

find_content_laws_example :
    QueryLaws (find_content_query number_space ◌==◌) (SoundContent number_space)
find_content_laws_example = find_content_laws number_space ◌==◌

findnode_log2distance_lem_example : AsksFrom 5 255 (findnode_log2distance (some 255) 5)
findnode_log2distance_lem_example =
    findnode_log2distance_lem 255 5 (omega arith) (omega arith) (omega arith)
