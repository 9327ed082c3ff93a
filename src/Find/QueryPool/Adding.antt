-- ===== src/Find/QueryPool/Adding.antt =====
-- Adding a query to a pool. The ids wrap around after 2 ^ 64 queries, and might then meet an old one.
use trin.Prelude.{ℕ, ◌+◌, ◌<◌, ◌≡◌, ◌≢◌, none, some, List, [], ◌∷◌, arith, ◌==◌, All, if◌then◌else◌}
use trin.Prelude.Words.{usize_mod}
use trin.HashMap.{keys}
use trin.HashMap.Laws.{get-insert, get_absent, insert_absent}
use trin.Find.QueryPool.{QueryPool, new, add_query, get_mut}
use trin.Find.QueryPool.Valid.{IsValid}

All-below : (n m : ℕ) (ks : List ℕ) → n < m → All (λ j. j < n) ks → All (λ j. j < m) ks
All-below n m [] h a = tt
All-below n m (k ∷ ks) h a = (omega (arith, a.0), All-below n m ks h a.1)

All-ne : (n : ℕ) (ks : List ℕ) → All (λ j. j < n) ks → All (λ j. j ≢ n) ks
All-ne n [] a = tt
All-ne n (k ∷ ks) a = (omega (arith, a.0), All-ne n ks a.1)

module _ {Info TQuery : Type 0} (V : TQuery → Type 0) where
  pub new-IsValid : (query_timeout : ℕ) → IsValid V (new {Info = Info} query_timeout)
  unfolding new
  new-IsValid query_timeout = record { queries_valid = tt; distinct = tt; below = tt }

  -- A valid query that is added to a valid pool gets an id that no query of the pool has, is
  -- found under it, and leaves the others as they are; the pool stays valid. (The ids have not
  -- come to 2 ^ 64.)
  pub add_query_lem :
      (pool : QueryPool Info TQuery) (info : Info) (query : TQuery)
      → IsValid V pool
      → V query
      → pool.next_id + 1 < usize_mod
      → let (id, pool') = add_query pool info query in
        (get_mut pool id ≡ none)
        × ((j : ℕ) → get_mut pool' j ≡ (if id == j then some (info, query) else get_mut pool j))
        × IsValid V pool'
  unfolding add_query get_mut
  add_query_lem pool info query v q fits = (
    get_absent pool.next_id pool.queries fresh,
    λ j. get-insert pool.next_id j (info, query) pool.queries v.distinct,
    grown,
  )
    where
      fresh : All (λ j. j ≢ pool.next_id) (keys pool.queries)
      fresh = All-ne pool.next_id (keys pool.queries) v.below

      grown : IsValid V (add_query pool info query).1
      grown = rw (insert_absent pool.next_id (info, query) pool.queries fresh) (record {
        queries_valid = (q, v.queries_valid);
        distinct = (fresh, v.distinct);
        below = (omega arith, All-below pool.next_id _ (keys pool.queries) (omega arith) v.below);
      })
