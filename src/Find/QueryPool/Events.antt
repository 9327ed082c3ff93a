-- ===== src/Find/QueryPool/Events.antt =====
-- What `poll` of a QueryPool reports and takes out.
use trin.Prelude.{ℕ, ◌<◌, ◌≡◌, refl, sym, ap, ◌∙◌, subst, Option, none, some, [], ◌∷◌, ◌>>=◌, All}
use trin.HashMap
use trin.HashMap.{HashMap, keys}
use trin.HashMap.Laws.{
  OneOf, Distinct, without, keys-remove, All-without, Distinct-without, get_present, get_removed,
}
use trin.Find.Query.{Query}
use trin.Find.QueryPool.{
  QueryPool, QueryPoolState, idle, waiting_for, finished_query, timeout_query, Event, quiet,
  finishes, contacts, times_out, is_idle, report, poll,
}
use trin.Find.QueryPool.Valid.{
  QueryLaws, AllValid, IsValid, AllValid-remove, Names, Looped, poll_queries-Looped,
}

-- What a report says of the pool before and after.
abbrev pub Accounts :
    {Info TQuery Node : Type 0}
    → QueryPoolState Info TQuery Node
    → QueryPool Info TQuery
    → QueryPool Info TQuery
    → Type 0
Accounts idle pool pool' = (keys pool.queries ≡ []) × (keys pool'.queries ≡ [])
Accounts (waiting_for none) pool pool' = keys pool'.queries ≡ keys pool.queries
Accounts (waiting_for (some (id, info, query, n))) pool pool' =
    (keys pool'.queries ≡ keys pool.queries) × (HashMap.get id pool'.queries ≡ some (info, query))
Accounts (finished_query id info query) pool pool' =
    OneOf id (keys pool.queries)
    × (keys pool'.queries ≡ without id (keys pool.queries))
    × (HashMap.get id pool'.queries ≡ none)
Accounts (timeout_query id info query) pool pool' =
    OneOf id (keys pool.queries)
    × (keys pool'.queries ≡ without id (keys pool.queries))
    × (HashMap.get id pool'.queries ≡ none)

is_idle-Accounts :
    {Info TQuery Node Response Result : Type 0} (api : Query TQuery Node Response Result)
    (pool : QueryPool Info TQuery) (m : HashMap (Info × TQuery))
    → keys m ≡ keys pool.queries
    → Accounts (is_idle api m) pool (record pool { queries = m })
is_idle-Accounts api pool [] same = (sym same, refl)
is_idle-Accounts api pool (q ∷ m) same = same

module _ {Info TQuery Node Response Result : Type 0} (api : Query TQuery Node Response Result)
    (V : TQuery → Type 0) where
  -- A poll that returns.
  abbrev pub Returns :
      QueryPool Info TQuery
      → Option (QueryPoolState Info TQuery Node × QueryPool Info TQuery)
      → Type 0
  Returns pool none = ⊥
  Returns pool (some (state, pool')) =
      IsValid V pool' × (pool'.next_id ≡ pool.next_id) × Accounts state pool pool'

  module _ (pool : QueryPool Info TQuery) (m : HashMap (Info × TQuery)) (v : IsValid V pool)
      (a : AllValid V m) (same : keys m ≡ keys pool.queries) where
    abbrev polled : QueryPool Info TQuery
    polled = record pool { queries = m }

    polled-IsValid : IsValid V polled
    polled-IsValid = record {
      queries_valid = a;
      distinct = subst Distinct (sym same) v.distinct;
      below = subst (All (λ id. id < pool.next_id)) (sym same) v.below;
    }

    removed-IsValid : (id : ℕ) → IsValid V (record pool { queries = HashMap.remove id m })
    removed-IsValid id = record {
      queries_valid = AllValid-remove V id m a;
      distinct =
          subst Distinct (sym (keys-remove id m))
            (Distinct-without id (keys m) polled-IsValid.distinct);
      below =
          subst (All (λ j. j < pool.next_id)) (sym (keys-remove id m))
            (All-without (λ j. j < pool.next_id) id (keys m) polled-IsValid.below);
    }

    Removed : ℕ → Type 0
    Removed id =
        IsValid V (record pool { queries = HashMap.remove id m })
        × (keys (HashMap.remove id m) ≡ without id (keys pool.queries))
        × (HashMap.get id (HashMap.remove id m) ≡ none)

    removed : (id : ℕ) → Removed id
    unfolding Removed
    removed id = (
      removed-IsValid id,
      keys-remove id m ∙ ap (without id) same,
      get_removed id m polled-IsValid.distinct,
    )

    present :
        (id : ℕ) → OneOf id (keys pool.queries) → (x : Info × TQuery) × (HashMap.get id m ≡ some x)
    present id h = get_present id m (subst (OneOf id) (sym same) h)

    report-Returns :
        (e : Event Node) → Names e (keys pool.queries) → Returns pool (report api e polled)
    unfolding Removed
    report-Returns quiet h = (polled-IsValid, refl, is_idle-Accounts api pool m same)
    report-Returns (contacts id n) h =
        let ((info, query), e) = present id h in rw e (polled-IsValid, refl, (same, e))
    report-Returns (finishes id) h =
        let ((info, query), e) = present id h in
        let (v', ids, gone) = removed id in rw e (v', refl, (h, ids, gone))
    report-Returns (times_out id) h =
        let ((info, query), e) = present id h in
        let (v', ids, gone) = removed id in rw e (v', refl, (h, ids, gone))

  after_loop :
      (laws : QueryLaws api V) (pool : QueryPool Info TQuery)
      (o : Option (Event Node × HashMap (Info × TQuery)))
      → IsValid V pool
      → Looped api V laws pool.queries o
      → Returns pool
          (o >>= λ (event, queries'). report api event (record pool { queries = queries' }))
  after_loop laws pool none v l = l
  after_loop laws pool (some (e, m)) v (a, same, names) = report-Returns pool m v a same e names

  -- Where the kind of query keeps the laws of `QueryLaws`, polling a valid pool panics neither in
  -- a query nor at an `expect`. It leaves the pool valid, and takes out the query that it reports
  -- as finished or timed out, and no other.
  pub poll-Returns :
      (laws : QueryLaws api V) (pool : QueryPool Info TQuery) (now : ℕ)
      → IsValid V pool
      → Returns pool (poll api pool now)
  unfolding poll
  poll-Returns laws pool now v =
      after_loop laws pool _ v
        (poll_queries-Looped api V laws now pool.query_timeout pool.queries v.queries_valid)
