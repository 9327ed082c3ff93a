-- ===== src/Find/QueryPool/Timeouts.antt =====
-- When a QueryPool gives a query up.
use trin.Prelude.{
  ℕ, ◌-◌, ◌<◌, ◌≤◌, ◌≡◌, ◌≢◌, refl, ap, ◌∙◌, sym, subst, Option-cases, Option, none, some, [], ◌∷◌,
  arith, leb, ◌>>=◌, Bool-cases, inl, inr, if◌then◌else◌,
}
use trin.HashMap
use trin.HashMap.{HashMap, keys}
use trin.HashMap.Laws.{Distinct, OneOf, OneOf-ne}
use trin.Find.Query.{QueryState, waiting_on, waiting_at_capacity, done, Query}
use trin.Find.QueryPool.Valid.{QueryLaws, IsValid, Looped, poll_queries-Looped}
use trin.Find.QueryPool.{
  QueryPool, QueryPoolState, waiting_for, timeout_query, Event, quiet, finishes, contacts,
  times_out, or_now, start_if_new, put_back, on_state, poll_queries, report, poll, is_idle,
}

-- How long a query has run.
abbrev pub elapsed :
    {TQuery Node Response Result : Type 0} (api : Query TQuery Node Response Result)
    → ℕ
    → TQuery
    → ℕ
elapsed api now q = now - or_now now (api.started q)

module _ {Info TQuery Node Response Result : Type 0} (api : Query TQuery Node Response Result)
    (now t : ℕ) where
  abbrev pub AllInTime : HashMap (Info × TQuery) → Type 0
  AllInTime [] = Unit
  AllInTime ((id, (info, q)) ∷ m) = (elapsed api now q < t) × AllInTime m

  -- Some query with the id is late.
  pub data Late (id : ℕ) : HashMap (Info × TQuery) → Type 0 where
    here :
        (info : Info) (q : TQuery) (m : HashMap (Info × TQuery))
        → t ≤ elapsed api now q
        → Late id ((id, (info, q)) ∷ m)
    later :
        (j : ℕ) (x : Info × TQuery) (m : HashMap (Info × TQuery)) → Late id m → Late id ((j, x) ∷ m)

  abbrev pub Timed : Event Node → HashMap (Info × TQuery) → Type 0
  Timed quiet m = AllInTime m
  Timed (times_out id) m = Late id m
  Timed (finishes id) m = Unit
  Timed (contacts id n) m = Unit

  abbrev pub TimedLoop : Option (Event Node × HashMap (Info × TQuery)) → Type 0
  TimedLoop none = Unit
  TimedLoop (some (e, m)) = Timed e m

  put_back-TimedLoop :
      (id : ℕ) (info : Info) (q : TQuery) (o : Option (Event Node × HashMap (Info × TQuery)))
      → elapsed api now q < t
      → TimedLoop o
      → TimedLoop (put_back api id info q o)
  put_back-TimedLoop id info q none h l = tt
  put_back-TimedLoop id info q (some (e, m)) h l = put e l
    where
      put : (e : Event Node) → Timed e m → Timed e ((id, (info, q)) ∷ m)
      put quiet l = (h, l)
      put (times_out j) l = later id (info, q) m l
      put (finishes j) l = tt
      put (contacts j n) l = tt

  wait-TimedLoop :
      (id : ℕ) (info : Info) (q : TQuery) (m : HashMap (Info × TQuery))
      (rest : Option (Event Node × HashMap (Info × TQuery)))
      → TimedLoop rest
      → TimedLoop (
          if leb t (elapsed api now q)
          then some (times_out id, (id, (info, q)) ∷ m)
          else put_back api id info q rest)
  wait-TimedLoop id info q m rest l = elim (Bool-cases (leb t (elapsed api now q))) [
    | inl late ↦ rw late (here info q m (ground arith))
    | inr early ↦ rw early (put_back-TimedLoop id info q rest (ground arith) l)
  ]

  on_state-TimedLoop :
      (id : ℕ) (info : Info) (q : TQuery) (s : QueryState Node) (m : HashMap (Info × TQuery))
      (rest : Option (Event Node × HashMap (Info × TQuery)))
      → TimedLoop rest
      → TimedLoop (on_state api now t id info m rest (s, q))
  on_state-TimedLoop id info q done m rest l = tt
  on_state-TimedLoop id info q (waiting_on (some n)) m rest l = tt
  on_state-TimedLoop id info q (waiting_on none) m rest l = wait-TimedLoop id info q m rest l
  on_state-TimedLoop id info q waiting_at_capacity m rest l = wait-TimedLoop id info q m rest l

  poll_queries-TimedLoop : (m : HashMap (Info × TQuery)) → TimedLoop (poll_queries api now t m)
  unfolding poll_queries
  poll_queries-TimedLoop [] = tt
  poll_queries-TimedLoop ((id, (info, q)) ∷ m) =
      polled (api.poll (start_if_new api now q (api.started q)) now) (poll_queries-TimedLoop m)
    where
      polled :
          (o : Option (QueryState Node × TQuery))
          → TimedLoop (poll_queries api now t m)
          → TimedLoop (o >>= λ r. on_state api now t id info m (poll_queries api now t m) r)
      polled none l = tt
      polled (some (s, q')) l = on_state-TimedLoop id info q' s m (poll_queries api now t m) l

  Late-OneOf : (id : ℕ) {m : HashMap (Info × TQuery)} → Late id m → OneOf id (keys m)
  Late-OneOf id (here info q m h) = inl refl
  Late-OneOf id (later j x m l) = inr (Late-OneOf id l)

  Late-get :
      (id : ℕ) (info : Info) (q : TQuery) {m : HashMap (Info × TQuery)}
      → Late id m
      → Distinct (keys m)
      → HashMap.get id m ≡ some (info, q)
      → t ≤ elapsed api now q
  unfolding HashMap.get
  Late-get id info q (here info' q' m h) d e = ground arith
  Late-get id info q (later j x m l) d e =
      let other = OneOf-ne id j (keys m) (Late-OneOf id l) d.0 in
      Late-get id info q l d.1 (ground arith)

  found_late :
      (pool pool' : QueryPool Info TQuery) (id : ℕ) (info : Info) (q : TQuery) (e : Event Node)
      → Distinct (keys pool.queries)
      → Timed e pool.queries
      → report api e pool ≡ some (timeout_query id info q, pool')
      → t ≤ elapsed api now q
  found_late pool pool' id info q quiet d l h = absurd (not_timeout pool.queries (ground arith))
    where
      not_timeout : (m : HashMap (Info × TQuery)) → is_idle api m ≢ timeout_query id info q
      not_timeout [] e = cc
      not_timeout (x ∷ m) e = cc
  found_late pool pool' id info q (finishes j) d l h = absurd (ground arith)
  found_late pool pool' id info q (contacts j n) d l h = absurd (ground arith)
  found_late pool pool' id info q (times_out j) d l h =
      elim (Option-cases (HashMap.get j pool.queries)) [
        | inl gone ↦ absurd (ground arith)
        | inr ((info', q'), e) ↦
            let same : q' ≡ q = ground arith in
            subst (λ (x : TQuery). t ≤ elapsed api now x) same (Late-get j info' q' l d e)
      ]

  found_quiet :
      (pool pool' : QueryPool Info TQuery) (e : Event Node)
      → Timed e pool.queries
      → report api e pool ≡ some (waiting_for none, pool')
      → AllInTime pool'.queries
  found_quiet pool pool' quiet l h = let same : pool' ≡ pool = ground arith in rw same l
  found_quiet pool pool' (finishes j) l h = absurd (ground arith)
  found_quiet pool pool' (contacts j n) l h = absurd (ground arith)
  found_quiet pool pool' (times_out j) l h = absurd (ground arith)

module _ {Info TQuery Node Response Result : Type 0} (api : Query TQuery Node Response Result)
    (V : TQuery → Type 0) where
  -- In a valid pool, whose kind of query keeps the laws of `QueryLaws`, a query that a poll
  -- reports as timed out has run for `query_timeout` at least; and when the poll reports that the
  -- pool only waits, every query in it has run for less.
  pub poll_timeouts :
      (laws : QueryLaws api V) (pool pool' : QueryPool Info TQuery) (now : ℕ)
      (s : QueryPoolState Info TQuery Node)
      → IsValid V pool
      → poll api pool now ≡ some (s, pool')
      → ((id : ℕ) (info : Info) (q : TQuery)
          → s ≡ timeout_query id info q
          → pool.query_timeout ≤ elapsed api now q)
        × (s ≡ waiting_for none → AllInTime api now pool.query_timeout pool'.queries)
  unfolding poll
  poll_timeouts laws pool pool' now s v =
      go (poll_queries api now pool.query_timeout pool.queries)
        (poll_queries-TimedLoop api now pool.query_timeout pool.queries)
        (poll_queries-Looped api V laws now pool.query_timeout pool.queries v.queries_valid)
    where
      go :
          (o : Option (Event Node × HashMap (Info × TQuery)))
          → TimedLoop api now pool.query_timeout o
          → Looped api V laws pool.queries o
          → (o >>= λ (event, queries'). report api event (record pool { queries = queries' }))
            ≡ some (s, pool')
          → ((id : ℕ) (info : Info) (q : TQuery)
              → s ≡ timeout_query id info q
              → pool.query_timeout ≤ elapsed api now q)
            × (s ≡ waiting_for none → AllInTime api now pool.query_timeout pool'.queries)
      go none l a h = cc
      go (some (e, m)) l a h = (
        λ id info q x.
            found_late api now pool.query_timeout (record pool { queries = m }) pool' id info q e
              (subst Distinct (sym a.1) v.distinct) l
              (h ∙ ap (λ (y : QueryPoolState Info TQuery Node). some (y, pool')) x),
        λ x.
            found_quiet api now pool.query_timeout (record pool { queries = m }) pool' e l
              (h ∙ ap (λ (y : QueryPoolState Info TQuery Node). some (y, pool')) x),
      )
