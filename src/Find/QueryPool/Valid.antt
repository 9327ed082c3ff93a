-- ===== src/Find/QueryPool/Valid.antt =====
-- The invariant of a QueryPool, and what the loop of `poll` keeps.
use trin.Prelude.{
  ℕ, ◌-◌, ◌<◌, ◌≡◌, refl, ap, inl, inr, Option, none, some, List, [], ◌∷◌, leb, ◌==◌, All,
  Bool-cases,
}
use trin.HashMap
use trin.HashMap.{HashMap, keys}
use trin.HashMap.Laws.{OneOf, Distinct}
use trin.Find.Query.{QueryState, waiting_on, waiting_at_capacity, done, Query}
use trin.Find.QueryPool.{
  QueryPool, Event, quiet, finishes, contacts, times_out, or_now, start_if_new, put_back, on_state,
  poll_queries,
}

-- What the pool relies on in a kind of query: a valid query can be started, and polled without a
-- panic, and stays valid.
pub record QueryLaws {TQuery Node Response Result : Type 0}
    (api : Query TQuery Node Response Result) (V : TQuery → Type 0) : Type 0 where
  pub start-V : (q : TQuery) (now : ℕ) → V q → V (api.start q now)
  pub poll-V :
      (q : TQuery) (now : ℕ)
      → V q
      → (s : QueryState Node) × (q' : TQuery) × (api.poll q now ≡ some (s, q')) × V q'

module _ {Info TQuery : Type 0} (V : TQuery → Type 0) where
  abbrev pub AllValid : HashMap (Info × TQuery) → Type 0
  AllValid [] = Unit
  AllValid ((id, (info, q)) ∷ m) = V q × AllValid m

  -- The queries are valid, and their ids distinct and below the next one.
  pub record IsValid (pool : QueryPool Info TQuery) : Type 0 where
    pub queries_valid : AllValid pool.queries
    pub distinct : Distinct (keys pool.queries)
    pub below : All (λ id. id < pool.next_id) (keys pool.queries)

  pub AllValid-remove :
      (id : ℕ) (m : HashMap (Info × TQuery)) → AllValid m → AllValid (HashMap.remove id m)
  unfolding HashMap.remove
  AllValid-remove id [] h = tt
  AllValid-remove id ((j, (info, q)) ∷ m) h = elim (Bool-cases (j == id)) [
    | inl here ↦ rw here h.1
    | inr there ↦ rw there (h.0, AllValid-remove id m h.1)
  ]

-- The query that an event names.
abbrev pub Names : {Node : Type 0} → Event Node → List ℕ → Type 0
Names quiet ids = Unit
Names (finishes id) ids = OneOf id ids
Names (contacts id n) ids = OneOf id ids
Names (times_out id) ids = OneOf id ids

start_if_new-V :
    {TQuery Node Response Result : Type 0} (api : Query TQuery Node Response Result)
    (V : TQuery → Type 0) (laws : QueryLaws api V) (q : TQuery) (now : ℕ) (o : Option ℕ)
    → V q
    → V (start_if_new api now q o)
start_if_new-V api V laws q now none v = laws.start-V q now v
start_if_new-V api V laws q now (some t) v = v

module _ {Info TQuery Node Response Result : Type 0} (api : Query TQuery Node Response Result)
    (V : TQuery → Type 0) (laws : QueryLaws api V) where
  abbrev pub Looped :
      HashMap (Info × TQuery) → Option (Event Node × HashMap (Info × TQuery)) → Type 0
  Looped m none = ⊥
  Looped m (some (e, m')) = AllValid V m' × (keys m' ≡ keys m) × Names e (keys m)

  put_back-Looped :
      (id : ℕ) (info : Info) (q q' : TQuery) (m : HashMap (Info × TQuery))
      (o : Option (Event Node × HashMap (Info × TQuery)))
      → V q'
      → Looped m o
      → Looped ((id, (info, q)) ∷ m) (put_back api id info q' o)
  put_back-Looped id info q q' m none v l = l
  put_back-Looped id info q q' m (some (e, m')) v l = ((v, l.0), ap (◌∷◌ id) l.1, later e l.2)
    where
      later : (e : Event Node) → Names e (keys m) → Names e (id ∷ keys m)
      later quiet h = tt
      later (finishes j) h = inr h
      later (contacts j n) h = inr h
      later (times_out j) h = inr h

  on_state-Looped :
      (now t id : ℕ) (info : Info) (q q' : TQuery) (s : QueryState Node)
      (m : HashMap (Info × TQuery)) (rest : Option (Event Node × HashMap (Info × TQuery)))
      → AllValid V m
      → V q'
      → Looped m rest
      → Looped ((id, (info, q)) ∷ m) (on_state api now t id info m rest (s, q'))
  on_state-Looped now t id info q q' done m rest a v l = ((v, a), refl, inl refl)
  on_state-Looped now t id info q q' (waiting_on (some n)) m rest a v l = ((v, a), refl, inl refl)
  on_state-Looped now t id info q q' (waiting_on none) m rest a v l =
      elim (Bool-cases (leb t (now - or_now now (api.started q')))) [
        | inl late ↦ rw late ((v, a), refl, inl refl)
        | inr early ↦ rw early (put_back-Looped id info q q' m rest v l)
      ]
  on_state-Looped now t id info q q' waiting_at_capacity m rest a v l =
      elim (Bool-cases (leb t (now - or_now now (api.started q')))) [
        | inl late ↦ rw late ((v, a), refl, inl refl)
        | inr early ↦ rw early (put_back-Looped id info q q' m rest v l)
      ]

  pub poll_queries-Looped :
      (now t : ℕ) (m : HashMap (Info × TQuery)) → AllValid V m → Looped m (poll_queries api now t m)
  unfolding poll_queries
  poll_queries-Looped now t [] a = (tt, refl, tt)
  poll_queries-Looped now t ((id, (info, q)) ∷ m) a =
      let (s, q', e, v) =
        laws.poll-V (start_if_new api now q (api.started q)) now
          (start_if_new-V api V laws q now (api.started q) a.0) in
      rw e (
        on_state-Looped now t id info q q' s m (poll_queries api now t m) a.1 v
          (poll_queries-Looped now t m a.1))
