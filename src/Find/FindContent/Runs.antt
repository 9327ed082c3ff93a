-- ===== src/Find/FindContent/Runs.antt =====
-- Histories of calls on a FindContentQuery, in any order: the overlay reports answers and failures
-- and polls as they come.
use mathlib.Core.Option.{some-injective}
use trin.Prelude.{
  sym, subst, ℕ, ◌+◌, ◌<◌, ◌≡◌, refl, ◌∙◌, ap, Option, none, some, List, [], ◌∷◌, arith, length,
  ◌>>=◌,
}
use trin.Prelude.Words.{usize_mod}
use trin.BTreeMap.{get}
use trin.Find.KeySpace.{KeySpace, IsKeySpace}
use trin.Find.Query.{QueryConfig, QueryPeer, QueryPeerState, QueryState}
use trin.Find.Query.States.{PeerStep, PeerSteps, begin, then_step}
use trin.Find.ClosestPeers.Consistent.{Fits}
use trin.Find.ClosestPeers.Evolution.{Evolves, Evolves-refl, unknown, discovered, moves}
use trin.Find.ClosestPeers.Size.{length-initial_peers}
use trin.Find.FindContent.{
  FindContentQuery, FindContentQueryResponse, with_config, start, on_failure, on_success, poll,
}
use trin.Find.FindContent.Valid.{
  IsValid, Returns, PollReturns, with_config-IsValid, on_failure-Returns, on_success-Returns,
  poll-PollReturns,
}
use trin.Find.FindContent.Growth.{
  GrowsBy, ReturnGrowsBy, brought, PollGrowsBy, on_failure-ReturnGrowsBy, on_success-ReturnGrowsBy,
  poll-PollGrowsBy,
}
use trin.Find.FindContent.Evolution.{
  on_failure-EvolvesTo, EvolvesTo, on_success-EvolvesTo, PollEvolvesTo, poll-PollEvolvesTo,
}

pub data Call (Node : Type 0) : Type 0 where
  starts : ℕ → Call Node
  fails : Node → Call Node
  succeeds : Node → FindContentQueryResponse Node → Call Node
  polls : ℕ → Call Node

-- How many peers a call can bring in.
abbrev pub brings : {Node : Type 0} → Call Node → ℕ
brings (starts now) = 0
brings (fails peer) = 0
brings (succeeds peer response) = brought response
brings (polls now) = 0

abbrev pub bring_all : {Node : Type 0} → List (Call Node) → ℕ
bring_all [] = 0
bring_all (c ∷ cs) = brings c + bring_all cs

module _ {Node Key : Type 0} (ks : KeySpace Node Key) where
  abbrev after_poll :
      Option (QueryState Node × FindContentQuery Node Key) → Option (FindContentQuery Node Key)
  after_poll none = none
  after_poll (some (s, q)) = some q

  pub call : FindContentQuery Node Key → Call Node → Option (FindContentQuery Node Key)
  call q (starts now) = some (start q now)
  call q (fails peer) = on_failure ks q peer
  call q (succeeds peer response) = on_success ks q peer response
  call q (polls now) = after_poll (poll ks q now)

  pub run : FindContentQuery Node Key → List (Call Node) → Option (FindContentQuery Node Key)
  run q [] = some q
  run q (c ∷ cs) = call q c >>= λ q'. run q' cs

  -- A call that returns a valid query, with the peers moved by steps and at most `n` more of them.
  abbrev Moves : FindContentQuery Node Key → ℕ → Option (FindContentQuery Node Key) → Type 0
  Moves q n none = ⊥
  Moves q n (some q') = IsValid ks q' × Evolves q.closest_peers q'.closest_peers × GrowsBy n q q'

  returned-Moves :
      (q : FindContentQuery Node Key) (n : ℕ) (o : Option (FindContentQuery Node Key))
      → Returns ks o
      → EvolvesTo ks q o
      → ReturnGrowsBy ks n q o
      → Moves q n o
  returned-Moves q n none v e g = v
  returned-Moves q n (some q') v e g = (v, e, g)

  polled-Moves :
      (q : FindContentQuery Node Key) (o : Option (QueryState Node × FindContentQuery Node Key))
      → PollReturns ks o
      → PollEvolvesTo ks q o
      → PollGrowsBy ks 0 q o
      → Moves q 0 (after_poll o)
  polled-Moves q none v e g = v
  polled-Moves q (some (s, q')) v e g = (v, e, g)

  call-Moves :
      (laws : IsKeySpace ks) (q : FindContentQuery Node Key) (c : Call Node)
      → IsValid ks q
      → Fits q.closest_peers
      → Moves q (brings c) (call q c)
  unfolding call start
  call-Moves laws q (starts now) v fits = (v, Evolves-refl q.closest_peers, omega arith)
  call-Moves laws q (fails peer) v fits =
      returned-Moves q 0 (on_failure ks q peer) (on_failure-Returns ks q peer v fits)
        (on_failure-EvolvesTo ks q peer) (on_failure-ReturnGrowsBy ks q peer)
  call-Moves laws q (succeeds peer response) v fits =
      returned-Moves q (brought response) (on_success ks q peer response)
        (on_success-Returns ks laws q peer response v fits)
        (on_success-EvolvesTo ks q peer response v) (on_success-ReturnGrowsBy ks q peer response)
  call-Moves laws q (polls now) v fits =
      polled-Moves q (poll ks q now) (poll-PollReturns ks q now v fits)
        (poll-PollEvolvesTo ks q now) (poll-PollGrowsBy ks q now)

  -- Every peer known before is known after, and got there by steps.
  abbrev pub Advances : FindContentQuery Node Key → FindContentQuery Node Key → Type 0
  Advances q q' =
      (d : ℕ) (p : QueryPeer Key)
      → get d q.closest_peers ≡ some p
      → (p' : QueryPeer Key) × (get d q'.closest_peers ≡ some p')
        × (p'.key ≡ p.key)
        × PeerSteps p.state p'.state

  -- A history that ends in a valid query.
  abbrev pub RunsFrom : FindContentQuery Node Key → Option (FindContentQuery Node Key) → Type 0
  RunsFrom q none = ⊥
  RunsFrom q (some q') = IsValid ks q' × Advances q q'

  Advances-refl : (q : FindContentQuery Node Key) → Advances q q
  Advances-refl q d p h = (p, h, refl, begin)

  PeerSteps-front : {s t u : QueryPeerState} → PeerStep s t → PeerSteps t u → PeerSteps s u
  PeerSteps-front a begin = then_step begin a
  PeerSteps-front a (then_step b c) = then_step (PeerSteps-front a b) c

  Advances-front :
      (q q' q'' : FindContentQuery Node Key)
      → Evolves q.closest_peers q'.closest_peers
      → Advances q' q''
      → Advances q q''
  Advances-front q q' q'' e a d p h = elim (e d) [
    | unknown x y ↦ absurd (ground arith)
    | discovered p' x y n ↦ absurd (ground arith)
    | moves p1 p' x y k st ↦ join p1 p' x k st (a d p' y)
  ]
    where
      join :
          (p1 p' : QueryPeer Key)
          → get d q.closest_peers ≡ some p1
          → p'.key ≡ p1.key
          → PeerStep p1.state p'.state
          → ((p'' : QueryPeer Key) × (get d q''.closest_peers ≡ some p'')
              × (p''.key ≡ p'.key)
              × PeerSteps p'.state p''.state)
          → (p'' : QueryPeer Key) × (get d q''.closest_peers ≡ some p'')
            × (p''.key ≡ p.key)
            × PeerSteps p.state p''.state
      join p1 p' x k st (p'', y, k', steps) =
          let same : p1 ≡ p = some-injective _ _ (sym x ∙ h) in
          (
            p'',
            y,
            k' ∙ k ∙ ap (λ (z : QueryPeer Key). z.key) same,
            subst (λ (z : QueryPeer Key). PeerSteps z.state p''.state) same
                (PeerSteps-front st steps),
          )

  run-RunsFrom :
      (laws : IsKeySpace ks) (q : FindContentQuery Node Key) (cs : List (Call Node))
      → IsValid ks q
      → length q.closest_peers + bring_all cs < usize_mod
      → RunsFrom q (run q cs)
  unfolding run
  run-RunsFrom laws q [] v fits = (v, Advances-refl q)
  run-RunsFrom laws q (c ∷ cs) v fits =
      rest (call q c) (call-Moves laws q c v (omega arith))
        (λ q' v' g. run-RunsFrom laws q' cs v' (omega arith))
    where
      onwards :
          (q' : FindContentQuery Node Key) (o : Option (FindContentQuery Node Key))
          → Evolves q.closest_peers q'.closest_peers
          → RunsFrom q' o
          → RunsFrom q o
      onwards q' none e r = r
      onwards q' (some q'') e (v', a) = (v', Advances-front q q' q'' e a)

      rest :
          (o : Option (FindContentQuery Node Key))
          → Moves q (brings c) o
          → ((q' : FindContentQuery Node Key)
              → IsValid ks q'
              → GrowsBy (brings c) q q'
              → RunsFrom q' (run q' cs))
          → RunsFrom q (o >>= λ q'. run q' cs)
      rest none m ih = m
      rest (some q') (v', e, g) ih = onwards q' (run q' cs) e (ih q' v' g)

  -- Where the distance is symmetric and the configuration and the calls bring fewer peers than a
  -- `usize` counts: whatever is called on a new query, in whatever order, no assertion fails; it
  -- stays valid, and each peer stays known and moves by the steps of `PeerStep` alone.
  pub content_run-with_config :
      (laws : IsKeySpace ks) (config : QueryConfig) (target : Key) (known : List Key)
      (cs : List (Call Node))
      → config.num_results + bring_all cs < usize_mod
      → RunsFrom (with_config ks config target known) (run (with_config ks config target known) cs)
  unfolding with_config
  content_run-with_config laws config target known cs fits =
      run-RunsFrom laws (with_config ks config target known) cs
        (with_config-IsValid ks config target known)
        (omega (arith, length-initial_peers ks config target known))
