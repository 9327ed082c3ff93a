-- ===== src/Find/ClosestPeers/Chosen.antt =====
-- What `into_result` picks: the nearest peers that succeeded.
use trin.Prelude.{
  ℕ, ap, ◌∙◌, ◌≢◌, zero, suc, ◌≤◌, ◌<◌, ◌≡◌, refl, ◌⊎◌, inl, inr, some, List, [], ◌∷◌, arith,
  length, take, All,
}
use trin.BTreeMap.{get}
use trin.BTreeMap.Order.{From}
use trin.BTreeMap.Lookup.{get_below}
use trin.Find.KeySpace.{KeySpace}
use trin.Find.Query.{
  QueryPeer, QueryPeerState, not_contacted, waiting, unresponsive, failed, succeeded,
}
use trin.Find.ClosestPeers.{Peers, keep_succeeded, succeeded_nodes}

module _ {Node Key : Type 0} (ks : KeySpace Node Key) where
  -- The node of a peer that succeeded and stands at the distance `d`.
  abbrev pub SucceededAt : Peers Key → ℕ → Node → Type 0
  SucceededAt m d n =
      (p : QueryPeer Key) × (get d m ≡ some p) × (p.state ≡ succeeded) × (ks.preimage p.key ≡ n)

  -- A list of nodes that succeeded, by rising distance, none below `b`.
  pub data Ranked (m : Peers Key) : ℕ → List Node → Type 0 where
    nobody : (b : ℕ) → Ranked m b []
    nearest :
        (b d : ℕ) (n : Node) (rest : List Node)
        → b ≤ d
        → SucceededAt m d n
        → Ranked m (suc d) rest
        → Ranked m b (n ∷ rest)

  pub Ranked-lower :
      {m : Peers Key} {b : ℕ} {l : List Node} (a : ℕ) → a ≤ b → Ranked m b l → Ranked m a l
  Ranked-lower a h (nobody b) = nobody a
  Ranked-lower a h (nearest b d n rest p s r) = nearest a d n rest (omega arith) s r

  pub Ranked-take :
      {m : Peers Key} (k : ℕ) {b : ℕ} {l : List Node} → Ranked m b l → Ranked m b (take k l)
  Ranked-take zero (nobody b) = nobody b
  Ranked-take (suc k) (nobody b) = nobody b
  Ranked-take zero (nearest b d n rest p s r) = nobody b
  Ranked-take (suc k) (nearest b d n rest p s r) = nearest b d n (take k rest) p s (Ranked-take k r)

  -- A suffix of the peers, whose lookups agree with those of all of them.
  abbrev Part : Peers Key → Peers Key → Type 0
  Part s m = (e : ℕ) (q : QueryPeer Key) → get e s ≡ some q → get e m ≡ some q

  Part-tail :
      (d : ℕ) (p : QueryPeer Key) (s m : Peers Key)
      → From (suc d) s
      → Part ((d, p) ∷ s) m
      → Part s m
  unfolding get
  Part-tail d p s m h part e q g = part e q (ground (arith, get_below (suc d) d s h))

  Part-head : (d : ℕ) (p : QueryPeer Key) (s m : Peers Key) → Part ((d, p) ∷ s) m → get d m ≡ some p
  unfolding get
  Part-head d p s m part = part d p (ground arith)

  Ranked-Part : (b : ℕ) (s m : Peers Key) → From b s → Part s m → Ranked m b (succeeded_nodes ks s)
  unfolding succeeded_nodes
  Ranked-Part b [] m h part = nobody b
  Ranked-Part b ((d, p) ∷ s) m h part =
      add p.state refl (Ranked-Part (suc d) s m h.1 (Part-tail d p s m h.1 part))
    where
      add :
          (st : QueryPeerState)
          → p.state ≡ st
          → Ranked m (suc d) (succeeded_nodes ks s)
          → Ranked m b (keep_succeeded ks p st (succeeded_nodes ks s))
      add succeeded e r =
          nearest b d (ks.preimage p.key) _ h.0 (p, Part-head d p s m part, e, refl) r
      add not_contacted e r = Ranked-lower b (omega (arith, h.0)) r
      add (waiting t) e r = Ranked-lower b (omega (arith, h.0)) r
      add unresponsive e r = Ranked-lower b (omega (arith, h.0)) r
      add failed e r = Ranked-lower b (omega (arith, h.0)) r

  -- The nodes that succeeded come out by rising distance.
  pub succeeded_nodes-Ranked : (m : Peers Key) → From 0 m → Ranked m 0 (succeeded_nodes ks m)
  succeeded_nodes-Ranked m h = Ranked-Part 0 m m h (λ e q g. g)

  -- A node that stands in a list.
  abbrev pub Among : Node → List Node → Type 0
  Among n [] = ⊥
  Among n (x ∷ xs) = (x ≡ n) ⊎ Among n xs

  -- `k` nodes are chosen, all nearer than `d`.
  abbrev pub Crowded : Peers Key → ℕ → ℕ → List Node → Type 0
  Crowded m d k l = (length l ≡ k) × All (λ n. (e : ℕ) × (e < d) × SucceededAt m e n) l

  -- What is known of a peer at `d` within the first `k`.
  abbrev Chosen : Peers Key → ℕ → QueryPeer Key → ℕ → List Node → Type 0
  Chosen m d p k l = Among (ks.preimage p.key) (take k l) ⊎ Crowded m d k (take k l)

  find_cases :
      (d f : ℕ) (p q : QueryPeer Key) (s : Peers Key)
      → From (suc f) s
      → get d ((f, q) ∷ s) ≡ some p
      → (q ≡ p) ⊎ ((f < d) × (get d s ≡ some p))
  unfolding get
  find_cases d f p q s h g = ground (arith, get_below (suc f) d s h)

  Chosen-step :
      (k d f : ℕ) (p q : QueryPeer Key) (s m : Peers Key)
      → From (suc f) s
      → get f m ≡ some q
      → get d ((f, q) ∷ s) ≡ some p
      → p.state ≡ succeeded
      → ((j : ℕ) → get d s ≡ some p → Chosen m d p j (succeeded_nodes ks s))
      → Chosen m d p (suc k) (succeeded_nodes ks ((f, q) ∷ s))
  unfolding succeeded_nodes
  Chosen-step k d f p q s m h at g e ih = add q.state refl
    where
      rest : List Node
      rest = succeeded_nodes ks s

      cases : (q ≡ p) ⊎ ((f < d) × (get d s ≡ some p))
      cases = find_cases d f p q s h g

      other : q.state ≢ succeeded → Chosen m d p (suc k) rest
      other ne = elim cases [
        | inl same ↦ absurd (ne (ap (λ (y : QueryPeer Key). y.state) same ∙ e))
        | inr later ↦ ih (suc k) later.1
      ]

      add :
          (st : QueryPeerState) → q.state ≡ st → Chosen m d p (suc k) (keep_succeeded ks q st rest)
      add succeeded a = elim cases [
        | inl same ↦ inl (inl (ap (λ (y : QueryPeer Key). ks.preimage y.key) same))
        | inr later ↦ elim (ih k later.1) [
          | inl among ↦ inl (inr among)
          | inr (n, all) ↦ inr (ap suc n, ((f, later.0, (q, at, a, refl)), all))
        ]
      ]
      add not_contacted a = other (λ x. cc)
      add (waiting t) a = other (λ x. cc)
      add unresponsive a = other (λ x. cc)
      add failed a = other (λ x. cc)

  Chosen-Part :
      (b k d : ℕ) (p : QueryPeer Key) (s m : Peers Key)
      → From b s
      → Part s m
      → get d s ≡ some p
      → p.state ≡ succeeded
      → Chosen m d p k (succeeded_nodes ks s)
  unfolding get
  Chosen-Part b zero d p [] m h part g e = cc
  Chosen-Part b zero d p ((f, q) ∷ s) m h part g e = inr (refl, tt)
  Chosen-Part b (suc k) d p [] m h part g e = cc
  Chosen-Part b (suc k) d p ((f, q) ∷ s) m h part g e =
      Chosen-step k d f p q s m h.1 (Part-head f q s m part) g e
        (λ j found. Chosen-Part (suc f) j d p s m h.1 (Part-tail f q s m h.1 part) found e)

  -- A peer that succeeded is among the first `k`, or `k` nearer ones are.
  pub succeeded_nodes_nearest :
      (k d : ℕ) (p : QueryPeer Key) (m : Peers Key)
      → From 0 m
      → get d m ≡ some p
      → p.state ≡ succeeded
      → Chosen m d p k (succeeded_nodes ks m)
  succeeded_nodes_nearest k d p m h g e = Chosen-Part 0 k d p m m h (λ f q x. x) g e
