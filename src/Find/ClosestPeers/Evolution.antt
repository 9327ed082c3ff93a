-- ===== src/Find/ClosestPeers/Evolution.antt =====
-- What an operation does to each peer of a query: nothing is forgotten, a peer's state goes by
-- `PeerStep`, and a new peer has not been contacted.
use mathlib.Core.Path.{subst₂}
use trin.Prelude.{
  ℕ, ◌+◌, ◌≡◌, ◌⊎◌, refl, sym, ◌∙◌, subst, inl, inr, Bool, Option, none, some, List, [], ◌∷◌, arith,
  ◌==◌, Bool-cases, Option-cases, ==→≡,
}
use trin.BTreeMap.{get, set, or_insert}
use trin.BTreeMap.Order.{IsSorted, or_insert-From}
use trin.BTreeMap.Lookup.{get-set, get-or_insert}
use trin.Find.KeySpace.{KeySpace}
use trin.Find.Query.{
  QueryConfig, QueryPeer, new_peer, QueryPeerState, not_contacted, waiting, unresponsive,
}
use trin.Find.Query.States.{PeerStep, stays, contacted, timed_out}
use trin.Find.ClosestPeers.{Peers, Exit, stop, next, visit, incorporate}
use trin.Find.ClosestPeers.Scanned.{Scanned, ends, leaves, goes_on}

-- One peer before and after an operation.
pub data Becomes {Key : Type 0} (o q : Option (QueryPeer Key)) : Type 0 where
  unknown : o ≡ none → q ≡ none → Becomes o q
  discovered : (p : QueryPeer Key) → o ≡ none → q ≡ some p → p.state ≡ not_contacted → Becomes o q
  moves :
      (p p' : QueryPeer Key)
      → o ≡ some p
      → q ≡ some p'
      → p'.key ≡ p.key
      → PeerStep p.state p'.state
      → Becomes o q

abbrev pub Evolves : {Key : Type 0} → Peers Key → Peers Key → Type 0
Evolves m m' = (d : ℕ) → Becomes (get d m) (get d m')

-- One peer before and after new peers come in.
pub data Grows {Key : Type 0} (o q : Option (QueryPeer Key)) : Type 0 where
  keeps : q ≡ o → Grows o q
  adds : (p : QueryPeer Key) → o ≡ none → q ≡ some p → p.state ≡ not_contacted → Grows o q

module _ {Key : Type 0} where
  Becomes-refl : (o : Option (QueryPeer Key)) → Becomes o o
  Becomes-refl none = unknown refl refl
  Becomes-refl (some p) = moves p p refl refl refl (stays p.state)

  pub Evolves-refl : (m : Peers Key) → Evolves m m
  Evolves-refl m d = Becomes-refl (get d m)

  Grows-trans : {o p q : Option (QueryPeer Key)} → Grows o p → Grows p q → Grows o q
  Grows-trans (keeps e) (keeps f) = keeps (f ∙ e)
  Grows-trans (keeps e) (adds x a b n) = adds x (sym e ∙ a) b n
  Grows-trans (adds x a b n) (keeps f) = adds x a (f ∙ b) n
  Grows-trans (adds x a b n) (adds y a' b' n') = cc

  Becomes-Grows : {o p q : Option (QueryPeer Key)} → Becomes o p → Grows p q → Becomes o q
  Becomes-Grows (unknown a b) (keeps f) = unknown a (f ∙ b)
  Becomes-Grows (unknown a b) (adds x a' b' n) = discovered x a b' n
  Becomes-Grows (discovered x a b n) (keeps f) = discovered x a (f ∙ b) n
  Becomes-Grows (discovered x a b n) (adds y a' b' n') = cc
  Becomes-Grows (moves x y a b k s) (keeps f) = moves x y a (f ∙ b) k s
  Becomes-Grows (moves x y a b k s) (adds z a' b' n) = cc

  -- A write of a further state over the peer that stands there.
  pub Evolves-set :
      (d : ℕ) (p p' : QueryPeer Key) (m : Peers Key)
      → get d m ≡ some p
      → p'.key ≡ p.key
      → PeerStep p.state p'.state
      → Evolves m (set d p' m)
  Evolves-set d p p' m h k st e = elim (Bool-cases (d == e)) [
    | inl same ↦
        moves p p' (ground (arith, ==→≡ d e same)) (ground (arith, get-set d e p' p m h)) k st
    | inr other ↦
        let e' : get e (set d p' m) ≡ get e m = ground (arith, get-set d e p' p m h) in
        Becomes-Grows (Becomes-refl (get e m)) (keeps e')
  ]

  or_insert-Grows :
      (d e : ℕ) (k : Key) (m : Peers Key)
      → IsSorted m
      → Grows (get e m) (get e (or_insert d (new_peer k not_contacted) m))
  or_insert-Grows d e k m s = elim (Bool-cases (d == e)) [
    | inl same ↦ elim (Option-cases (get e m)) [
      | inl new ↦
          adds (new_peer k not_contacted) new
            (ground (arith, get-or_insert 0 d e (new_peer k not_contacted) m s, ==→≡ d e same)) refl
      | inr (p, old) ↦
          keeps (ground (arith, get-or_insert 0 d e (new_peer k not_contacted) m s, ==→≡ d e same))
    ]
    | inr other ↦ keeps (ground (arith, get-or_insert 0 d e (new_peer k not_contacted) m s))
  ]

module _ {Node Key : Type 0} (ks : KeySpace Node Key) where
  pub incorporate-Grows :
      (c : QueryConfig) (target : Key) (n : ℕ) (response : List Node) (b : Bool) (m : Peers Key)
      (e : ℕ)
      → IsSorted m
      → Grows (get e m) (get e (incorporate ks c target n response b m).1)
  unfolding incorporate
  incorporate-Grows c target n [] b m e s = keeps refl
  incorporate-Grows c target n (x ∷ rest) b m e s =
      let d : ℕ = ks.distance target (ks.into_key x) in
      Grows-trans (or_insert-Grows d e (ks.into_key x) m s)
        (incorporate-Grows c target n rest _ _ e (or_insert-From 0 d _ m (omega arith) s))

  -- A response brings in new peers only.
  pub Evolves-incorporate :
      (c : QueryConfig) (target : Key) (n : ℕ) (response : List Node) (b : Bool) (m m' : Peers Key)
      → IsSorted m'
      → Evolves m m'
      → Evolves m (incorporate ks c target n response b m').1
  Evolves-incorporate c target n response b m m' s v e =
      Becomes-Grows (v e) (incorporate-Grows c target n response b m' e s)

module _ {Node Key : Type 0} (ks : KeySpace Node Key) (c : QueryConfig) (now : ℕ)
    (busy : Bool) where
  -- What one turn does to its peer.
  Turned : QueryPeer Key → QueryPeer Key → Type 0
  Turned p p' = (p'.key ≡ p.key) × PeerStep p.state p'.state

  Turned-same : (p p' : QueryPeer Key) → p' ≡ p → Turned p p'
  unfolding Turned
  Turned-same p p' e =
      subst (λ x. (x.key ≡ p.key) × PeerStep p.state x.state) (sym e) (refl, stays p.state)

  Turned-moves :
      (p p' : QueryPeer Key) {s s' : QueryPeerState}
      → p.state ≡ s
      → p'.state ≡ s'
      → p'.key ≡ p.key
      → PeerStep s s'
      → Turned p p'
  unfolding Turned
  Turned-moves p p' a b k st = (k, rw (a, b) st)

  leaves_cases :
      (w : ℕ) (r : Option ℕ) (p : QueryPeer Key) {e : Exit Node} {w' : ℕ} {p' : QueryPeer Key}
      → visit ks c now busy w r p ≡ stop e w' p'
      → (p' ≡ p)
        ⊎ ((p.state ≡ not_contacted)
            × (p'.state ≡ waiting (now + c.peer_timeout))
            × (p'.key ≡ p.key))
  unfolding visit
  leaves_cases w r p v = ground arith

  goes_on_cases :
      (w : ℕ) (r : Option ℕ) (p : QueryPeer Key) {w' : ℕ} {r' : Option ℕ} {p' : QueryPeer Key}
      → visit ks c now busy w r p ≡ next w' r' p'
      → (p' ≡ p) ⊎ ((t : ℕ) × (p.state ≡ waiting t) × (p'.state ≡ unresponsive) × (p'.key ≡ p.key))
  unfolding visit
  goes_on_cases w r p v = ground arith

  leaves-Turned :
      (w : ℕ) (r : Option ℕ) (p : QueryPeer Key) {e : Exit Node} {w' : ℕ} {p' : QueryPeer Key}
      → visit ks c now busy w r p ≡ stop e w' p'
      → Turned p p'
  leaves-Turned w r p {p' = p'} v = elim (leaves_cases w r p v) [
    | inl same ↦ Turned-same p p' same
    | inr (a, b, k) ↦ Turned-moves p p' a b k (contacted (now + c.peer_timeout))
  ]

  goes_on-Turned :
      (w : ℕ) (r : Option ℕ) (p : QueryPeer Key) {w' : ℕ} {r' : Option ℕ} {p' : QueryPeer Key}
      → visit ks c now busy w r p ≡ next w' r' p'
      → Turned p p'
  goes_on-Turned w r p {p' = p'} v = elim (goes_on_cases w r p v) [
    | inl same ↦ Turned-same p p' same
    | inr (t, a, b, k) ↦ Turned-moves p p' a b k (timed_out t)
  ]

  Becomes-entry :
      (d e : ℕ) (p p' : QueryPeer Key) (m m' : Peers Key)
      → Turned p p'
      → Becomes (get e m) (get e m')
      → Becomes (get e ((d, p) ∷ m)) (get e ((d, p') ∷ m'))
  unfolding get Turned
  Becomes-entry d e p p' m m' t b = elim (Bool-cases (e == d)) [
    | inl hit ↦ moves p p' (ground arith) (ground arith) t.0 t.1
    | inr miss ↦
        let old : get e ((d, p) ∷ m) ≡ get e m = ground arith in
        let new : get e ((d, p') ∷ m') ≡ get e m' = ground arith in
        subst₂ Becomes (sym old) (sym new) b
  ]

  -- The loop of `poll` moves each peer by a step.
  pub Evolves-Scanned :
      {w : ℕ} {r : Option ℕ} {m m' : Peers Key} {e : Exit Node} {w' : ℕ}
      → Scanned ks c now busy w r m e w' m'
      → Evolves m m'
  Evolves-Scanned (ends _ _) x = Evolves-refl [] x
  Evolves-Scanned {w} {r} (leaves _ _ d p m e w' p' v) x =
      Becomes-entry d x p p' m m (leaves-Turned w r p v) (Becomes-refl (get x m))
  Evolves-Scanned {w} {r} (goes_on _ _ d p m w1 r1 p' e w' m' v t) x =
      Becomes-entry d x p p' m m' (goes_on-Turned w r p v) (Evolves-Scanned t x)
