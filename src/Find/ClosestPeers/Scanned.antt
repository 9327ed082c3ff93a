-- ===== src/Find/ClosestPeers/Scanned.antt =====
-- The loop of `poll` as a relation, with a rule for each way to leave or to go through a turn.
use trin.Prelude.{ℕ, ◌≡◌, refl, Bool, Option, none, some, [], ◌∷◌}
use trin.Find.KeySpace.{KeySpace}
use trin.Find.Query.{QueryConfig, QueryPeer}
use trin.Find.ClosestPeers.{
  Peers, Exit, exhausted, Turn, stop, panic, next, Scan, visit, put_back, scan,
}

module _ {Node Key : Type 0} (ks : KeySpace Node Key) (c : QueryConfig) (now : ℕ)
    (busy : Bool) where
  pub data Scanned : ℕ → Option ℕ → Peers Key → Exit Node → ℕ → Peers Key → Type 0 where
    ends : (w : ℕ) (r : Option ℕ) → Scanned w r [] exhausted w []
    leaves :
        (w : ℕ) (r : Option ℕ) (d : ℕ) (p : QueryPeer Key) (m : Peers Key) (e : Exit Node) (w' : ℕ)
        (p' : QueryPeer Key)
        → visit ks c now busy w r p ≡ stop e w' p'
        → Scanned w r ((d, p) ∷ m) e w' ((d, p') ∷ m)
    goes_on :
        (w : ℕ) (r : Option ℕ) (d : ℕ) (p : QueryPeer Key) (m : Peers Key) (w' : ℕ) (r' : Option ℕ)
        (p' : QueryPeer Key) (e : Exit Node) (w'' : ℕ) (m' : Peers Key)
        → visit ks c now busy w r p ≡ next w' r' p'
        → Scanned w' r' m e w'' m'
        → Scanned w r ((d, p) ∷ m) e w'' ((d, p') ∷ m')

  -- The outcome of a loop that does not panic.
  abbrev pub Outcome : ℕ → Option ℕ → Peers Key → Option (Scan Node Key) → Type 0
  Outcome w r m none = Unit
  Outcome w r m (some s) = Scanned w r m s.exit s.num_waiting s.peers

  after_turn :
      (w : ℕ) (r : Option ℕ) (d : ℕ) (p : QueryPeer Key) (m : Peers Key) (t : Turn Node Key)
      → visit ks c now busy w r p ≡ t
      → ((w' : ℕ) (r' : Option ℕ) → Outcome w' r' m (scan ks c now busy w' r' m))
      → Outcome w r ((d, p) ∷ m) (elim t [
        | stop e w' p' ↦ some (record { exit = e; num_waiting = w'; peers = (d, p') ∷ m })
        | panic ↦ none
        | next w' r' p' ↦ put_back ks d p' (scan ks c now busy w' r' m)
      ])
  after_turn w r d p m (stop e w' p') h ih = leaves w r d p m e w' p' h
  after_turn w r d p m panic h ih = tt
  after_turn w r d p m (next w' r' p') h ih = through (scan ks c now busy w' r' m) (ih w' r')
    where
      through :
          (o : Option (Scan Node Key))
          → Outcome w' r' m o
          → Outcome w r ((d, p) ∷ m) (put_back ks d p' o)
      through none q = tt
      through (some s) q = goes_on w r d p m w' r' p' s.exit s.num_waiting s.peers h q

  pub scan-Outcome :
      (w : ℕ) (r : Option ℕ) (m : Peers Key) → Outcome w r m (scan ks c now busy w r m)
  unfolding scan
  scan-Outcome w r [] = ends w r
  scan-Outcome w r ((d, p) ∷ m) =
      after_turn w r d p m (visit ks c now busy w r p) refl (λ w' r'. scan-Outcome w' r' m)
