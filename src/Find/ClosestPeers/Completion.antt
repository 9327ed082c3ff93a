-- ===== src/Find/ClosestPeers/Completion.antt =====
-- What it means that the loop of `poll` completes a query.
use Prim.Native.Nat.{max}
use trin.Prelude.{
  ℕ, suc, ◌+◌, ◌-◌, ◌≤◌, ◌<◌, ◌≡◌, ◌≢◌, sym, ◌⊎◌, inl, inr, Bool, Option, none, some, ◌∷◌, arith,
  length, subst,
}
use trin.Prelude.Words.{usize_mod}
use trin.Find.KeySpace.{KeySpace}
use trin.Find.Query.{QueryConfig, QueryPeer, succeeded}
use trin.Find.ClosestPeers.{Peers, Exit, complete, stop, next, visit, succeeded_nodes}
use trin.Find.ClosestPeers.Scanned.{Scanned, ends, leaves, goes_on}
use trin.Find.ClosestPeers.Exits.{IsSettled}

-- From the nearest peer on, each one is settled until `n` have succeeded.
pub data Satisfied {Key : Type 0} : ℕ → Peers Key → Type 0 where
  enough : (m : Peers Key) → Satisfied 0 m
  one_more :
      (n : ℕ) (d : ℕ) (p : QueryPeer Key) (m : Peers Key)
      → p.state ≡ succeeded
      → Satisfied n m
      → Satisfied (suc n) ((d, p) ∷ m)
  passed :
      (n : ℕ) (d : ℕ) (p : QueryPeer Key) (m : Peers Key)
      → p.state ≢ succeeded
      → IsSettled p.state
      → Satisfied n m
      → Satisfied n ((d, p) ∷ m)

module _ {Node Key : Type 0} (ks : KeySpace Node Key) where
  -- So `n` results at least are at hand.
  pub Satisfied-length : {n : ℕ} {m : Peers Key} → Satisfied n m → n ≤ length (succeeded_nodes ks m)
  unfolding succeeded_nodes
  Satisfied-length (enough m) = omega arith
  Satisfied-length (one_more n d p m e s) = ground (arith, Satisfied-length s)
  Satisfied-length (passed n d p m e f s) = ground (arith, Satisfied-length s)

module _ {Node Key : Type 0} (ks : KeySpace Node Key) (c : QueryConfig) (now : ℕ)
    (busy : Bool) where
  complete_turn :
      (w k n : ℕ) (r : Option ℕ) (p : QueryPeer Key) {e : Exit Node} {w' : ℕ} {p' : QueryPeer Key}
      → visit ks c now busy w r p ≡ stop e w' p'
      → r ≡ some k
      → e ≡ complete
      → k + 1 < usize_mod
      → k + n ≡ max c.num_results (suc k)
      → (p'.state ≡ succeeded) × (n ≡ 1)
  unfolding visit
  complete_turn w k n r p v x y fits h = ground arith

  -- While results are counted, a turn goes past a settled peer or counts one more result; or it
  -- ends the counting.
  counting_turn :
      (w k n : ℕ) (r : Option ℕ) (p : QueryPeer Key) {w' : ℕ} {r' : Option ℕ} {p' : QueryPeer Key}
      → visit ks c now busy w r p ≡ next w' r' p'
      → r ≡ some k
      → k + 1 < usize_mod
      → k + n ≡ max c.num_results (suc k)
      → (r' ≡ none)
        ⊎ ((r' ≡ some k) × (p'.state ≢ succeeded) × IsSettled p'.state)
        ⊎ ((r' ≡ some (suc k)) × (p'.state ≡ succeeded) × (2 ≤ n) × (suc k < c.num_results))
  unfolding visit
  counting_turn w k n r p v x fits h = ground arith

  not_counting :
      (w : ℕ) (r : Option ℕ) (p : QueryPeer Key) {w' : ℕ} {r' : Option ℕ} {p' : QueryPeer Key}
      → visit ks c now busy w r p ≡ next w' r' p'
      → r ≡ none
      → r' ≡ none
  unfolding visit
  not_counting w r p v x = ground arith

  not_completing :
      (w : ℕ) (r : Option ℕ) (p : QueryPeer Key) {w' : ℕ} {p' : QueryPeer Key} {e : Exit Node}
      → visit ks c now busy w r p ≡ stop e w' p'
      → r ≡ none
      → e ≢ complete
  unfolding visit
  not_completing w r p v x y = ground arith

  uncounted :
      {w : ℕ} {r : Option ℕ} {m m' : Peers Key} {e : Exit Node} {w' : ℕ}
      → Scanned ks c now busy w r m e w' m'
      → r ≡ none
      → e ≢ complete
  uncounted (ends _ _) x y = cc
  uncounted {w} {r} (leaves _ _ d p m e w' p' v) x y = not_completing w r p v x y
  uncounted {w} {r} (goes_on _ _ d p m w1 r1 p' e w' m' v t) x y =
      uncounted t (not_counting w r p v x) y

  -- A completed query has its results, and no nearer peer is still to answer: `n` results are
  -- missing when `k` are counted.
  pub completes :
      (k n : ℕ) {w : ℕ} {r : Option ℕ} {m m' : Peers Key} {e : Exit Node} {w' : ℕ}
      → Scanned ks c now busy w r m e w' m'
      → r ≡ some k
      → e ≡ complete
      → k + length m < usize_mod
      → k + n ≡ max c.num_results (suc k)
      → Satisfied n m'
  completes k n (ends _ _) x y fits h = cc
  completes k n {w} {r} (leaves _ _ d p m e w' p' v) x y fits h =
      let f = complete_turn w k n r p v x y (omega arith) h in
      subst (λ j. Satisfied j ((d, p') ∷ m)) (sym f.1) (one_more 0 d p' m f.0 (enough m))
  completes k n {w} {r} (goes_on _ _ d p m w1 r1 p' e w' m' v t) x y fits h =
      elim (counting_turn w k n r p v x (omega arith) h) [
        | inl lost ↦ absurd (uncounted t lost y)
        | inr (inl (same, dead, settled)) ↦
            passed n d p' m' dead settled (completes k n t same y (omega arith) h)
        | inr (inr (more, won, left, below)) ↦
            let e' : n ≡ suc (n - 1) = omega arith in
            subst (λ j. Satisfied j ((d, p') ∷ m')) (sym e')
              (one_more (n - 1) d p' m' won
                (completes (suc k) (n - 1) t more y (omega arith) (omega arith)))
      ]
