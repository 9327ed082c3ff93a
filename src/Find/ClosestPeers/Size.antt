-- ===== src/Find/ClosestPeers/Size.antt =====
-- How many peers a query knows: a response adds at most its length, and nothing else adds any.
use trin.Prelude.{
  ℕ, zero, suc, ◌+◌, ◌≤◌, ◌≡◌, refl, ap, Bool, Option, List, [], ◌∷◌, arith, length, take,
}
use trin.BTreeMap.{BTreeMap, or_insert, insert, set, collect}
use trin.Find.KeySpace.{KeySpace}
use trin.Find.Query.{QueryConfig, new_peer, not_contacted}
use trin.Find.ClosestPeers.{Peers, Exit, incorporate, initial_peers, initial_entries}
use trin.Find.ClosestPeers.Scanned.{Scanned, ends, leaves, goes_on}

module _ {ℓ} {V : Type ℓ} where
  length-or_insert : (d : ℕ) (v : V) (m : BTreeMap V) → length (or_insert d v m) ≤ suc (length m)
  unfolding or_insert
  length-or_insert d v [] = omega arith
  length-or_insert d v ((e, w) ∷ m) = ground (arith, length-or_insert d v m)

  length-insert : (d : ℕ) (v : V) (m : BTreeMap V) → length (insert d v m) ≤ suc (length m)
  unfolding insert
  length-insert d v [] = omega arith
  length-insert d v ((e, w) ∷ m) = ground (arith, length-insert d v m)

  pub length-set : (d : ℕ) (v : V) (m : BTreeMap V) → length (set d v m) ≡ length m
  unfolding set
  length-set d v [] = refl
  length-set d v ((e, w) ∷ m) = ground (arith, length-set d v m)

module _ {Node Key : Type 0} (ks : KeySpace Node Key) where
  pub length-incorporate :
      (c : QueryConfig) (target : Key) (n : ℕ) (response : List Node) (b : Bool) (m : Peers Key)
      → length (incorporate ks c target n response b m).1 ≤ length m + length response
  unfolding incorporate
  length-incorporate c target n [] b m = omega arith
  length-incorporate c target n (x ∷ rest) b m =
      let d = ks.distance target (ks.into_key x) in
      let p = new_peer (ks.into_key x) not_contacted in
      omega (arith, length-or_insert d p m, length-incorporate c target n rest _ (or_insert d p m))

  length-collect :
      (target : Key) (n : ℕ) (known : List Key) (m : Peers Key)
      → length (collect m (take n (initial_entries ks target known))) ≤ length m + n
  unfolding collect initial_entries
  length-collect target zero known m = omega arith
  length-collect target (suc n) [] m = omega arith
  length-collect target (suc n) (k ∷ known) m =
      let p = new_peer k not_contacted in
      omega (
        arith,
        length-insert (ks.distance k target) p m,
        length-collect target n known (insert (ks.distance k target) p m),
      )

  -- A query starts with at most `num_results` peers.
  pub length-initial_peers :
      (c : QueryConfig) (target : Key) (known : List Key)
      → length (initial_peers ks c target known) ≤ c.num_results
  unfolding initial_peers
  length-initial_peers c target known = omega (arith, length-collect target c.num_results known [])

  pub length-Scanned :
      {c : QueryConfig} {now : ℕ} {busy : Bool} {w : ℕ} {r : Option ℕ} {m m' : Peers Key}
      {e : Exit Node} {w' : ℕ}
      → Scanned ks c now busy w r m e w' m'
      → length m' ≡ length m
  length-Scanned (ends _ _) = refl
  length-Scanned (leaves _ _ d p m e w' p' v) = refl
  length-Scanned (goes_on _ _ d p m w1 r1 p' e w' m' v t) = ap suc (length-Scanned t)
