-- ===== src/Find/ClosestPeers/Exits.antt =====
-- What each way out of the loop of `poll` says of the peers.
use trin.Prelude.{
  ℕ, suc, ◌+◌, ◌≤◌, ◌<◌, ◌≡◌, ◌≢◌, refl, ap, ◌∙◌, ◌⊎◌, inl, inr, Bool, false, Option, some, [], ◌∷◌,
  arith,
}
use trin.BTreeMap.{get}
use trin.BTreeMap.Order.{From}
use trin.BTreeMap.Lookup.{get_above, get-cons, get-cons_above, get-cons_self}
use trin.Find.KeySpace.{KeySpace}
use trin.Find.Query.{
  QueryConfig, QueryPeer, QueryPeerState, not_contacted, waiting, unresponsive, failed, succeeded,
  set_state,
}
use trin.Find.Query.States.{stage}
use trin.Find.ClosestPeers.{Peers, Exit, contact, complete, exhausted, stop, next, visit}
use trin.Find.ClosestPeers.Waiting.{count_waiting}
use trin.Find.ClosestPeers.Scanned.{Scanned, ends, leaves, goes_on}

-- Answered, failed or timed out.
abbrev pub IsSettled : QueryPeerState → Type 0
IsSettled s = 2 ≤ stage s

abbrev pub AllSettled : {Key : Type 0} → Peers Key → Type 0
AllSettled [] = Unit
AllSettled ((d, p) ∷ m) = IsSettled p.state × AllSettled m

abbrev pub untouched : QueryPeerState → ℕ
untouched not_contacted = 1
untouched (waiting t) = 0
untouched unresponsive = 0
untouched failed = 0
untouched succeeded = 0

-- How many peers have not been contacted.
abbrev pub count_untouched : {Key : Type 0} → Peers Key → ℕ
count_untouched [] = 0
count_untouched ((d, p) ∷ m) = untouched p.state + count_untouched m

-- A request goes to the nearest peer that was not contacted, below the capacity only.
pub record Contacts {Node Key : Type 0} (ks : KeySpace Node Key) (c : QueryConfig) (now : ℕ)
    (n : Node) (m m' : Peers Key) : Type 0 where
  pub distance : ℕ
  pub peer : QueryPeer Key
  pub was : get distance m ≡ some peer
  pub fresh : peer.state ≡ not_contacted
  pub named : n ≡ ks.preimage peer.key
  pub becomes : get distance m' ≡ some (set_state peer (waiting (now + c.peer_timeout)))
  pub nearest :
      (e : ℕ) (q : QueryPeer Key) → e < distance → get e m ≡ some q → q.state ≢ not_contacted

-- Nothing is waited for where all have settled.
pub count_waiting-AllSettled : {Key : Type 0} (m : Peers Key) → AllSettled m → count_waiting m ≡ 0
count_waiting-AllSettled [] h = refl
count_waiting-AllSettled ((d, p) ∷ m) h = ground (arith, count_waiting-AllSettled m h.1)

module _ {Node Key : Type 0} (ks : KeySpace Node Key) (c : QueryConfig) (now : ℕ)
    (busy : Bool) where
  turn_untouched :
      (w : ℕ) (r : Option ℕ) (p : QueryPeer Key) {w' : ℕ} {r' : Option ℕ} {p' : QueryPeer Key}
      → visit ks c now busy w r p ≡ next w' r' p'
      → (untouched p.state ≡ 0) × (untouched p'.state ≡ 0)
  unfolding visit
  turn_untouched w r p v = ground arith

  -- A settled peer does not stop the loop but by completing the query.
  settled_stop :
      (w : ℕ) (r : Option ℕ) (p : QueryPeer Key) {e : Exit Node} {w' : ℕ} {p' : QueryPeer Key}
      → visit ks c now busy w r p ≡ stop e w' p'
      → IsSettled p.state
      → (e ≡ complete) × (w' ≡ w)
  unfolding visit
  settled_stop w r p v h = ground arith

  settled_next :
      (w : ℕ) (r : Option ℕ) (p : QueryPeer Key) {w' : ℕ} {r' : Option ℕ} {p' : QueryPeer Key}
      → visit ks c now busy w r p ≡ next w' r' p'
      → IsSettled p.state
      → (p' ≡ p) × (w' ≡ w)
  unfolding visit
  settled_next w r p v h = ground arith

  -- Where all have settled, the loop ends or completes the query, and nothing is waited for.
  pub Scanned-settled :
      {w : ℕ} {r : Option ℕ} {m m' : Peers Key} {e : Exit Node} {w' : ℕ}
      → Scanned ks c now busy w r m e w' m'
      → AllSettled m
      → ((e ≡ complete) ⊎ (e ≡ exhausted)) × (w' ≡ w)
  Scanned-settled (ends _ _) h = (inr refl, refl)
  Scanned-settled {w} {r} (leaves _ _ d p m e w' p' v) h =
      let f = settled_stop w r p v h.0 in (inl f.0, f.1)
  Scanned-settled {w} {r} (goes_on _ _ d p m w1 r1 p' e w' m' v t) h =
      let f = settled_next w r p v h.0 in let g = Scanned-settled t h.1 in (g.0, g.1 ∙ f.1)

  turn_progress :
      (w : ℕ) (r : Option ℕ) (p : QueryPeer Key) {w' : ℕ} {r' : Option ℕ} {p' : QueryPeer Key}
      → visit ks c now busy w r p ≡ next w' r' p'
      → 1 ≤ stage p'.state
  unfolding visit
  turn_progress w r p v = ground arith

  -- At the end of the loop a peer is settled or waited for.
  pub exhausted_settled :
      {w : ℕ} {r : Option ℕ} {m m' : Peers Key} {e : Exit Node} {w' : ℕ}
      → Scanned ks c now busy w r m e w' m'
      → e ≡ exhausted
      → count_waiting m' ≡ 0
      → AllSettled m'
  unfolding visit
  exhausted_settled (ends _ _) x z = tt
  exhausted_settled {w} {r} (leaves _ _ d p m e w' p' v) x z = ground arith
  exhausted_settled {w} {r} (goes_on _ _ d p m w1 r1 p' e w' m' v t) x z =
      (ground (arith, turn_progress w r p v), exhausted_settled t x (omega arith))

  contact_turn :
      (w : ℕ) (r : Option ℕ) (p : QueryPeer Key) {n : Node} {w' : ℕ} {p' : QueryPeer Key}
      → visit ks c now busy w r p ≡ stop (contact n) w' p'
      → (p.state ≡ not_contacted)
        × (n ≡ ks.preimage p.key)
        × (p' ≡ set_state p (waiting (now + c.peer_timeout)))
        × (busy ≡ false)
  unfolding visit
  contact_turn w r p v = ground arith

  -- A request is made below the capacity only.
  pub contact_free :
      {w : ℕ} {r : Option ℕ} {m m' : Peers Key} {e : Exit Node} {w' : ℕ} {n : Node}
      → Scanned ks c now busy w r m e w' m'
      → e ≡ contact n
      → busy ≡ false
  contact_free (ends _ _) x = cc
  contact_free {w} {r} (leaves _ _ d p m e w' p' v) x =
      (contact_turn w r p (v ∙ ap (λ y. stop y w' p') x)).3
  contact_free {w} {r} (goes_on _ _ d p m w1 r1 p' e w' m' v t) x = contact_free t x

  pub contact_Contacts :
      (b : ℕ) {w : ℕ} {r : Option ℕ} {m m' : Peers Key} {e : Exit Node} {w' : ℕ} {n : Node}
      → Scanned ks c now busy w r m e w' m'
      → From b m
      → e ≡ contact n
      → Contacts ks c now n m m'
  unfolding get
  contact_Contacts b (ends _ _) s x = cc
  contact_Contacts b {w} {r} (leaves _ _ d p m e w' p' v) s x =
      let f = contact_turn w r p (v ∙ ap (λ y. stop y w' p') x) in
      record {
        distance = d;
        peer = p;
        was = get-cons_self d p m;
        fresh = f.0;
        named = f.1;
        becomes = get-cons_self d p' m ∙ ap some f.2;
        nearest = λ e q h g y. absurd (elim (get-cons d e p q m g) [
          | inl (same, _) ↦ omega arith
          | inr there ↦ omega (arith, get_above (suc d) e q m s.1 there)
        ]);
      }
  contact_Contacts b {w} {r} (goes_on _ _ d p m w1 r1 p' e w' m' v t) s x =
      let rest = contact_Contacts (suc d) t s.1 x in
      let above = get_above (suc d) rest.distance rest.peer m s.1 rest.was in
      let touched = turn_untouched w r p v in
      record {
        distance = rest.distance;
        peer = rest.peer;
        was = get-cons_above d rest.distance p m above ∙ rest.was;
        fresh = rest.fresh;
        named = rest.named;
        becomes = get-cons_above d rest.distance p' m' above ∙ rest.becomes;
        nearest = λ e q h g y. elim (get-cons d e p q m g) [
          | inl (_, same) ↦ ground arith
          | inr there ↦ rest.nearest e q h there y
        ];
      }

  -- The peers that the loop passed or stopped at are no longer to be contacted.
  pub contact_untouched :
      {w : ℕ} {r : Option ℕ} {m m' : Peers Key} {e : Exit Node} {w' : ℕ} {n : Node}
      → Scanned ks c now busy w r m e w' m'
      → e ≡ contact n
      → count_untouched m ≡ suc (count_untouched m')
  contact_untouched (ends _ _) x = cc
  contact_untouched {w} {r} (leaves _ _ d p m e w' p' v) x =
      let f = contact_turn w r p (v ∙ ap (λ y. stop y w' p') x) in ground arith
  contact_untouched {w} {r} (goes_on _ _ d p m w1 r1 p' e w' m' v t) x =
      let f = turn_untouched w r p v in omega (arith, contact_untouched t x)
