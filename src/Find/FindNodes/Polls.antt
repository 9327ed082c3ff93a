-- ===== src/Find/FindNodes/Polls.antt =====
-- What `poll` of a FindNodeQuery reports.
use Prim.Native.Nat.{max}
use trin.Prelude.{
  ℕ, suc, ◌≡◌, refl, ap, sym, ◌∙◌, ◌⊎◌, inl, inr, true, false, Option, none, some, arith,
}
use mathlib.Core.Option.{some-injective}
use trin.Find.KeySpace.{KeySpace}
use trin.Find.Query.{finished, is_finished, QueryState, waiting_on, done}
use trin.Find.ClosestPeers.{Peers, Exit, contact, complete, exhausted, Scan, at_capacity}
use trin.Find.ClosestPeers.Scanned.{Scanned, Outcome, scan-Outcome}
use trin.Find.ClosestPeers.Consistent.{Fits, Scanned-Consistent}
use trin.Find.ClosestPeers.Exits.{
  AllSettled, count_untouched, Contacts, contact_free, contact_Contacts, contact_untouched,
  exhausted_settled, Scanned-settled, count_waiting-AllSettled,
}
use trin.Find.ClosestPeers.Completion.{Satisfied, completes}
use trin.Find.FindNodes.{FindNodeQuery, conclude, after_scan, poll}
use trin.Find.FindNodes.Cases.{poll_cases}
use trin.Find.FindNodes.Valid.{IsValid, PollReturns, poll-PollReturns}

module _ {Node Key : Type 0} (ks : KeySpace Node Key) where
  -- The loop that a call of `poll` on `q` ran.
  abbrev Ran : FindNodeQuery Key → ℕ → Exit Node → ℕ → Peers Key → Type 0
  Ran q now =
      Scanned ks q.config now (at_capacity q.config q.progress q.num_waiting) q.num_waiting (some 0)
        q.closest_peers

  -- A call that returned did so at once, the query being finished, or ran the loop to its end.
  abbrev Polled : FindNodeQuery Key → FindNodeQuery Key → ℕ → QueryState Node → Type 0
  Polled q q' now s =
      ((is_finished q.progress ≡ true) × (s ≡ done) × (q' ≡ q))
      ⊎ ((is_finished q.progress ≡ false)
          × ((x : Scan Node Key) × Ran q now x.exit x.num_waiting x.peers
              × (conclude (record q { closest_peers = x.peers; num_waiting = x.num_waiting }) x.exit
                  ≡ (s, q'))))

  poll-Polled :
      (q q' : FindNodeQuery Key) (now : ℕ) (s : QueryState Node)
      → poll ks q now ≡ some (s, q')
      → Polled q q' now s
  poll-Polled q q' now s =
      poll_cases ks (λ o. o ≡ some (s, q') → Polled q q' now s) q now
        (λ over e. inl (over, ground arith, ground arith))
        (λ live.
          loop live _ (scan-Outcome ks q.config now _ q.num_waiting (some 0) q.closest_peers))
    where
      loop :
          is_finished q.progress ≡ false
          → (o : Option (Scan Node Key))
          → Outcome ks q.config now
              (at_capacity q.config q.progress q.num_waiting)
              q.num_waiting
              (some 0)
              q.closest_peers
              o
          → after_scan q o ≡ some (s, q')
          → Polled q q' now s
      loop live none r e = cc
      loop live (some x) r e = inr (live, (x, r, some-injective _ _ e))

  conclude_contact :
      (q q' : FindNodeQuery Key) (e : Exit Node) (n : Node)
      → conclude q e ≡ (waiting_on (some n), q')
      → (e ≡ contact n) × (q' ≡ q)
  conclude_contact q q' e n h = ground arith

  conclude_done :
      (q q' : FindNodeQuery Key) (e : Exit Node)
      → conclude q e ≡ (done, q')
      → ((e ≡ complete) ⊎ ((e ≡ exhausted) × (q.num_waiting ≡ 0)))
        × (q' ≡ record q { progress = finished })
  conclude_done q q' e h = ground arith

  -- When a valid query asks for a new request, it goes to the nearest peer that was not
  -- contacted, the query is below its capacity, and one peer fewer is left to contact.
  pub poll-Contacts :
      (q q' : FindNodeQuery Key) (now : ℕ) (n : Node)
      → IsValid ks q
      → poll ks q now ≡ some (waiting_on (some n), q')
      → Contacts ks q.config now n q.closest_peers q'.closest_peers
        × (at_capacity q.config q.progress q.num_waiting ≡ false)
        × (count_untouched q.closest_peers ≡ suc (count_untouched q'.closest_peers))
  poll-Contacts q q' now n v e = elim (poll-Polled q q' now _ e) [
    | inl (over, other, same) ↦ absurd (ground arith)
    | inr (live, (x, r, h)) ↦
        let f = conclude_contact _ q' x.exit n h in
        let peers : q'.closest_peers ≡ x.peers =
          ap (λ (y : FindNodeQuery Key). y.closest_peers) f.1 in
        rw peers (
          contact_Contacts ks q.config now _ 0 r v.sorted f.0,
          contact_free ks q.config now _ r f.0,
          contact_untouched ks q.config now _ r f.0,
        )
  ]

  -- When a valid query, not finished and with fewer peers than 2 ^ 64, reports that it is done,
  -- it has as many results as were asked for, or one if none was, and every peer nearer than the
  -- last of them has settled; or every peer that it knows has. It is finished then.
  pub poll_done :
      (q q' : FindNodeQuery Key) (now : ℕ)
      → IsValid ks q
      → Fits q.closest_peers
      → is_finished q.progress ≡ false
      → poll ks q now ≡ some (done, q')
      → (Satisfied (max q.config.num_results 1) q'.closest_peers ⊎ AllSettled q'.closest_peers)
        × (q'.progress ≡ finished)
  poll_done q q' now v fits live e = elim (poll-Polled q q' now _ e) [
    | inl (over, other, same) ↦ absurd (ground arith)
    | inr (_, (x, r, h)) ↦
        let f = conclude_done _ q' x.exit h in
        let peers : q'.closest_peers ≡ x.peers =
          ap (λ (y : FindNodeQuery Key). y.closest_peers) f.1 in
        let over : q'.progress ≡ finished = ap (λ (y : FindNodeQuery Key). y.progress) f.1 in
        rw peers (
          elim f.0 [
            | inl full_result ↦ inl (
                completes ks q.config now _ 0 (max q.config.num_results 1) r refl full_result
                  (omega arith) (omega arith))
            | inr (end, nobody) ↦ inr (
                exhausted_settled ks q.config now _ r end
                  (sym (Scanned-Consistent ks now q.progress r v fits).counts ∙ nobody))
          ],
          over,
        )
  ]

  poll_returns :
      (q : FindNodeQuery Key) (now : ℕ)
      → IsValid ks q
      → Fits q.closest_peers
      → (s : QueryState Node) × (q' : FindNodeQuery Key) × (poll ks q now ≡ some (s, q'))
  poll_returns q now v fits = returned (poll ks q now) (poll-PollReturns ks q now v fits)
    where
      returned :
          (o : Option (QueryState Node × FindNodeQuery Key))
          → PollReturns ks o
          → (s : QueryState Node) × (q' : FindNodeQuery Key) × (o ≡ some (s, q'))
      returned none h = absurd h
      returned (some (s, q')) h = (s, q', refl)

  -- Once every peer of a valid query with fewer peers than 2 ^ 64 has settled, `poll` finishes
  -- the query.
  pub poll_settled :
      (q : FindNodeQuery Key) (now : ℕ)
      → IsValid ks q
      → Fits q.closest_peers
      → AllSettled q.closest_peers
      → (q' : FindNodeQuery Key) × (poll ks q now ≡ some (done, q'))
        × (is_finished q'.progress ≡ true)
  poll_settled q now v fits h =
      let (s, q', e) = poll_returns q now v fits in
      let f = finishes s q' (poll-Polled q q' now s e) in (q', rw (← f.0) e, f.1)
    where
      finishes :
          (s : QueryState Node) (q' : FindNodeQuery Key)
          → Polled q q' now s
          → (s ≡ done) × (is_finished q'.progress ≡ true)
      finishes s q' (inl (over, other, same)) = ground arith
      finishes s q' (inr (live, (x, r, c))) =
          let settled = Scanned-settled ks q.config now _ r h in
          ground (arith, count_waiting-AllSettled q.closest_peers h, v.counts, settled.0, settled.1)
