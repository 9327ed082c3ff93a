-- ===== src/Find/FindNodes/Final.antt =====
-- What lasts through a history of calls on a FindNodeQuery.
use trin.Prelude.{ℕ, ◌+◌, ◌<◌, ◌≡◌, refl, Option, none, some, List, length}
use trin.Prelude.Words.{usize_mod}
use trin.BTreeMap.{get}
use trin.Find.KeySpace.{KeySpace, IsKeySpace}
use trin.Find.Query.{QueryPeer}
use trin.Find.Query.States.{stage, PeerSteps-final}
use trin.Find.FindNodes.{FindNodeQuery}
use trin.Find.FindNodes.Valid.{IsValid}
use trin.Find.FindNodes.Runs.{Call, bring_all, run, RunsFrom, run-RunsFrom}

module _ {Node Key : Type 0} (ks : KeySpace Node Key) where
  -- In any history of calls from a valid query, where the distance is symmetric and fewer peers
  -- than a `usize` counts come in, no assertion fails, and a peer that has succeeded or failed
  -- stays known and stays so.
  pub run_final :
      (laws : IsKeySpace ks) (q : FindNodeQuery Key) (cs : List (Call Node)) (d : ℕ)
      (p : QueryPeer Key)
      → IsValid ks q
      → length q.closest_peers + bring_all cs < usize_mod
      → get d q.closest_peers ≡ some p
      → stage p.state ≡ 3
      → (q' : FindNodeQuery Key) × (run ks q cs ≡ some q')
        × (p' : QueryPeer Key) × (get d q'.closest_peers ≡ some p')
        × (p'.state ≡ p.state)
  run_final laws q cs d p v fits known final = from (run ks q cs) (run-RunsFrom ks laws q cs v fits)
    where
      from :
          (o : Option (FindNodeQuery Key))
          → RunsFrom ks q o
          → (q' : FindNodeQuery Key) × (o ≡ some q')
            × (p' : QueryPeer Key) × (get d q'.closest_peers ≡ some p')
            × (p'.state ≡ p.state)
      from none r = absurd r
      from (some q') r =
          let (p', found, same, steps) = r.1 d p known in
          (q', refl, p', found, PeerSteps-final steps final)
