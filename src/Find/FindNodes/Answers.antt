-- ===== src/Find/FindNodes/Answers.antt =====
-- `into_result` of a FindNodeQuery.
use Prim.Native.Nat.{max}
use trin.Prelude.{ℕ, ◌≤◌, ◌≡◌, ◌⊎◌, some, arith, length, length-take}
use trin.BTreeMap.{get}
use trin.Find.KeySpace.{KeySpace}
use trin.Find.Query.{QueryPeer, succeeded}
use trin.Find.ClosestPeers.{succeeded_nodes}
use trin.Find.ClosestPeers.Chosen.{
  Ranked, Ranked-take, succeeded_nodes-Ranked, Among, Crowded, succeeded_nodes_nearest,
}
use trin.Find.ClosestPeers.Completion.{Satisfied, Satisfied-length}
use trin.Find.FindNodes.{FindNodeQuery, into_result}
use trin.Find.FindNodes.Valid.{IsValid}

module _ {Node Key : Type 0} (ks : KeySpace Node Key) where
  pub length-into_result :
      (q : FindNodeQuery Key) → length (into_result ks q) ≤ q.config.num_results
  unfolding into_result
  length-into_result q =
      omega (arith, length-take q.config.num_results (succeeded_nodes ks q.closest_peers))

  -- The result of a valid query lists peers that succeeded, by rising distance to the target; and
  -- each peer that succeeded is listed, unless `num_results` nearer ones are.
  pub into_result_lem :
      (q : FindNodeQuery Key)
      → IsValid ks q
      → Ranked ks q.closest_peers 0 (into_result ks q)
        × ((d : ℕ) (p : QueryPeer Key)
            → get d q.closest_peers ≡ some p
            → p.state ≡ succeeded
            → Among ks (ks.preimage p.key) (into_result ks q)
              ⊎ Crowded ks q.closest_peers d q.config.num_results (into_result ks q))
  unfolding into_result
  into_result_lem q v = (
    Ranked-take ks q.config.num_results (succeeded_nodes-Ranked ks q.closest_peers v.sorted),
    λ d p h e. succeeded_nodes_nearest ks q.config.num_results d p q.closest_peers v.sorted h e,
  )

  -- A satisfied query returns as many nodes as were asked for.
  pub length-into_result-Satisfied :
      (q : FindNodeQuery Key)
      → Satisfied (max q.config.num_results 1) q.closest_peers
      → length (into_result ks q) ≡ q.config.num_results
  unfolding into_result
  length-into_result-Satisfied q s = omega (
    arith,
    length-take q.config.num_results (succeeded_nodes ks q.closest_peers),
    Satisfied-length ks s,
  )
