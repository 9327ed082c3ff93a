-- ===== src/Find/QueryPool/Queries.antt =====
-- The two kinds of query meet what the pool relies on.
use trin.Prelude.{◌≡◌, refl, Bool, Option, none, some, arith}
use trin.Find.KeySpace.{KeySpace}
use trin.Find.Query.{QueryState}
use trin.Find.ClosestPeers.Consistent.{Fits}
use trin.Find.FindNodes
use trin.Find.FindNodes.Valid
use trin.Find.FindNodes.Growth
use trin.Find.FindContent
use trin.Find.FindContent.Valid as ContentValid
use trin.Find.FindContent.Growth as ContentGrowth
use trin.Find.FindContent.Results.{find_content_query}
use trin.Find.QueryPool.Valid.{QueryLaws}

module _ {Node Key : Type 0} (ks : KeySpace Node Key) where
  abbrev pub SoundNodes : FindNodes.FindNodeQuery Key → Type 0
  SoundNodes q = Valid.IsValid ks q × Fits q.closest_peers

  nodes_returned :
      (q : FindNodes.FindNodeQuery Key) (o : Option (QueryState Node × FindNodes.FindNodeQuery Key))
      → Fits q.closest_peers
      → Valid.PollReturns ks o
      → Growth.PollGrowsBy ks 0 q o
      → (s : QueryState Node) × (q' : FindNodes.FindNodeQuery Key) × (o ≡ some (s, q'))
        × SoundNodes q'
  nodes_returned q none f v g = absurd v
  nodes_returned q (some (s, q')) f v g = (s, q', refl, (v, omega arith))

  -- A FindNodeQuery meets the interface of the pool: a valid one with fewer than 2 ^ 64 peers can be
  -- started and polled without a panic, and stays so.
  pub find_node_laws : QueryLaws (FindNodes.find_node_query ks) SoundNodes
  unfolding FindNodes.start
  find_node_laws = record {
    start-V = λ q now v. v;
    poll-V = λ q now v.
        nodes_returned q (FindNodes.poll ks q now) v.1 (Valid.poll-PollReturns ks q now v.0 v.1)
          (Growth.poll-PollGrowsBy ks q now);
  }

  abbrev pub SoundContent : FindContent.FindContentQuery Node Key → Type 0
  SoundContent q = ContentValid.IsValid ks q × Fits q.closest_peers

  content_returned :
      (q : FindContent.FindContentQuery Node Key)
      (o : Option (QueryState Node × FindContent.FindContentQuery Node Key))
      → Fits q.closest_peers
      → ContentValid.PollReturns ks o
      → ContentGrowth.PollGrowsBy ks 0 q o
      → (s : QueryState Node) × (q' : FindContent.FindContentQuery Node Key) × (o ≡ some (s, q'))
        × SoundContent q'
  content_returned q none f v g = absurd v
  content_returned q (some (s, q')) f v g = (s, q', refl, (v, omega arith))

  -- A FindContentQuery meets the interface of the pool: a valid one with fewer than 2 ^ 64 peers can
  -- be started and polled without a panic, and stays so.
  pub find_content_laws :
      (same_node : Node → Node → Bool) → QueryLaws (find_content_query ks same_node) SoundContent
  unfolding FindContent.start
  find_content_laws same_node = record {
    start-V = λ q now v. v;
    poll-V = λ q now v.
        content_returned q (FindContent.poll ks q now) v.1
          (ContentValid.poll-PollReturns ks q now v.0 v.1)
          (ContentGrowth.poll-PollGrowsBy ks q now);
  }
