-- ===== src/Find/KeySpace.antt =====
-- `Key` and `Distance` of the crate discv5, which the queries are generic over: node identifiers,
-- their keys in the DHT and the XOR distance between keys, as numbers.
use trin.Prelude.{ℕ, ◌≡◌}

pub record KeySpace (Node Key : Type 0) : Type 0 where
  -- `Into<Key<TNodeId>>`
  pub into_key : Node → Key
  -- `preimage` and `into_preimage`
  pub preimage : Key → Node
  -- `Key::distance`
  pub distance : Key → Key → ℕ

-- What discv5 documents: the XOR distance is symmetric.
pub record IsKeySpace {Node Key : Type 0} (ks : KeySpace Node Key) : Type 0 where
  pub distance_comm : (a b : Key) → ks.distance a b ≡ ks.distance b a
