-- ===== src/Tests.antt =====
-- Concrete data for the modules under this one: small numbers are nodes and keys, and the distance
-- is that on the line.
mod Nodes
mod Content
mod Pool
mod Wire
mod Recipients
mod Store
mod HistoryStore
mod Merkle
mod Offer
mod Responses
mod Trace
mod Validation
use trin.Prelude.{ℕ, ◌+◌, ◌-◌, List, [], ◌∷◌, arith}
use trin.Find.KeySpace.{KeySpace, IsKeySpace}
use trin.Find.Query.{
  QueryConfig, QueryPeerState, not_contacted, waiting, succeeded, failed, new_peer,
}
use trin.Find.ClosestPeers.{Peers}

abbrev number_space : KeySpace ℕ ℕ
number_space = record { into_key = λ n. n; preimage = λ k. k; distance = λ a b. (a - b) + (b - a) }

number_space-IsKeySpace : IsKeySpace number_space
number_space-IsKeySpace = record { distance_comm = λ a b. omega arith }

abbrev small_config : QueryConfig
small_config = record { parallelism = 1; num_results = 2; peer_timeout = 5 }

abbrev add_peer : ℕ → QueryPeerState → Peers ℕ → Peers ℕ
add_peer k s m = (k, new_peer k s) ∷ m

abbrev two_new : Peers ℕ
two_new = add_peer 1 not_contacted (add_peer 3 not_contacted [])

abbrev one_waiting : Peers ℕ
one_waiting = add_peer 1 (waiting 5) (add_peer 3 not_contacted [])

abbrev all_settled : Peers ℕ
all_settled = add_peer 1 succeeded (add_peer 2 failed (add_peer 3 succeeded []))
