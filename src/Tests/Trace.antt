-- ===== src/Tests/Trace.antt =====
-- A trace of ENRs that are pairs of a node id and a sequence number.
use trin.Prelude.{ℕ, ◌&&◌, [], ◌∷◌, ◌==◌}
use trin.QueryTrace.{EnrCrate, QueryTrace, new}

abbrev pair_crate : EnrCrate (ℕ × ℕ)
pair_crate = record {
  node_id = λ e. e.0;
  raw = λ n. n ∷ [];
  seq = λ e. e.1;
  is_same = λ a b. (a.0 == b.0) && (a.1 == b.1);
  from_big_endian = λ l. 0;
  big_endian = λ n. n ∷ [];
}

abbrev first_trace : QueryTrace (ℕ × ℕ)
first_trace = new pair_crate 100 (1, 1) (9 ∷ [])
