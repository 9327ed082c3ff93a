-- ===== src/Storage/History/Prune.antt =====
-- `prune_db` as a whole, and what it means for `store` and `new`.
use native.Mathlib.Numerals.{add-one}
use trin.Prelude.{
  ℕ, zero, suc, ◌+◌, ◌≤◌, ◌<◌, ◌≡◌, ◌≢◌, refl, sym, ap, ◌∙◌, subst, ◌⊎◌, inl, inr, true, false,
  Option, none, some, List, [], ◌∷◌, arith, ltb, ◌==◌, length, All, All-In, All-of-In, Bool-cases,
}
use trin.Prelude.Outcome.{Outcome, panic, error, ok}
use trin.Storage.Table.{Row, byte_vector_to_u32, find_farthest, total_size, short_distance}
use trin.Storage.History.{
  ContentStoreError, HistoryStorage, Turn, halts, goes_on, capacity_reached,
  find_farthest_content_id, prune_turn, after_turn, prune_loop, prune_db,
}
use trin.Storage.History.Farthest.{IsFarthest}
use trin.Storage.History.Rounds.{
  IsValid, node_short, Holds, find_farthest_content_id_lem, Evicts, Fitted, RadiusFits, TurnFrom,
  prune_turn-TurnFrom,
}

empty_within :
    (capacity : ℕ) (table : List Row) → table ≡ [] → ltb capacity (total_size table) ≡ true → ⊥
unfolding total_size
empty_within capacity table e h = absurd (nothing (rw e at h))
  where
    nothing : ltb capacity 0 ≡ true → ⊥
    nothing g = ground arith

find_farthest-none :
    (u network : ℕ) (table : List Row)
    → All (λ r. r.network ≢ network) table
    → find_farthest u network table ≡ none
unfolding find_farthest
find_farthest-none u network [] a = refl
find_farthest-none u network (r ∷ table) a =
    let other : (r.network == network) ≡ false = ground (arith, a.0) in
    rw other (find_farthest-none u network table a.1)

module _ (max_distance : ℕ) (from_big_endian : List ℕ → ℕ) where
  Evicts-trans :
      (s s' s'' : HistoryStorage)
      → Evicts max_distance from_big_endian s s'
      → Evicts max_distance from_big_endian s' s''
      → Evicts max_distance from_big_endian s s''
  Evicts-trans s s' s'' a b = record {
    node = b.node ∙ a.node;
    capacity = b.capacity ∙ a.capacity;
    distance = b.distance ∙ a.distance;
    network = b.network ∙ a.network;
    kept = λ r i. a.kept r (b.kept r i);
    evicted = λ r i. elim (a.evicted r i) [
      | inl j ↦ elim (b.evicted r j) [
        | inl k ↦ inl k
        | inr far ↦ inr (subst (λ n. IsFarthest n s''.table r) (ap byte_vector_to_u32 a.node) far)
      ]
      | inr far ↦ inr (
          All-of-In (λ q. short_distance (node_short s) q ≤ short_distance (node_short s) r)
            s''.table
            (λ q k.
              All-In (λ p. short_distance (node_short s) p ≤ short_distance (node_short s) r)
                s'.table far (b.kept q k)))
    ];
  }

  -- What `prune_db` makes of a store.
  pub record Pruned (s s' : HistoryStorage) : Type 0 where
    pub valid : IsValid s'
    pub evicts : Evicts max_distance from_big_endian s s'
    pub fitted : Fitted max_distance from_big_endian s'
    pub radius : (s' ≡ s) ⊎ RadiusFits max_distance from_big_endian s'

  -- It returns, in such a store.
  abbrev pub PrunesTo : HistoryStorage → Outcome ContentStoreError (ℕ × HistoryStorage) → Type 0
  PrunesTo s panic = ⊥
  PrunesTo s (error e) = ⊥
  PrunesTo s (ok (n, s')) = Pruned s s'

  PrunesTo-trans :
      (s s' : HistoryStorage) (o : Outcome ContentStoreError (ℕ × HistoryStorage))
      → Evicts max_distance from_big_endian s s'
      → RadiusFits max_distance from_big_endian s'
      → PrunesTo s' o
      → PrunesTo s o
  PrunesTo-trans s s' panic a f h = h
  PrunesTo-trans s s' (error e) a f h = h
  PrunesTo-trans s s' (ok (n, s'')) a f h = record {
    valid = h.valid;
    evicts = Evicts-trans s s' s'' a h.evicts;
    fitted = h.fitted;
    radius = elim h.radius [
      | inl e ↦ inr (subst (RadiusFits max_distance from_big_endian) (sym e) f)
      | inr fits ↦ inr fits
    ];
  }

  after_turn-PrunesTo :
      (s : HistoryStorage) (fuel n : ℕ)
      (onwards : HistoryStorage → Option (List ℕ) → Outcome ContentStoreError (ℕ × HistoryStorage))
      (o : Outcome ContentStoreError Turn)
      → length s.table < suc fuel
      → ((s' : HistoryStorage) (f : Option (List ℕ))
          → IsValid s'
          → Holds s' f
          → length s'.table < fuel
          → PrunesTo s' (onwards s' f))
      → TurnFrom max_distance from_big_endian s o
      → PrunesTo s (after_turn max_distance from_big_endian n onwards o)
  after_turn-PrunesTo s fuel n onwards panic enough next h = h
  after_turn-PrunesTo s fuel n onwards (error e) enough next h = h
  after_turn-PrunesTo s fuel n onwards (ok (halts s')) enough next (v, a, same, fits, r) = record {
    valid = v;
    evicts = a;
    fitted = fits;
    radius = inr r;
  }
  after_turn-PrunesTo s fuel n onwards (ok (goes_on s' f)) enough next (v, a, fewer, holds, r) =
      PrunesTo-trans s s' (onwards s' f) a r (next s' f v holds (omega arith))

  prune_loop-PrunesTo :
      (fuel n : ℕ) (s : HistoryStorage) (f : Option (List ℕ))
      → IsValid s
      → Holds s f
      → length s.table < fuel
      → PrunesTo s (prune_loop max_distance from_big_endian fuel n s f)
  unfolding prune_loop
  prune_loop-PrunesTo zero n s f v h enough = absurd (omega arith)
  prune_loop-PrunesTo (suc fuel) n s f v h enough = elim (Bool-cases (capacity_reached s)) [
    | inl over ↦ rw over (
        after_turn-PrunesTo s fuel n (prune_loop max_distance from_big_endian fuel (n + 1))
          (prune_turn max_distance from_big_endian s f) enough
          (λ s' f' v' h' e'. prune_loop-PrunesTo fuel (n + 1) s' f' v' h' e') (turn f h over))
    | inr within ↦ rw within (record {
      valid = v;
      evicts = record {
        node = refl;
        capacity = refl;
        distance = refl;
        network = refl;
        kept = λ r i. i;
        evicted = λ r i. inl i;
      };
      fitted = inl (ground arith);
      radius = inl refl;
    })
  ]
    where
      turn :
          (f : Option (List ℕ))
          → Holds s f
          → capacity_reached s ≡ true
          → TurnFrom max_distance from_big_endian s (prune_turn max_distance from_big_endian s f)
      turn none empty over = absurd (empty_within s.storage_capacity_in_bytes s.table empty over)
      turn (some id) (inl empty) over =
          absurd (empty_within s.storage_capacity_in_bytes s.table empty over)
      turn (some id) (inr (r, i, far, same)) over =
          subst
            (λ j.
              TurnFrom max_distance from_big_endian s
                (prune_turn max_distance from_big_endian s (some j)))
            same (prune_turn-TurnFrom max_distance from_big_endian s r v i far)

  -- At a valid store, the loop of `prune_db` ends, without a panic or an error. It leaves a valid
  -- store that holds rows of the old one. No row that it evicts is nearer to the node, by the first
  -- four bytes of the id, than a row that it leaves. The usage is then within the capacity, or would
  -- be below it without some farthest row. Unless the store is as it was, its radius is the
  -- distance of a farthest row, or 0 if no row is left.
  pub prune_db-PrunesTo :
      (s : HistoryStorage) → IsValid s → PrunesTo s (prune_db max_distance from_big_endian s)
  unfolding prune_db
  prune_db-PrunesTo s v = elim (find_farthest_content_id_lem s v) [
    | inl (e, empty) ↦
        rw e (prune_loop-PrunesTo (length s.table + 1) 0 s none v empty (omega arith))
    | inr (r, e, i, far) ↦ rw e (
        prune_loop-PrunesTo (length s.table + 1) 0 s (some r.content_id_long) v
          (inr (r, i, far, refl)) (omega arith))
  ]

  -- Contents of other networks count in the usage, but are never evicted: where they alone are over
  -- the capacity, and the network has none, `prune_db` panics at its `expect`.
  pub prune_db_other_network :
      (s : HistoryStorage)
      → All (λ r. r.network ≢ s.network) s.table
      → s.storage_capacity_in_bytes < total_size s.table
      → prune_db max_distance from_big_endian s ≡ panic
  unfolding prune_db prune_loop find_farthest_content_id
  prune_db_other_network s others over =
      let full : capacity_reached s ≡ true = ground arith in
      rw
        (find_farthest-none (node_short s) s.network s.table others, add-one (length s.table), full)
        refl
