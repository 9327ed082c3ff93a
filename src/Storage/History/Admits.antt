-- ===== src/Storage/History/Admits.antt =====
-- `store` and `new` of HistoryStorage.
use trin.Prelude.{
  ℕ, ◌+◌, ◌*◌, ◌%◌, ◌^◌, ◌<◌, ◌≡◌, ◌≢◌, refl, ◌⊎◌, inl, inr, true, false, List, [], ◌∷◌, arith,
  ◌==◌, All, Bool-cases, if◌then◌else◌,
}
use trin.Prelude.Outcome.{Outcome, panic, error, ok, and_then}
use trin.Storage.{DistanceFunction}
use trin.Storage.Table.{Row, total_size, entry_count}
use trin.Storage.History.{ContentStoreError, HistoryStorage, set_radius, prune_db, new}
use trin.Storage.History.Farthest.{RowIsValid}
use trin.Storage.History.Rounds.{IsValid}
use trin.Storage.History.Prune.{Pruned, PrunesTo, prune_db-PrunesTo}

own_count :
    (network : ℕ) (table : List Row)
    → All (RowIsValid network) table
    → (entry_count network table == 0) ≡ true
    → table ≡ []
unfolding entry_count
own_count network [] a e = refl
own_count network (r ∷ table) a e = absurd (counted (rw own at e))
  where
    own : (r.network == network) ≡ true
    own = ground (arith, a.0.own)

    counted : (1 + entry_count network table == 0) ≡ true → ⊥
    counted g = ground arith

uncounted :
    (network : ℕ) (table : List Row) → table ≡ [] → (entry_count network table == 0) ≡ false → ⊥
unfolding entry_count
uncounted network table empty e = absurd (nothing (rw empty at e))
  where
    nothing : (0 == 0) ≡ false → ⊥
    nothing g = ground arith

module _ (max_distance : ℕ) (from_big_endian : List ℕ → ℕ) where
  abbrev StoreReturns : HistoryStorage → Outcome ContentStoreError HistoryStorage → Type 0
  StoreReturns s panic = ⊥
  StoreReturns s (error e) = ⊥
  StoreReturns s (ok s') = Pruned max_distance from_big_endian s s'

  then_store :
      (s : HistoryStorage) (o : Outcome ContentStoreError (ℕ × HistoryStorage))
      → PrunesTo max_distance from_big_endian s o
      → (s' : HistoryStorage) × (and_then o (λ (num_removed_items, s'). ok s') ≡ ok s')
        × Pruned max_distance from_big_endian s s'
  then_store s panic h = absurd h
  then_store s (error e) h = absurd h
  then_store s (ok (n, s')) h = (s', refl, h)

  -- A store with its configuration and table, and the largest radius. The capacity is written out.
  abbrev pub configured : List ℕ → ℕ → DistanceFunction → List Row → ℕ → HistoryStorage
  configured node_id storage_capacity_mb distance_fn table protocol = record {
    node_id = node_id;
    storage_capacity_in_bytes = (storage_capacity_mb * 1000000) % 2 ^ 64;
    radius = max_distance;
    table = table;
    distance_fn = distance_fn;
    network = protocol;
  }

  -- What `new` makes of a store on an empty table.
  first_radius_lem :
      (s : HistoryStorage)
      → (if s.storage_capacity_in_bytes == 0 then set_radius s 0 else s)
        ≡ record s { radius = if s.storage_capacity_in_bytes == 0 then 0 else s.radius }
  unfolding set_radius
  first_radius_lem s = elim (Bool-cases (s.storage_capacity_in_bytes == 0)) [
    | inl nothing ↦ rw nothing refl
    | inr something ↦ rw something refl
  ]

  -- A store opens on a table of contents of its network, whose sizes add up to less than 2 ^ 53,
  -- without a panic or an error. On an empty table it has the given node id, distance function and
  -- network, a capacity of as many million bytes as given (as a `u64`), and as its radius the largest
  -- distance, or 0 if the capacity is 0. On another table it is this store with the table and the
  -- largest distance, after a pruning: node id, capacity, distance function and network stay, the
  -- store is valid, holds rows of the table only, has lost none that is nearer to the node, by the
  -- first four bytes of the id, than a row that is left, and is within its capacity, or would be below
  -- it without some farthest row; unless nothing changed, its radius is the distance of a farthest
  -- row, or 0 if no row is left.
  pub new_lem :
      (node_id : List ℕ) (storage_capacity_mb : ℕ) (distance_fn : DistanceFunction)
      (table : List Row) (protocol : ℕ)
      → All (RowIsValid protocol) table
      → total_size table < 2 ^ 53
      → let s0 = configured node_id storage_capacity_mb distance_fn table protocol in
        (s : HistoryStorage) × (new max_distance from_big_endian node_id storage_capacity_mb
            distance_fn table protocol
          ≡ ok s)
        × (((table ≡ [])
              × (s ≡ record s0 {
                radius = if (storage_capacity_mb * 1000000) % 2 ^ 64 == 0 then 0 else max_distance;
              }))
            ⊎ ((table ≢ []) × Pruned max_distance from_big_endian s0 s))
  unfolding new
  new_lem node_id storage_capacity_mb distance_fn table protocol rows exact =
      let s0 = configured node_id storage_capacity_mb distance_fn table protocol in
      elim (Bool-cases (entry_count protocol table == 0)) [
        | inl none_yet ↦
            rw none_yet (_, refl, inl (own_count protocol table rows none_yet, first_radius_lem s0))
        | inr entries ↦
            let v : IsValid s0 = record { rows = rows; exact = exact } in
            let (s', e, p) =
              then_store s0 (prune_db max_distance from_big_endian s0)
                (prune_db-PrunesTo max_distance from_big_endian s0 v) in
            rw entries (s', e, inr ((λ empty. uncounted protocol table empty entries), p))
      ]
