-- ===== src/Tests/HistoryStore.antt =====
-- A HistoryStorage with two contents, of ids that differ in the first byte. The largest distance is
-- 1000, and an id counts as its first byte.
use trin.Prelude.{
  ℕ, ◌*◌, ◌%◌, ◌^◌, ◌<◌, ◌≡◌, ◌≢◌, refl, ◌⊎◌, List, [], ◌∷◌, arith, ◌==◌, length, All,
  if◌then◌else◌,
}
use trin.Prelude.Outcome.{panic, ok}
use trin.Storage.{xor_function}
use trin.Storage.Table.{Row, byte_vector_to_u32, total_size}
use trin.Storage.History.{HistoryStorage, prune_db, new}
use trin.Storage.History.Farthest.{RowIsValid}
use trin.Storage.History.Rounds.{IsValid}
use trin.Storage.History.Prune.{Pruned, PrunesTo, prune_db-PrunesTo, prune_db_other_network}
use trin.Storage.History.Admits.{configured, new_lem}

abbrev first_byte : List ℕ → ℕ
first_byte [] = 0
first_byte (b ∷ l) = b

abbrev wide_id : ℕ → List ℕ
wide_id n =
    n ∷ 0 ∷ 0 ∷ 0 ∷ 0 ∷ 0 ∷ 0 ∷ 0 ∷ 0 ∷ 0 ∷ 0 ∷ 0 ∷ 0 ∷ 0 ∷ 0 ∷ 0 ∷ 0 ∷ 0 ∷ 0 ∷ 0 ∷ 0 ∷ 0 ∷ 0 ∷ 0
    ∷ 0 ∷ 0 ∷ 0 ∷ 0 ∷ 0 ∷ 0 ∷ 0 ∷ 0 ∷ []

abbrev row_of : ℕ → List ℕ → Row
row_of n value = record {
  content_id_long = wide_id n;
  content_id_short = byte_vector_to_u32 (wide_id n);
  content_key = 0 ∷ n ∷ [];
  content_value = value;
  network = 1;
  content_size = length value;
}

row_of-RowIsValid : (n : ℕ) (value : List ℕ) → RowIsValid 1 (row_of n value)
row_of-RowIsValid n value = record { own = refl; long = refl; short = refl }

abbrev two_rows : List Row
two_rows = row_of 9 (1 ∷ 2 ∷ []) ∷ row_of 5 (7 ∷ []) ∷ []

abbrev store_of : ℕ → ℕ → HistoryStorage
store_of capacity network = record {
  node_id = wide_id 4;
  storage_capacity_in_bytes = capacity;
  radius = 1000;
  table = two_rows;
  distance_fn = xor_function;
  network = network;
}

store_of-IsValid : (capacity : ℕ) → IsValid (store_of capacity 1)
unfolding total_size
store_of-IsValid capacity = record {
  rows = (row_of-RowIsValid 9 (1 ∷ 2 ∷ []), (row_of-RowIsValid 5 (7 ∷ []), tt));
  exact = omega arith;
}

prune_db-PrunesTo_example :
    PrunesTo 1000 first_byte (store_of 1 1) (prune_db 1000 first_byte (store_of 1 1))
prune_db-PrunesTo_example = prune_db-PrunesTo 1000 first_byte (store_of 1 1) (store_of-IsValid 1)

two_rows_other_network : All (λ r. r.network ≢ 2) two_rows
two_rows_other_network = ((λ e. omega (arith, e)), ((λ e. omega (arith, e)), tt))

two_rows_full : 1 < total_size two_rows
unfolding total_size
two_rows_full = omega arith

prune_db_other_network_example : prune_db 1000 first_byte (store_of 1 2) ≡ panic
prune_db_other_network_example =
    prune_db_other_network 1000 first_byte (store_of 1 2) two_rows_other_network two_rows_full

-- Two contents of a million bytes each, by the sizes that the table has, and a capacity of one million.
abbrev large_rows : List Row
large_rows =
    record (row_of 9 (1 ∷ [])) { content_size = 1000000 }
    ∷ record (row_of 5 (7 ∷ [])) { content_size = 1000000 }
    ∷ []

large_rows_exact : total_size large_rows < 2 ^ 53
unfolding total_size
large_rows_exact = omega arith

new_lem_example :
    let s0 = configured 1000 first_byte (wide_id 4) 1 xor_function large_rows 1 in
    (s : HistoryStorage) × (new 1000 first_byte (wide_id 4) 1 xor_function large_rows 1 ≡ ok s)
    × (((large_rows ≡ [])
          × (s ≡ record s0 { radius = if (1 * 1000000) % 2 ^ 64 == 0 then 0 else 1000 }))
        ⊎ ((large_rows ≢ []) × Pruned 1000 first_byte s0 s))
new_lem_example =
    new_lem 1000 first_byte (wide_id 4) 1 xor_function large_rows 1
      (
        record { own = refl; long = refl; short = refl },
        (record { own = refl; long = refl; short = refl }, tt),
      )
      large_rows_exact
