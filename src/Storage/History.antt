-- ===== src/Storage/History.antt =====
-- HistoryStorage of trin-history/src/storage.rs. The reports to the metrics, which include the size
-- of the directory, and the log are not modelled, nor is a database that fails.
pub mod Farthest
pub mod Rounds
pub mod Prune
pub mod Admits
use trin.Prelude.{
  ℕ, zero, suc, ◌+◌, ◌*◌, ◌%◌, Bool, true, false, Option, none, some, List, [], ◌∷◌, ltb, ◌==◌,
  length, if◌then◌else◌,
}
use trin.Prelude.Outcome.{Outcome, panic, error, ok, and_then}
use trin.Prelude.Words.{usize_mod, usize_sub}
use trin.Storage.{DistanceFunction, distance_by}
use trin.Storage.Table.{
  Row, byte_vector_to_u32, select_by_id, insert_value, delete, total_size, entry_count,
  find_farthest,
}

pub data ContentStoreError : Type 0 where
  database : ContentStoreError
  insufficient_radius : ℕ → ℕ → ContentStoreError
  invalid_data : ContentStoreError

pub record HistoryStorage : Type 0 where
  pub node_id : List ℕ
  pub storage_capacity_in_bytes : ℕ
  pub radius : ℕ
  pub table : List Row
  pub distance_fn : DistanceFunction
  pub network : ℕ

-- What a turn of the loop of `prune_db` does: it breaks, or goes on with the farthest content id.
pub data Turn : Type 0 where
  halts : HistoryStorage → Turn
  goes_on : HistoryStorage → Option (List ℕ) → Turn

abbrev bytes_in_mb : ℕ
bytes_in_mb = 1000 * 1000

unfoldable pub set_radius : HistoryStorage → ℕ → HistoryStorage
set_radius s radius = record s { radius = radius }

abbrev pub size_of : Option Row → Outcome ContentStoreError ℕ
size_of none = error database
size_of (some r) = ok r.content_size

unfoldable pub get_content_size : HistoryStorage → List ℕ → Outcome ContentStoreError ℕ
get_content_size s id = size_of (select_by_id id s.table)

abbrev pub get_total_storage_usage_in_bytes_from_network : HistoryStorage → ℕ
get_total_storage_usage_in_bytes_from_network s = total_size s.table

abbrev pub capacity_reached : HistoryStorage → Bool
capacity_reached s =
    ltb s.storage_capacity_in_bytes (get_total_storage_usage_in_bytes_from_network s)

unfoldable pub does_eviction_cause_under_capacity :
    HistoryStorage → List ℕ → Outcome ContentStoreError Bool
unfolding get_content_size
does_eviction_cause_under_capacity s id = and_then (get_content_size s id) (λ bytes_to_remove. ok (
    ltb (usize_sub (get_total_storage_usage_in_bytes_from_network s) bytes_to_remove)
      s.storage_capacity_in_bytes))

unfoldable pub evict : HistoryStorage → List ℕ → HistoryStorage
evict s id = record s { table = delete id s.table }

-- The id of the row, which has to have 32 bytes.
abbrev pub checked_id : Option Row → Outcome ContentStoreError (Option (List ℕ))
checked_id none = ok none
checked_id (some r) =
    if length r.content_id_long == 32 then ok (some r.content_id_long) else error invalid_data

unfoldable pub find_farthest_content_id :
    HistoryStorage → Outcome ContentStoreError (Option (List ℕ))
find_farthest_content_id s =
    checked_id (find_farthest (byte_vector_to_u32 s.node_id) s.network s.table)

-- The insertion of `store`.
abbrev pub insert : HistoryStorage → List ℕ → List ℕ → List ℕ → HistoryStorage
insert s content_id content_key value = record s {
  table = insert_value content_id content_key value s.network s.table;
}

-- `max_distance` is `Distance::MAX`.
module _ (max_distance : ℕ) (from_big_endian : List ℕ → ℕ) where
  unfoldable pub distance_to_content_id : HistoryStorage → List ℕ → ℕ
  distance_to_content_id s content_id =
      distance_by from_big_endian s.distance_fn content_id s.node_id

  -- The radius after an eviction, and the farthest id for the next turn.
  abbrev pub reset_radius : HistoryStorage → List ℕ → Option (List ℕ) → Turn
  reset_radius s id none = goes_on (set_radius s 0) (some id)
  reset_radius s id (some farthest) =
      goes_on (set_radius s (distance_to_content_id s farthest)) (some farthest)

  abbrev pub evict_turn : HistoryStorage → List ℕ → Outcome ContentStoreError Turn
  evict_turn s id =
      and_then (find_farthest_content_id (evict s id))
        (λ farthest. ok (reset_radius (evict s id) id farthest))

  -- The body of the loop of `prune_db`. Without a farthest id, `expect` panics.
  unfoldable pub prune_turn : HistoryStorage → Option (List ℕ) → Outcome ContentStoreError Turn
  unfolding does_eviction_cause_under_capacity set_radius evict find_farthest_content_id
      distance_to_content_id
  prune_turn s none = panic
  prune_turn s (some id_to_remove) =
      and_then (does_eviction_cause_under_capacity s id_to_remove) (λ under.
        if under
        then ok (halts (set_radius s (distance_to_content_id s id_to_remove)))
        else evict_turn s id_to_remove)

  -- The rest of the loop after a turn, given as a function.
  abbrev pub after_turn :
      ℕ
      → (HistoryStorage → Option (List ℕ) → Outcome ContentStoreError (ℕ × HistoryStorage))
      → Outcome ContentStoreError Turn
      → Outcome ContentStoreError (ℕ × HistoryStorage)
  after_turn num_removed_items onwards panic = panic
  after_turn num_removed_items onwards (error e) = error e
  after_turn num_removed_items onwards (ok (halts s)) = ok (num_removed_items, s)
  after_turn num_removed_items onwards (ok (goes_on s farthest)) = onwards s farthest

  -- The loop, with fuel; to run out of it is a panic.
  unfoldable pub prune_loop :
      ℕ → ℕ → HistoryStorage → Option (List ℕ) → Outcome ContentStoreError (ℕ × HistoryStorage)
  unfolding prune_turn
  prune_loop zero num_removed_items s farthest = panic
  prune_loop (suc fuel) num_removed_items s farthest =
      let turn =
        after_turn num_removed_items
          (λ s' farthest'. prune_loop fuel (num_removed_items + 1) s' farthest')
          (prune_turn s farthest) in
      if capacity_reached s then turn else ok (num_removed_items, s)

  -- Each turn but the last deletes a row.
  unfoldable pub prune_db : HistoryStorage → Outcome ContentStoreError (ℕ × HistoryStorage)
  unfolding prune_loop
  prune_db s =
      and_then (find_farthest_content_id s)
        (λ farthest. prune_loop (length s.table + 1) 0 s farthest)

  -- `config` is node id, capacity in megabytes and distance function, with the table of its database.
  unfoldable pub new :
      List ℕ → ℕ → DistanceFunction → List Row → ℕ → Outcome ContentStoreError HistoryStorage
  unfolding prune_db
  new node_id storage_capacity_mb distance_fn table protocol =
      let s : HistoryStorage = record {
        node_id = node_id;
        storage_capacity_in_bytes = (storage_capacity_mb * bytes_in_mb) % usize_mod;
        radius = max_distance;
        table = table;
        distance_fn = distance_fn;
        network = protocol;
      } in
      if entry_count protocol table == 0
      then ok (if s.storage_capacity_in_bytes == 0 then set_radius s 0 else s)
      else and_then (prune_db s) (λ (num_removed_items, s'). ok s')

  -- `store`, for a content key of the given id and bytes.
  unfoldable pub store :
      HistoryStorage → List ℕ → List ℕ → List ℕ → Outcome ContentStoreError HistoryStorage
  unfolding prune_db
  store s content_id content_key value =
      let distance = distance_to_content_id s content_id in
      if ltb s.radius distance
      then error (insufficient_radius s.radius distance)
      else and_then (prune_db (insert s content_id content_key value))
          (λ (num_removed_items, s'). ok s')
