-- ===== src/Storage.antt =====
-- MemoryContentStore of trin-storage/src/lib.rs. Its hash map is an association list from the bytes
-- of content ids; `E` is the type ContentStoreError, of which this store never returns a value.
pub mod Bytes
pub mod Admission
pub mod Table
pub mod History
use trin.Prelude.{
  ℕ, Bool, true, false, ◌&&◌, Option, none, some, List, [], ◌∷◌, ltb, ◌==◌, if◌then◌else◌,
}
use trin.Prelude.Outcome.{Outcome, ok}
use trin.Distance.{xor_distance}

pub data DistanceFunction : Type 0 where
  xor_function : DistanceFunction

pub data ShouldWeStoreContent : Type 0 where
  store_it : ShouldWeStoreContent
  not_within_radius : ShouldWeStoreContent
  already_stored : ShouldWeStoreContent

pub record MemoryContentStore : Type 0 where
  pub store : List (List ℕ × List ℕ)
  pub node_id : List ℕ
  pub distance_fn : DistanceFunction
  pub radius : ℕ

abbrev pub same_bytes : List ℕ → List ℕ → Bool
same_bytes [] [] = true
same_bytes [] (b ∷ y) = false
same_bytes (a ∷ x) [] = false
same_bytes (a ∷ x) (b ∷ y) = (a == b) && same_bytes x y

-- `get`, `contains_key` and `insert` of the hash map.
abbrev pub lookup : List ℕ → List (List ℕ × List ℕ) → Option (List ℕ)
lookup k [] = none
lookup k ((j, v) ∷ m) = let rest = lookup k m in if same_bytes j k then some v else rest

abbrev pub is_key : List ℕ → List (List ℕ × List ℕ) → Bool
is_key k [] = false
is_key k ((j, v) ∷ m) = let rest = is_key k m in if same_bytes j k then true else rest

abbrev pub insert_bytes : List ℕ → List ℕ → List (List ℕ × List ℕ) → List (List ℕ × List ℕ)
insert_bytes k v [] = (k, v) ∷ []
insert_bytes k v ((j, w) ∷ m) =
    let rest = insert_bytes k v m in if same_bytes j k then (j, v) ∷ m else (j, w) ∷ rest

-- `max_distance` is `Distance::MAX`.
unfoldable pub new : ℕ → List ℕ → DistanceFunction → MemoryContentStore
new max_distance node_id distance_fn = record {
  store = [];
  node_id = node_id;
  distance_fn = distance_fn;
  radius = max_distance;
}

unfoldable pub set_radius : MemoryContentStore → ℕ → MemoryContentStore
set_radius s radius = record s { radius = radius }

abbrev pub distance_by : (List ℕ → ℕ) → DistanceFunction → List ℕ → List ℕ → ℕ
distance_by from_big_endian xor_function x y = xor_distance from_big_endian x y

-- `content_id` is that of the trait OverlayContentKey.
module _ {ContentKey : Type 0} (from_big_endian : List ℕ → ℕ)
    (content_id : ContentKey → List ℕ) where
  unfoldable pub distance_to_key : MemoryContentStore → ContentKey → ℕ
  distance_to_key s key = distance_by from_big_endian s.distance_fn (content_id key) s.node_id

  unfoldable pub contains_key : MemoryContentStore → ContentKey → Bool
  contains_key s key = is_key (content_id key) s.store

  module _ (E : Type 0) where
    unfoldable pub get : MemoryContentStore → ContentKey → Outcome E (Option (List ℕ))
    get s key = ok (lookup (content_id key) s.store)

    unfoldable pub put : MemoryContentStore → ContentKey → List ℕ → Outcome E MemoryContentStore
    put s key value = ok (record s { store = insert_bytes (content_id key) value s.store })

    unfoldable pub is_key_within_radius_and_unavailable :
        MemoryContentStore → ContentKey → Outcome E ShouldWeStoreContent
    unfolding distance_to_key contains_key
    is_key_within_radius_and_unavailable s key =
        if ltb s.radius (distance_to_key s key)
        then ok not_within_radius
        else if contains_key s key
        then ok already_stored
        else ok store_it
