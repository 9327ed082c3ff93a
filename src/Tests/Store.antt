-- ===== src/Tests/Store.antt =====
-- A MemoryContentStore with one content, at identifiers of one byte.
use trin.Prelude.{ℕ, ◌≡◌, some, List, [], ◌∷◌, if◌then◌else◌}
use trin.Prelude.Outcome.{ok}
use trin.Storage.{
  MemoryContentStore, xor_function, same_bytes, get, put, is_key_within_radius_and_unavailable,
}
use trin.Storage.Admission.{put_lem, Answers, is_key_within_radius_and_unavailable_lem}

abbrev pub last_byte : List ℕ → ℕ
last_byte [] = 0
last_byte (b ∷ l) = b

abbrev pub id_of : ℕ → List ℕ
id_of n = n ∷ []

abbrev pub one_content : MemoryContentStore
one_content = record {
  store = (id_of 5, 239 ∷ []) ∷ [];
  node_id = id_of 4;
  distance_fn = xor_function;
  radius = 3;
}

put_lem_example :
    (s' : MemoryContentStore) × (put last_byte id_of ℕ one_content 6 (1 ∷ []) ≡ ok s')
    × ((k : ℕ)
        → get last_byte id_of ℕ s' k ≡ (
            if same_bytes (id_of 6) (id_of k)
            then ok (some (1 ∷ []))
            else get last_byte id_of ℕ one_content k))
    × (s'.radius ≡ 3)
    × (s'.node_id ≡ id_of 4)
put_lem_example = put_lem ℕ last_byte id_of one_content 6 (1 ∷ [])

is_key_within_radius_and_unavailable_lem_example :
    Answers ℕ last_byte id_of one_content 5
      (is_key_within_radius_and_unavailable last_byte id_of ℕ one_content 5)
is_key_within_radius_and_unavailable_lem_example =
    is_key_within_radius_and_unavailable_lem ℕ last_byte id_of one_content 5
