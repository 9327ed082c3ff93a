-- ===== src/Storage/Table.antt =====
-- The table `content_data` of the SQLite database and the statements on it, trin-storage/src/sql.rs
-- and utils.rs. A row holds the bytes whose hexadecimal text the database holds. That a statement
-- fails is not modelled.
use Prim.Native.Nat.{bit_and, bit_or}
use trin.Prelude.{
  ℕ, ◌+◌, ◌-◌, ◌*◌, Bool, Option, none, some, List, [], ◌∷◌, leb, ◌==◌, length, if◌then◌else◌,
}
use trin.Storage.{same_bytes}

pub record Row : Type 0 where
  pub content_id_long : List ℕ
  pub content_id_short : ℕ
  pub content_key : List ℕ
  pub content_value : List ℕ
  pub network : ℕ
  pub content_size : ℕ

-- `byte_vector_to_u32`: the first four bytes, or 0 if there are fewer.
abbrev pub byte_vector_to_u32 : List ℕ → ℕ
byte_vector_to_u32 [] = 0
byte_vector_to_u32 (a ∷ []) = 0
byte_vector_to_u32 (a ∷ b ∷ []) = 0
byte_vector_to_u32 (a ∷ b ∷ c ∷ []) = 0
byte_vector_to_u32 (a ∷ b ∷ c ∷ d ∷ l) = ((a * 256 + b) * 256 + c) * 256 + d

abbrev pub has_id : List ℕ → Row → Bool
has_id id r = same_bytes r.content_id_long id

-- The row with an id: CONTENT_KEY_LOOKUP_QUERY_DB, CONTENT_VALUE_LOOKUP_QUERY_DB and
-- CONTENT_SIZE_LOOKUP_QUERY_DB each read a column of it.
unfoldable pub select_by_id : List ℕ → List Row → Option Row
select_by_id id [] = none
select_by_id id (r ∷ table) =
    let rest = select_by_id id table in if has_id id r then some r else rest

-- INSERT_QUERY_NETWORK
abbrev pub insert_or_ignore : Option Row → Row → List Row → List Row
insert_or_ignore none r table = r ∷ table
insert_or_ignore (some old) r table = table

-- `insert_value`. Its error for a key that starts with 0x does not arise: the text of bytes has no x.
unfoldable pub insert_value : List ℕ → List ℕ → List ℕ → ℕ → List Row → List Row
insert_value content_id content_key value network_id table =
    insert_or_ignore (select_by_id content_id table)
      (record {
        content_id_long = content_id;
        content_id_short = byte_vector_to_u32 content_id;
        content_key = content_key;
        content_value = value;
        network = network_id;
        content_size = length value;
      })
      table

-- DELETE_QUERY_DB
unfoldable pub delete : List ℕ → List Row → List Row
delete id [] = []
delete id (r ∷ table) = let rest = delete id table in if has_id id r then rest else r ∷ rest

-- TOTAL_DATA_SIZE_QUERY_DB, over the rows of every network.
unfoldable pub total_size : List Row → ℕ
total_size [] = 0
total_size (r ∷ table) = r.content_size + total_size table

-- TOTAL_ENTRY_COUNT_QUERY_NETWORK
unfoldable pub entry_count : ℕ → List Row → ℕ
entry_count network [] = 0
entry_count network (r ∷ table) =
    let rest = entry_count network table in if r.network == network then 1 + rest else rest

-- The key by which XOR_FIND_FARTHEST_QUERY_NETWORK sorts.
abbrev pub short_distance : ℕ → Row → ℕ
short_distance node_id_u32 r =
    bit_or node_id_u32 r.content_id_short - bit_and node_id_u32 r.content_id_short

abbrev pub farther_of : ℕ → Row → Option Row → Option Row
farther_of node_id_u32 r none = some r
farther_of node_id_u32 r (some q) =
    if leb (short_distance node_id_u32 q) (short_distance node_id_u32 r) then some r else some q

-- The first row of XOR_FIND_FARTHEST_QUERY_NETWORK. Of several, the earliest in the table stands
-- first; SQLite does not say.
unfoldable pub find_farthest : ℕ → ℕ → List Row → Option Row
find_farthest node_id_u32 network [] = none
find_farthest node_id_u32 network (r ∷ table) =
    let rest = find_farthest node_id_u32 network table in
    if r.network == network then farther_of node_id_u32 r rest else rest
