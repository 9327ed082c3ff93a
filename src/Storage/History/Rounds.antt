-- ===== src/Storage/History/Rounds.antt =====
-- The invariant of the store, and one turn of the loop of `prune_db`.
use trin.Prelude.{
  ℕ, ◌+◌, ◌-◌, ◌^◌, ◌≤◌, ◌<◌, ◌≡◌, refl, sym, ap, ◌∙◌, ◌⊎◌, inl, inr, true, Option, none, some,
  List, [], arith, ltb, ◌==◌, length, All, In, All-In, Bool-cases,
}
use trin.Prelude.Outcome.{Outcome, panic, error, ok}
use trin.Prelude.Words.{usize_sub}
use trin.Storage.Table.{Row, byte_vector_to_u32, total_size, short_distance}
use trin.Storage.History.{
  ContentStoreError, HistoryStorage, Turn, halts, goes_on, set_radius, evict,
  find_farthest_content_id, distance_to_content_id, evict_turn, prune_turn,
}
use trin.Storage.History.Farthest.{
  RowIsValid, IsFarthest, total_size-In, select_by_id-In, delete-In, In-delete, All-delete,
  total_size-delete, length-delete-lt, find_farthest_lem,
}

-- All rows are of the network of the store, and their sizes add up to less than 2 ^ 53, below which
-- the `f64` of the query is exact.
pub record IsValid (s : HistoryStorage) : Type 0 where
  pub rows : All (RowIsValid s.network) s.table
  pub exact : total_size s.table < 2 ^ 53

abbrev pub node_short : HistoryStorage → ℕ
node_short s = byte_vector_to_u32 s.node_id

-- The farthest id as the loop holds it: that of a farthest row, unless the table is empty.
abbrev pub Holds : HistoryStorage → Option (List ℕ) → Type 0
Holds s none = s.table ≡ []
Holds s (some id) =
    (s.table ≡ [])
    ⊎ ((r : Row) × In r s.table × IsFarthest (node_short s) s.table r × (r.content_id_long ≡ id))

pub find_farthest_content_id_lem :
    (s : HistoryStorage)
    → IsValid s
    → ((find_farthest_content_id s ≡ ok none) × (s.table ≡ []))
      ⊎ ((r : Row) × (find_farthest_content_id s ≡ ok (some r.content_id_long))
          × In r s.table
          × IsFarthest (node_short s) s.table r)
unfolding find_farthest_content_id
find_farthest_content_id_lem s v =
    elim (find_farthest_lem (node_short s) s.network s.table v.rows) [
      | inl (e, empty) ↦ inl ((rw e refl), empty)
      | inr (r, e, i, far) ↦
          let row = All-In (RowIsValid s.network) s.table v.rows i in
          let whole : (length r.content_id_long == 32) ≡ true = ground (arith, row.long) in
          inr (r, (rw (e, whole) refl), i, far)
    ]

pub evict-IsValid : (s : HistoryStorage) (id : List ℕ) → IsValid s → IsValid (evict s id)
unfolding evict
evict-IsValid s id v = record {
  rows = All-delete (RowIsValid s.network) id s.table v.rows;
  exact = omega (arith, v.exact, total_size-delete id s.table);
}

pub set_radius-IsValid :
    (s : HistoryStorage) (radius : ℕ) → IsValid s → IsValid (set_radius s radius)
unfolding set_radius
set_radius-IsValid s radius v = record { rows = v.rows; exact = v.exact }

-- Rows of one id are equally far.
short_distance-id :
    (u network : ℕ) (q r : Row)
    → RowIsValid network q
    → RowIsValid network r
    → q.content_id_long ≡ r.content_id_long
    → short_distance u q ≡ short_distance u r
short_distance-id u network q r vq vr e =
    let same : q.content_id_short ≡ r.content_id_short =
      vq.short ∙ (ap byte_vector_to_u32 e ∙ sym vr.short) in
    rw same refl

module _ (max_distance : ℕ) (from_big_endian : List ℕ → ℕ) where
  -- Which rows eviction takes: none that is nearer than a row that it leaves.
  pub record Evicts (s s' : HistoryStorage) : Type 0 where
    pub node : s'.node_id ≡ s.node_id
    pub capacity : s'.storage_capacity_in_bytes ≡ s.storage_capacity_in_bytes
    pub distance : s'.distance_fn ≡ s.distance_fn
    pub network : s'.network ≡ s.network
    pub kept : (r : Row) → In r s'.table → In r s.table
    pub evicted : (r : Row) → In r s.table → In r s'.table ⊎ IsFarthest (node_short s) s'.table r

  -- The usage is within the capacity, or the farthest content takes it out: without that it would be
  -- below.
  abbrev pub Fitted : HistoryStorage → Type 0
  Fitted s =
      (total_size s.table ≤ s.storage_capacity_in_bytes)
      ⊎ ((r : Row) × In r s.table
          × IsFarthest (node_short s) s.table r
          × (total_size s.table < s.storage_capacity_in_bytes + r.content_size))

  -- The radius reaches to a farthest content.
  abbrev pub RadiusFits : HistoryStorage → Type 0
  RadiusFits s =
      ((s.table ≡ []) × (s.radius ≡ 0))
      ⊎ ((r : Row) × In r s.table
          × IsFarthest (node_short s) s.table r
          × (s.radius ≡ distance_to_content_id max_distance from_big_endian s r.content_id_long))

  -- What one turn does at a valid store over its capacity.
  abbrev pub TurnFrom : HistoryStorage → Outcome ContentStoreError Turn → Type 0
  TurnFrom s panic = ⊥
  TurnFrom s (error e) = ⊥
  TurnFrom s (ok (halts s')) =
      IsValid s' × Evicts s s' × (s'.table ≡ s.table) × Fitted s' × RadiusFits s'
  TurnFrom s (ok (goes_on s' farthest)) =
      IsValid s'
      × Evicts s s'
      × (length s'.table < length s.table)
      × Holds s' farthest
      × RadiusFits s'

  Evicts-delete :
      (s : HistoryStorage) (r : Row) (radius : ℕ)
      → IsValid s
      → In r s.table
      → IsFarthest (node_short s) s.table r
      → Evicts s (set_radius (evict s r.content_id_long) radius)
  unfolding set_radius evict
  Evicts-delete s r radius v i far = record {
    node = refl;
    capacity = refl;
    distance = refl;
    network = refl;
    kept = λ q. delete-In r.content_id_long q s.table;
    evicted = λ q k. elim (In-delete r.content_id_long q s.table k) [
      | inl stays ↦ inl stays
      | inr same ↦
          let vq = All-In (RowIsValid s.network) s.table v.rows k in
          let vr = All-In (RowIsValid s.network) s.table v.rows i in
          let equal = short_distance-id (node_short s) s.network q r vq vr same in
          inr (
            All-delete (λ p. short_distance (node_short s) p ≤ short_distance (node_short s) q)
              r.content_id_long s.table (rw equal far))
    ];
  }

  evict_turn-TurnFrom :
      (s : HistoryStorage) (r : Row)
      → IsValid s
      → In r s.table
      → IsFarthest (node_short s) s.table r
      → TurnFrom s (evict_turn max_distance from_big_endian s r.content_id_long)
  unfolding set_radius evict distance_to_content_id
  evict_turn-TurnFrom s r v i far =
      let v' = evict-IsValid s r.content_id_long v in
      let fewer = length-delete-lt r s.table i in
      elim (find_farthest_content_id_lem (evict s r.content_id_long) v') [
        | inl (e, empty) ↦ rw e (
          set_radius-IsValid (evict s r.content_id_long) _ v',
          Evicts-delete s r 0 v i far,
          fewer,
          inl empty,
          inl (empty, refl),
        )
        | inr (r', e, i', far') ↦ rw e (
          set_radius-IsValid (evict s r.content_id_long) _ v',
          Evicts-delete s r _ v i far,
          fewer,
          inr (r', i', far', refl),
          inr (r', i', far', refl),
        )
      ]

  pub prune_turn-TurnFrom :
      (s : HistoryStorage) (r : Row)
      → IsValid s
      → In r s.table
      → IsFarthest (node_short s) s.table r
      → TurnFrom s (prune_turn max_distance from_big_endian s (some r.content_id_long))
  unfolding prune_turn
  prune_turn-TurnFrom s r v i far =
      let (q, e, k, same) = select_by_id-In r s.table i in
      let below = total_size-In q s.table k in
      let exact = v.exact in
      let left : usize_sub (total_size s.table) q.content_size
          ≡ total_size s.table - q.content_size =
        omega arith in
      let vq = All-In (RowIsValid s.network) s.table v.rows k in
      let vr = All-In (RowIsValid s.network) s.table v.rows i in
      let equal = short_distance-id (node_short s) s.network q r vq vr same in
      elim (Bool-cases (ltb (total_size s.table - q.content_size) s.storage_capacity_in_bytes)) [
        | inl under ↦
            rw (e, left, under)
              (
                set_radius-IsValid s _ v,
                record {
                  node = refl;
                  capacity = refl;
                  distance = refl;
                  network = refl;
                  kept = λ p j. j;
                  evicted = λ p j. inl j;
                },
                refl,
                inr (q, k, rw equal far, ground arith),
                inr (r, i, far, refl),
              )
        | inr over ↦ rw (e, left, over) (evict_turn-TurnFrom s r v i far)
      ]
