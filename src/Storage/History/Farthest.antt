-- ===== src/Storage/History/Farthest.antt =====
-- What the statements on the table find, where all rows belong to one network.
use trin.Prelude.{
  ℕ, ◌≤◌, ◌<◌, ◌≡◌, refl, ◌⊎◌, inl, inr, true, none, some, List, [], ◌∷◌, arith, leb, ◌==◌, length,
  All, In, here, there, In-cons, All-map, Bool-cases, leb→le,
}
use trin.Storage.Bytes.{same_bytes_refl, same_bytes→≡}
use trin.Storage.Table.{
  Row, byte_vector_to_u32, has_id, select_by_id, delete, total_size, short_distance, find_farthest,
}

-- The rows belong to the network, and an id has 32 bytes, of which the short id is the first four.
pub record RowIsValid (network : ℕ) (r : Row) : Type 0 where
  pub own : r.network ≡ network
  pub long : length r.content_id_long ≡ 32
  pub short : r.content_id_short ≡ byte_vector_to_u32 r.content_id_long

-- No row of the table is farther.
abbrev pub IsFarthest : ℕ → List Row → Row → Type 0
IsFarthest u table r = All (λ q. short_distance u q ≤ short_distance u r) table

pub total_size-In : (r : Row) (table : List Row) → In r table → r.content_size ≤ total_size table
unfolding total_size
total_size-In r [] i = elim i [ ]
total_size-In r (q ∷ table) (here _) = omega arith
total_size-In r (q ∷ table) (there _ _ i) = omega (arith, total_size-In r table i)

-- A row of the table is found by its id, or another one of the same id.
pub select_by_id-In :
    (r : Row) (table : List Row)
    → In r table
    → (q : Row) × (select_by_id r.content_id_long table ≡ some q)
      × In q table
      × (q.content_id_long ≡ r.content_id_long)
unfolding select_by_id
select_by_id-In r [] i = elim i [ ]
select_by_id-In r (q ∷ table) (here _) =
    let found : has_id r.content_id_long r ≡ true = same_bytes_refl r.content_id_long in
    (r, (rw found refl), here table, refl)
select_by_id-In r (q ∷ table) (there _ _ i) = elim (Bool-cases (has_id r.content_id_long q)) [
  | inl found ↦
      (q, (rw found refl), here table, same_bytes→≡ q.content_id_long r.content_id_long found)
  | inr other ↦
      let (p, e, k, same) = select_by_id-In r table i in (p, (rw other e), there q table k, same)
]

pub delete-In : (id : List ℕ) (r : Row) (table : List Row) → In r (delete id table) → In r table
unfolding delete
delete-In id r [] i = elim i [ ]
delete-In id r (q ∷ table) i = elim (Bool-cases (has_id id q)) [
  | inl found ↦ there q table (delete-In id r table (rw found at i))
  | inr other ↦ In-cons (delete id table) table (delete-In id r table) (rw other at i)
]

-- A row of the table stays, unless it has the id.
pub In-delete :
    (id : List ℕ) (r : Row) (table : List Row)
    → In r table
    → In r (delete id table) ⊎ (r.content_id_long ≡ id)
unfolding delete
In-delete id r [] i = elim i [ ]
In-delete id r (q ∷ table) (here _) = elim (Bool-cases (has_id id r)) [
  | inl found ↦ inr (same_bytes→≡ r.content_id_long id found)
  | inr other ↦ rw other (inl (here (delete id table)))
]
In-delete id r (q ∷ table) (there _ _ i) = elim (In-delete id r table i) [
  | inl kept ↦ elim (Bool-cases (has_id id q)) [
    | inl found ↦ rw found (inl kept)
    | inr other ↦ rw other (inl (there q (delete id table) kept))
  ]
  | inr gone ↦ inr gone
]

pub All-delete :
    (P : Row → Type 0) (id : List ℕ) (table : List Row) → All P table → All P (delete id table)
unfolding delete
All-delete P id [] a = tt
All-delete P id (q ∷ table) a = elim (Bool-cases (has_id id q)) [
  | inl found ↦ rw found (All-delete P id table a.1)
  | inr other ↦ rw other (a.0, All-delete P id table a.1)
]

pub total_size-delete :
    (id : List ℕ) (table : List Row) → total_size (delete id table) ≤ total_size table
unfolding delete total_size
total_size-delete id [] = omega arith
total_size-delete id (q ∷ table) = elim (Bool-cases (has_id id q)) [
  | inl found ↦ rw found (omega (arith, total_size-delete id table))
  | inr other ↦ rw other (omega (arith, total_size-delete id table))
]

length-delete-le : (id : List ℕ) (table : List Row) → length (delete id table) ≤ length table
unfolding delete
length-delete-le id [] = omega arith
length-delete-le id (q ∷ table) = elim (Bool-cases (has_id id q)) [
  | inl found ↦ rw found (omega (arith, length-delete-le id table))
  | inr other ↦ rw other (omega (arith, length-delete-le id table))
]

pub length-delete-lt :
    (r : Row) (table : List Row)
    → In r table
    → length (delete r.content_id_long table) < length table
unfolding delete
length-delete-lt r [] i = elim i [ ]
length-delete-lt r (q ∷ table) (here _) =
    let found : has_id r.content_id_long r ≡ true = same_bytes_refl r.content_id_long in
    rw found (omega (arith, length-delete-le r.content_id_long table))
length-delete-lt r (q ∷ table) (there _ _ i) = elim (Bool-cases (has_id r.content_id_long q)) [
  | inl found ↦ rw found (omega (arith, length-delete-le r.content_id_long table))
  | inr other ↦ rw other (omega (arith, length-delete-lt r table i))
]

-- A farthest row is found, unless the table is empty.
pub find_farthest_lem :
    (u network : ℕ) (table : List Row)
    → All (RowIsValid network) table
    → ((find_farthest u network table ≡ none) × (table ≡ []))
      ⊎ ((r : Row) × (find_farthest u network table ≡ some r) × In r table × IsFarthest u table r)
unfolding find_farthest
find_farthest_lem u network [] a = inl (refl, refl)
find_farthest_lem u network (q ∷ table) a =
    let own : (q.network == network) ≡ true = ground (arith, a.0.own) in
    elim (find_farthest_lem u network table a.1) [
      | inl (e, empty) ↦ inr (q, (rw (own, e) refl), here table, (omega arith, rw empty tt))
      | inr (r, e, i, far) ↦ elim (Bool-cases (leb (short_distance u r) (short_distance u q))) [
        | inl farther ↦
            let h : short_distance u r ≤ short_distance u q = leb→le _ _ farther in
            inr (
              q,
              (rw (own, e, farther) refl),
              here table,
              (
                omega arith,
                All-map (λ p. short_distance u p ≤ short_distance u r)
                    (λ p. short_distance u p ≤ short_distance u q) table (λ p g. omega arith) far,
              ),
            )
        | inr nearer ↦
            let h : short_distance u q ≤ short_distance u r = ground arith in
            inr (r, (rw (own, e, nearer) refl), there q table i, (h, far))
      ]
    ]
