-- ===== src/Storage/Admission.antt =====
-- What the store holds, and what it admits.
use mathlib.Core.Bool.{true≢false}
use trin.Prelude.{
  ℕ, ◌<◌, ◌≤◌, ◌≡◌, refl, ap, sym, ◌∙◌, ◌⊎◌, inl, inr, Bool, true, false, Option, none, some, List,
  [], ◌∷◌, arith, ltb, Bool-cases, if◌then◌else◌,
}
use trin.Prelude.Outcome.{Outcome, ok}
use trin.Storage.Bytes.{same_bytes_refl, same_bytes→≡}
use trin.Storage.{
  ShouldWeStoreContent, store_it, not_within_radius, already_stored, MemoryContentStore, same_bytes,
  lookup, is_key, insert_bytes, distance_to_key, contains_key, get, put,
  is_key_within_radius_and_unavailable,
}

not_both :
    (j k k' : List ℕ) → same_bytes j k ≡ false → same_bytes j k' ≡ true → same_bytes k k' ≡ false
not_both j k k' other s = elim (Bool-cases (same_bytes k k')) [
  | inl both ↦
      let same : j ≡ k = same_bytes→≡ j k' s ∙ sym (same_bytes→≡ k k' both) in
      absurd (true≢false (sym (same_bytes_refl k) ∙ (ap (λ x. same_bytes x k) (sym same) ∙ other)))
  | inr apart ↦ apart
]

lookup-insert_bytes :
    (k k' v : List ℕ) (m : List (List ℕ × List ℕ))
    → lookup k' (insert_bytes k v m) ≡ (if same_bytes k k' then some v else lookup k' m)
lookup-insert_bytes k k' v [] = refl
lookup-insert_bytes k k' v ((j, w) ∷ m) = elim (Bool-cases (same_bytes j k)) [
  | inl found ↦
      rw (found, sym (same_bytes→≡ j k found))
        (elim (Bool-cases (same_bytes j k')) [ inl s ↦ rw s refl | inr s ↦ rw s refl ])
  | inr other ↦
      rw (other, lookup-insert_bytes k k' v m)
        (elim (Bool-cases (same_bytes j k')) [
          | inl s ↦
              let apart : same_bytes k k' ≡ false = not_both j k k' other s in rw (s, apart) refl
          | inr s ↦ rw s refl
        ])
]

-- A key is there just when it is found.
is_key-lookup :
    (k : List ℕ) (m : List (List ℕ × List ℕ))
    → ((is_key k m ≡ true) × ((v : List ℕ) × (lookup k m ≡ some v)))
      ⊎ ((is_key k m ≡ false) × (lookup k m ≡ none))
is_key-lookup k [] = inr (refl, refl)
is_key-lookup k ((j, w) ∷ m) = elim (Bool-cases (same_bytes j k)) [
  | inl found ↦ rw found (inl (refl, (w, refl)))
  | inr other ↦ rw other (is_key-lookup k m)
]

module _ {ContentKey : Type 0} (E : Type 0) (from_big_endian : List ℕ → ℕ)
    (content_id : ContentKey → List ℕ) where
  abbrev pub found : MemoryContentStore → ContentKey → Option (List ℕ)
  found s key = lookup (content_id key) s.store

  abbrev given : Option (List ℕ) → Outcome E (Option (List ℕ))
  given o = ok o

  -- Putting a content succeeds. Keys whose content id has the same bytes then find it; what other
  -- keys find stays, and so do the radius and the node id.
  pub put_lem :
      (s : MemoryContentStore) (key : ContentKey) (value : List ℕ)
      → (s' : MemoryContentStore) × (put from_big_endian content_id E s key value ≡ ok s')
        × ((k : ContentKey)
            → get from_big_endian content_id E s' k ≡ (
                if same_bytes (content_id key) (content_id k)
                then ok (some value)
                else get from_big_endian content_id E s k))
        × (s'.radius ≡ s.radius)
        × (s'.node_id ≡ s.node_id)
  unfolding put get
  put_lem s key value = (
    record s { store = insert_bytes (content_id key) value s.store },
    refl,
    (λ k.
        ap ok (lookup-insert_bytes (content_id key) (content_id k) value s.store)
        ∙ inside (same_bytes (content_id key) (content_id k)) (found s k)),
    refl,
    refl,
  )
    where
      inside :
          (b : Bool) (o : Option (List ℕ))
          → given (if b then some value else o) ≡ (if b then ok (some value) else ok o)
      inside true o = refl
      inside false o = refl

  -- What the store answers for a key, in three cases: too far, found, or neither.
  abbrev pub Answers : MemoryContentStore → ContentKey → Outcome E ShouldWeStoreContent → Type 0
  Answers s key o =
      ((s.radius < distance_to_key from_big_endian content_id s key) × (o ≡ ok not_within_radius))
      ⊎ ((distance_to_key from_big_endian content_id s key ≤ s.radius)
          × ((v : List ℕ) × (get from_big_endian content_id E s key ≡ ok (some v)))
          × (o ≡ ok already_stored))
      ⊎ ((distance_to_key from_big_endian content_id s key ≤ s.radius)
          × (get from_big_endian content_id E s key ≡ ok none)
          × (o ≡ ok store_it))

  -- A content is to be stored just when its distance to the node is within the radius and `get` does
  -- not find it; it is reported as too far beyond the radius, stored or not, and as stored otherwise.
  pub is_key_within_radius_and_unavailable_lem :
      (s : MemoryContentStore) (key : ContentKey)
      → Answers s key (is_key_within_radius_and_unavailable from_big_endian content_id E s key)
  unfolding is_key_within_radius_and_unavailable contains_key get
  is_key_within_radius_and_unavailable_lem s key =
      let d = distance_to_key from_big_endian content_id s key in
      elim (Bool-cases (ltb s.radius d)) [
        | inl far ↦ rw far (inl (ground arith, refl))
        | inr near ↦ elim (is_key-lookup (content_id key) s.store) [
          | inl (there, (v, e)) ↦ rw (near, there) (inr (inl (ground arith, (v, ap ok e), refl)))
          | inr (absent, e) ↦ rw (near, absent) (inr (inr (ground arith, ap ok e, refl)))
        ]
      ]
