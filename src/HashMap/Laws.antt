-- ===== src/HashMap/Laws.antt =====
-- What lookups find in a map whose keys are distinct.
use trin.Prelude.{
  ℕ, ◌≡◌, ◌≢◌, ◌⊎◌, refl, ap, ◌∙◌, none, some, List, [], ◌∷◌, arith, ◌==◌, All, Bool-cases, inl,
  inr, if◌then◌else◌,
}
use trin.HashMap.{HashMap, get, remove, insert, keys}

-- The keys differ from one another.
abbrev pub Distinct : List ℕ → Type 0
Distinct [] = Unit
Distinct (k ∷ ks) = All (λ j. j ≢ k) ks × Distinct ks

abbrev pub without : ℕ → List ℕ → List ℕ
without k [] = []
without k (j ∷ ks) = if j == k then ks else j ∷ without k ks

module _ {ℓ} {V : Type ℓ} where
  pub get_absent : (k : ℕ) (m : HashMap V) → All (λ j. j ≢ k) (keys m) → get k m ≡ none
  unfolding get
  get_absent k [] h = refl
  get_absent k ((j, v) ∷ m) h = ground (arith, get_absent k m h.1)

  pub get-remove :
      (k j : ℕ) (m : HashMap V)
      → Distinct (keys m)
      → get j (remove k m) ≡ (if k == j then none else get j m)
  unfolding get remove
  get-remove k j [] h = ground arith
  get-remove k j ((i, v) ∷ m) h = ground (arith, get-remove k j m h.1, absent)
    where
      absent : get i m ≡ none
      absent = get_absent i m h.0

  pub keys-remove : (k : ℕ) (m : HashMap V) → keys (remove k m) ≡ without k (keys m)
  unfolding remove
  keys-remove k [] = refl
  keys-remove k ((j, v) ∷ m) = ground (arith, keys-remove k m)

  pub get-insert :
      (k j : ℕ) (v : V) (m : HashMap V)
      → Distinct (keys m)
      → get j (insert k v m) ≡ (if k == j then some v else get j m)
  unfolding get insert
  get-insert k j v m h = ground (arith, get-remove k j m h)

pub All-without : (P : ℕ → Type 0) (k : ℕ) (ks : List ℕ) → All P ks → All P (without k ks)
All-without P k [] h = tt
All-without P k (j ∷ ks) h = elim (Bool-cases (j == k)) [
  | inl here ↦ rw here h.1
  | inr there ↦ rw there (h.0, All-without P k ks h.1)
]

pub Distinct-without : (k : ℕ) (ks : List ℕ) → Distinct ks → Distinct (without k ks)
Distinct-without k [] h = tt
Distinct-without k (j ∷ ks) h = elim (Bool-cases (j == k)) [
  | inl here ↦ rw here h.1
  | inr there ↦ rw there (All-without (λ i. i ≢ j) k ks h.0, Distinct-without k ks h.1)
]

abbrev pub OneOf : ℕ → List ℕ → Type 0
OneOf k [] = ⊥
OneOf k (j ∷ ks) = (j ≡ k) ⊎ OneOf k ks

module _ {ℓ} {V : Type ℓ} where
  pub get_present : (k : ℕ) (m : HashMap V) → OneOf k (keys m) → (v : V) × (get k m ≡ some v)
  unfolding get
  get_present k [] h = absurd h
  get_present k ((j, v) ∷ m) h = elim (Bool-cases (j == k)) [
    | inl here ↦ (v, rw here)
    | inr there ↦ elim h [
      | inl same ↦ absurd (ground arith)
      | inr later ↦ rw there (get_present k m later)
    ]
  ]

  pub get_removed : (k : ℕ) (m : HashMap V) → Distinct (keys m) → get k (remove k m) ≡ none
  get_removed k m h = ground (arith, get-remove k k m h)

  pub remove_absent : (k : ℕ) (m : HashMap V) → All (λ j. j ≢ k) (keys m) → remove k m ≡ m
  unfolding remove
  remove_absent k [] h = refl
  remove_absent k ((j, v) ∷ m) h = ground (arith, remove_absent k m h.1)

  -- A new key adds an entry and changes no other.
  pub insert_absent :
      (k : ℕ) (v : V) (m : HashMap V) → All (λ j. j ≢ k) (keys m) → insert k v m ≡ (k, v) ∷ m
  unfolding insert
  insert_absent k v m h = ap (◌∷◌ (k, v)) (remove_absent k m h)

pub OneOf-ne : (id j : ℕ) (ks : List ℕ) → OneOf id ks → All (λ i. i ≢ j) ks → id ≢ j
OneOf-ne id j [] h a = absurd h
OneOf-ne id j (k ∷ ks) h a = elim h [
  | inl same ↦ λ e. a.0 (same ∙ e)
  | inr rest ↦ OneOf-ne id j ks rest a.1
]
