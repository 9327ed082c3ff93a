-- ===== src/Find/QueryInfo/Distances.antt =====
-- The distances that a FINDNODE request asks for.
use trin.Prelude.{
  ℕ, zero, suc, ◌+◌, ◌-◌, ◌%◌, ◌^◌, ◌≤◌, ◌<◌, ◌≡◌, ◌≢◌, refl, sym, ap, ◌⊎◌, true, false, Option,
  none, some, List, [], ◌∷◌, ◌++◌, arith, ltb, leb, length, length-append, take, All, Bool-cases,
  inl, inr,
}
use trin.HashMap.Laws.{Distinct}
use trin.Find.QueryInfo.{
  Asked, panics, itself, asks, u16_add, push_above, push_below, fill, slice, rounds,
  findnode_log2distance,
}

All-snoc : (P : ℕ → Type 0) (l : List ℕ) (x : ℕ) → All P l → P x → All P (l ++ x ∷ [])
All-snoc P [] x a h = (h, tt)
All-snoc P (y ∷ l) x a h = (a.0, All-snoc P l x a.1 h)

Distinct-snoc : (l : List ℕ) (x : ℕ) → Distinct l → All (λ j. j ≢ x) l → Distinct (l ++ x ∷ [])
Distinct-snoc [] x d a = (tt, tt)
Distinct-snoc (y ∷ l) x d a =
    (All-snoc (λ j. j ≢ y) l x d.0 (λ e. a.0 (sym e)), Distinct-snoc l x d.1 a.1)

-- The distances so far lie within the range of distances and less than `k` from `d`.
abbrev Near : ℕ → ℕ → ℕ → Type 0
Near d k x = (x ≤ 256) × (x < d + k) × (d < x + k)

Near-wider : (d k : ℕ) (l : List ℕ) → All (Near d k) l → All (Near d (k + 1)) l
Near-wider d k [] a = tt
Near-wider d k (x ∷ l) a =
    ((a.0.0, omega (arith, a.0.1, a.0.2), omega (arith, a.0.1, a.0.2)), Near-wider d k l a.1)

Near-ne :
    (d k y : ℕ) (l : List ℕ) → (d + k ≤ y) ⊎ (y + k ≤ d) → All (Near d k) l → All (λ j. j ≢ y) l
Near-ne d k y [] far a = tt
Near-ne d k y (x ∷ l) far a = (λ e. omega (arith, a.0.1, a.0.2), Near-ne d k y l far a.1)

-- The list begins with `d`.
abbrev pub Head : ℕ → List ℕ → Type 0
Head d [] = ⊥
Head d (x ∷ l) = x ≡ d

Head-snoc : (d x : ℕ) (l : List ℕ) → Head d l → Head d (l ++ x ∷ [])
Head-snoc d x [] h = absurd h
Head-snoc d x (y ∷ l) h = h

-- What holds of the list in the round for the difference `k`, when all in it are nearer than `b`.
record Ready (size d b : ℕ) (l : List ℕ) : Type 0 where
  near : All (Near d b) l
  distinct : Distinct l
  first : Head d l
  short : length l ≤ size

push-Ready :
    (size d b x : ℕ) (l : List ℕ)
    → Ready size d b l
    → length l < size
    → Near d b x
    → All (λ j. j ≢ x) l
    → Ready size d b (l ++ x ∷ [])
push-Ready size d b x l r room n new = record {
  near = All-snoc (Near d b) l x r.near n;
  distinct = Distinct-snoc l x r.distinct new;
  first = Head-snoc d x l r.first;
  short = omega (arith, length-append l (x ∷ []));
}

Ready-wider : (size d b : ℕ) (l : List ℕ) → Ready size d b l → Ready size d (b + 1) l
Ready-wider size d b l r = record {
  near = Near-wider d b l r.near;
  distinct = r.distinct;
  first = r.first;
  short = r.short;
}

module _ (size d k : ℕ) (small : size ≤ 127) (range : d ≤ 256) (early : k ≤ 127) (pos : 0 < k) where
  -- After the first half of a round, from `l`: one more is there, or `d + k` is out of range.
  record Above (l m : List ℕ) : Type 0 where
    ready : Ready size d (k + 1) m
    free : k ≤ d → All (λ j. j ≢ d - k) m
    grown : ((d + k ≤ 256) × (length m ≡ length l + 1)) ⊎ ((256 < d + k) × (length m ≡ length l))

  no_wrap : u16_add d k ≡ d + k
  no_wrap = omega arith

  above : (l : List ℕ) → Ready size d k l → length l < size → Above l (push_above d k l)
  above l r room = rw no_wrap (elim (Bool-cases (leb (d + k) 256)) [
    | inl fits ↦ rw fits (record {
      ready =
          push-Ready size d (k + 1) (d + k) l (Ready-wider size d k l r) room
            (ground arith, omega arith, omega arith)
            (Near-ne d k (d + k) l (inl (omega arith)) r.near);
      free = λ h.
          All-snoc (λ j. j ≢ d - k) l (d + k) (Near-ne d k (d - k) l (inr (omega arith)) r.near)
            (omega arith);
      grown = inl (ground arith, length-append l ((d + k) ∷ []));
    })
    | inr beyond ↦ rw beyond (record {
      ready = Ready-wider size d k l r;
      free = λ h. Near-ne d k (d - k) l (inr (omega arith)) r.near;
      grown = inr (ground arith, refl);
    })
  ])

  -- After a whole round the list is full, or has one more distance at least.
  record Round (l m : List ℕ) : Type 0 where
    ready : Ready size d (k + 1) m
    grown : (length m ≡ size) ⊎ (length l + 1 ≤ length m)

  below : (l m : List ℕ) → length l < size → Above l m → Round l (push_below size d k m)
  below l m room a = elim (Bool-cases (ltb (length m) size)) [
    | inl more ↦ rw more (elim (Bool-cases (leb k d)) [
      | inl fits ↦ rw fits (record {
        ready =
            push-Ready size d (k + 1) (d - k) m a.ready (ground arith)
              (omega arith, omega arith, ground arith) (a.free (ground arith));
        grown = inr (omega (arith, a.grown, length-append m ((d - k) ∷ [])));
      })
      | inr beyond ↦ rw beyond (record { ready = a.ready; grown = inr (ground (arith, a.grown)) })
    ])
    | inr full ↦ rw full (record { ready = a.ready; grown = inl (ground (arith, a.ready.short)) })
  ]

-- The loop ends within its fuel, with a full list.
abbrev Filled : ℕ → ℕ → Option (List ℕ) → Type 0
Filled size d none = ⊥
Filled size d (some l) = (length l ≡ size) × Distinct l × Head d l × All (λ x. x ≤ 256) l

Near-range : (d b : ℕ) (l : List ℕ) → All (Near d b) l → All (λ x. x ≤ 256) l
Near-range d b [] a = tt
Near-range d b (x ∷ l) a = (a.0.0, Near-range d b l a.1)

fill-Filled :
    (fuel size d k : ℕ) (l : List ℕ)
    → size ≤ 127
    → d ≤ 256
    → 0 < k
    → k ≤ 127
    → (length l ≡ size) ⊎ (k ≤ length l)
    → k + fuel ≡ 129
    → Ready size d k l
    → Filled size d (fill fuel size d k l)
unfolding fill
fill-Filled zero size d k l small range pos early long budget r = absurd (omega (arith, r.short))
fill-Filled (suc fuel) size d k l small range pos early long budget r =
    elim (Bool-cases (ltb (length l) size)) [
      | inl more ↦ rw more (
          let room : length l < size = ground arith in
          let low : k ≤ 126 = omega (arith, long) in
          let m = push_below size d k (push_above d k l) in
          let round =
            below size d k small range early pos l (push_above d k l) room
              (above size d k small range early pos l r room) in
          let next : u16_add k 1 ≡ k + 1 = omega arith in
          rw next (
            fill-Filled fuel size d (k + 1) m small range (omega arith) (omega arith)
              (omega (arith, round.grown, long)) (omega arith) round.ready))
      | inr full ↦ rw full (ground (arith, r.short), r.distinct, r.first, Near-range d k l r.near)
    ]

take_all : (n : ℕ) (l : List ℕ) → length l ≡ n → take n l ≡ l
take_all zero [] h = refl
take_all (suc n) [] h = refl
take_all zero (x ∷ l) h = absurd (omega arith)
take_all (suc n) (x ∷ l) h = ap (◌∷◌ x) (take_all n l (omega arith))

-- A request for `size` distances, all different and within the range, `d` first.
abbrev pub AsksFrom : ℕ → ℕ → Asked (List ℕ) → Type 0
AsksFrom size d panics = ⊥
AsksFrom size d itself = ⊥
AsksFrom size d (asks l) = (length l ≡ size) × Distinct l × Head d l × All (λ x. x ≤ 256) l

slice-AsksFrom :
    (size d : ℕ) (o : Option (List ℕ)) → Filled size d o → AsksFrom size d (slice size o)
slice-AsksFrom size d none f = absurd f
slice-AsksFrom size d (some l) f =
    let full : leb size (length l) ≡ true = ground (arith, f.0) in rw (full, take_all size l f.0) f

-- For a peer at the distance `d`, up to 256, a request for 1 to 127 distances gets exactly so many,
-- all different and within the range, `d` first: the loop ends, and nothing wraps or panics.
pub findnode_log2distance_lem :
    (d size : ℕ)
    → d ≤ 256
    → 0 < size
    → size ≤ 127
    → AsksFrom size d (findnode_log2distance (some d) size)
unfolding findnode_log2distance
findnode_log2distance_lem d size range some_size small =
    let same : d % 2 ^ 16 ≡ d = omega arith in
    let allowed : ltb 127 size ≡ false = ground arith in
    rw (allowed, same)
      (slice-AsksFrom size d (fill rounds size d 1 (d ∷ [])) (
        fill-Filled rounds size d 1 (d ∷ []) small range (omega arith) (omega arith)
          (inr (omega arith)) (omega arith)
          (record {
            near = ((range, omega arith, omega arith), tt);
            distinct = (tt, tt);
            first = refl;
            short = some_size;
          })))
