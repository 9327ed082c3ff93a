-- ===== src/QueryTrace/Seen.antt =====
-- What a trace knows of the nodes that it has seen.
use trin.Prelude.{
  ℕ, ◌≤◌, ◌≡◌, refl, subst, inl, inr, Bool, true, false, Option, none, some, List, [], ◌∷◌, arith,
  ◌==◌, ==→≡, ≡→==, Bool-cases,
}
use trin.HashMap.{HashMap, get, remove, insert}
use trin.QueryTrace.{EnrCrate, NodeInfo, get_metadata, is_newer, put_metadata}

get-remove_other :
    {V : Type 0} (k j : ℕ) (m : HashMap V) → (k == j) ≡ false → get j (remove k m) ≡ get j m
unfolding get remove
get-remove_other k j [] h = refl
get-remove_other k j ((i, v) ∷ m) h = ground (arith, get-remove_other k j m h)

pub get-insert_same : {V : Type 0} (k : ℕ) (v : V) (m : HashMap V) → get k (insert k v m) ≡ some v
unfolding get insert
get-insert_same k v m = rw (≡→== k k refl) refl

pub get-insert_other :
    {V : Type 0} (k j : ℕ) (v : V) (m : HashMap V)
    → (k == j) ≡ false
    → get j (insert k v m) ≡ get j m
unfolding get insert
get-insert_other k j v m h = rw h (get-remove_other k j m h)

module _ {Enr : Type 0} (crate_ : EnrCrate Enr) where
  -- No information is lost, and no older ENR takes the place of a newer one.
  abbrev pub Newer : Option (NodeInfo Enr) → Option (NodeInfo Enr) → Type 0
  Newer none o = Unit
  Newer (some a) o = (b : NodeInfo Enr) × (o ≡ some b) × (crate_.seq a.enr ≤ crate_.seq b.enr)

  pub Newer-refl : (o : Option (NodeInfo Enr)) → Newer o o
  Newer-refl none = tt
  Newer-refl (some a) = (a, refl, omega arith)

  pub Newer-trans : (o p q : Option (NodeInfo Enr)) → Newer o p → Newer p q → Newer o q
  Newer-trans none p q f g = tt
  Newer-trans (some a) p q (b, e, le) g =
      let (c, e', le') = subst (λ r. Newer r q) e g in (c, e', omega (arith, le, le'))

  -- The trace has an ENR of the node, and none that is older.
  abbrev pub Knows : HashMap (NodeInfo Enr) → Enr → Type 0
  Knows m enr =
      (info : NodeInfo Enr) × (get (crate_.node_id enr) m ≡ some info)
      × (crate_.seq enr ≤ crate_.seq info.enr)

  pub Knows-Newer :
      (m m' : HashMap (NodeInfo Enr)) (enr : Enr)
      → ((k : ℕ) → Newer (get k m) (get k m'))
      → Knows m enr
      → Knows m' enr
  Knows-Newer m m' enr newer (info, e, le) =
      let (info', e', le') =
        subst (λ r. Newer r (get (crate_.node_id enr) m')) e (newer (crate_.node_id enr)) in
      (info', e', omega (arith, le, le'))

  -- Equal ENRs have one sequence number.
  abbrev pub SameSeq : Type 0
  SameSeq = (a b : Enr) → crate_.is_same a b ≡ true → crate_.seq a ≡ crate_.seq b

  insert-Newer :
      (m : HashMap (NodeInfo Enr)) (id : ℕ) (info : NodeInfo Enr)
      → Newer (get id m) (some info)
      → (k : ℕ) → Newer (get k m) (get k (insert id info m))
  insert-Newer m id info newer k = elim (Bool-cases (id == k)) [
    | inl same ↦
        let equal : id ≡ k = ==→≡ id k same in
        subst (λ j. Newer (get j m) (get j (insert id info m))) equal
          (rw (get-insert_same id info m) newer)
    | inr other ↦ rw (get-insert_other id k info m other) (Newer-refl (get k m))
  ]

  newer_seq :
      (enr known : Enr) (b : Bool)
      → is_newer crate_ enr known b ≡ true
      → crate_.seq known ≤ crate_.seq enr
  newer_seq enr known b h = ground arith

  older_seq :
      (enr known : Enr) (b : Bool)
      → SameSeq
      → is_newer crate_ enr known b ≡ false
      → crate_.seq enr ≤ crate_.seq known
  older_seq enr known b law h = elim (Bool-cases (crate_.is_same enr known)) [
    | inl same ↦ omega (arith, law enr known same)
    | inr different ↦ ground arith
  ]

  pub put_metadata-Knows :
      (m : HashMap (NodeInfo Enr)) (enr : Enr) (b : Bool) (target : List ℕ)
      (o : Option (NodeInfo Enr))
      → SameSeq
      → get (crate_.node_id enr) m ≡ o
      → Knows (put_metadata crate_ o enr b target m) enr
        × ((k : ℕ) → Newer (get k m) (get k (put_metadata crate_ o enr b target m)))
  put_metadata-Knows m enr b target none law e =
      let info = get_metadata crate_ enr target in
      (
        (info, get-insert_same (crate_.node_id enr) info m, omega arith),
        insert-Newer m (crate_.node_id enr) info (rw e tt),
      )
  put_metadata-Knows m enr b target (some known) law e =
      let info = get_metadata crate_ enr target in
      elim (Bool-cases (is_newer crate_ enr known.enr b)) [
        | inl newer ↦ rw newer (
          (info, get-insert_same (crate_.node_id enr) info m, omega arith),
          insert-Newer m (crate_.node_id enr) info
              (rw e (info, refl, newer_seq enr known.enr b newer)),
        )
        | inr older ↦
            rw older ((known, e, older_seq enr known.enr b law older), λ k. Newer-refl (get k m))
      ]
