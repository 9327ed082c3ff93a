-- ===== src/Gossip/Propagate/Requests.antt =====
-- Which contents are offered to whom.
use trin.Prelude.{
  ℕ, ◌≡◌, refl, sym, ◌∙◌, ◌⊎◌, inl, inr, List, [], ◌∷◌, ◌++◌, In, here, there, Bool-cases,
}
use trin.Storage.{same_bytes}
use trin.Storage.Bytes.{same_bytes→≡}
use trin.Gossip.Propagate.{Item, push_item}

module _ {A : Type 0} where
  In-append : (a : A) (l m : List A) → In a l → In a (l ++ m)
  In-append a [] m i = elim i [ ]
  In-append a (x ∷ l) m (here _) = here (l ++ m)
  In-append a (x ∷ l) m (there _ _ i) = there x (l ++ m) (In-append a l m i)

  In-append_last : (a : A) (l : List A) → In a (l ++ (a ∷ []))
  In-append_last a [] = here []
  In-append_last a (x ∷ l) = there x (l ++ (a ∷ [])) (In-append_last a l)

  In-single : (a x : A) → In a (x ∷ []) → a ≡ x
  In-single a x (here _) = refl
  In-single a x (there _ _ i) = elim i [ ]

  append-In : (a x : A) (l : List A) → In a (l ++ (x ∷ [])) → In a l ⊎ (a ≡ x)
  append-In a x [] i = inr (In-single a x i)
  append-In a x (y ∷ l) (here _) = inl (here l)
  append-In a x (y ∷ l) (there _ _ i) = elim (append-In a x l i) [
    | inl j ↦ inl (there y l j)
    | inr e ↦ inr e
  ]

-- An item stands in the group of a key.
abbrev pub Has : {K : Type 0} → List (K × List Item) → K → Item → Type 0
Has [] k i = ⊥
Has ((j, items) ∷ m) k i = ((j ≡ k) × In i items) ⊎ Has m k i

pub push_item-Has :
    (text : List ℕ) (item : Item) (m : List (List ℕ × List Item)) (t : List ℕ) (i : Item)
    → Has m t i
    → Has (push_item text item m) t i
push_item-Has text item [] t i h = absurd h
push_item-Has text item ((j, items) ∷ m) t i h = elim (Bool-cases (same_bytes j text)) [
  | inl same ↦
      rw same
        (elim h [ inl (e, k) ↦ inl (e, In-append i items (item ∷ []) k) | inr later ↦ inr later ])
  | inr other ↦
      rw other
        (elim h [ inl first ↦ inl first | inr later ↦ inr (push_item-Has text item m t i later) ])
]

pub push_item_new :
    (text : List ℕ) (item : Item) (m : List (List ℕ × List Item))
    → Has (push_item text item m) text item
push_item_new text item [] = inl (refl, here [])
push_item_new text item ((j, items) ∷ m) = elim (Bool-cases (same_bytes j text)) [
  | inl same ↦ rw same (inl (same_bytes→≡ j text same, In-append_last item items))
  | inr other ↦ rw other (inr (push_item_new text item m))
]

pub Has-push_item :
    (text : List ℕ) (item : Item) (m : List (List ℕ × List Item)) (t : List ℕ) (i : Item)
    → Has (push_item text item m) t i
    → Has m t i ⊎ ((text ≡ t) × (i ≡ item))
Has-push_item text item [] t i (inl (e, k)) = inr (e, In-single i item k)
Has-push_item text item [] t i (inr h) = absurd h
Has-push_item text item ((j, items) ∷ m) t i h = elim (Bool-cases (same_bytes j text)) [
  | inl same ↦ elim (rw same at h) [
    | inl (e, k) ↦ elim (append-In i item items k) [
      | inl old ↦ inl (inl (e, old))
      | inr new ↦ inr ((sym (same_bytes→≡ j text same) ∙ e), new)
    ]
    | inr later ↦ inl (inr later)
  ]
  | inr other ↦ elim (rw other at h) [
    | inl first ↦ inl (inl first)
    | inr later ↦ elim (Has-push_item text item m t i later) [
      | inl old ↦ inl (inr old)
      | inr new ↦ inr new
    ]
  ]
]
