-- ===== src/Overlay/Offer/Accepted.antt =====
-- What `handle_offer` answers.
use trin.Prelude.{
  ℕ, ◌+◌, ◌≤◌, ◌≡◌, refl, sym, ◌∙◌, ◌↔◌, ◌⊎◌, inl, inr, Bool, true, false, Option, none, some, List,
  [], ◌∷◌, arith, ltb, length, Bool-cases,
}
use trin.Prelude.Outcome.{Outcome, panic, error, ok}
use trin.Prelude.Words.{u16_from_be}
use trin.Storage.{ShouldWeStoreContent, store_it, not_within_radius, already_stored}
use trin.Overlay.{ContentStore, read_keys, cons_key, Cid}
use trin.Overlay.Offer.{
  Accept, is_zero, is_store, max_bits, map_err, or_else, requested_keys, handle_offer,
}

pub or_else_ok : {E A : Type 0} (e : E) (o : Option A) (a : A) → or_else e o ≡ ok a → o ≡ some a
or_else_ok e none a h = absurd (cc h)
or_else_ok e (some b) a h = cc h

pub map_err_ok :
    {E F A : Type 0} (f : E → F) (o : Outcome E A) (a : A) → map_err f o ≡ ok a → o ≡ ok a
map_err_ok f panic a h = absurd (cc h)
map_err_ok f (error e) a h = absurd (cc h)
map_err_ok f (ok b) a h = cc h

length-cons_key :
    {ContentKey : Type 0} (k : Option ContentKey) (ks : Option (List ContentKey))
    (keys : List ContentKey) (n : ℕ)
    → ((tail : List ContentKey) → ks ≡ some tail → length tail ≡ n)
    → cons_key k ks ≡ some keys
    → length keys ≡ n + 1
length-cons_key none ks keys n h e = absurd (cc e)
length-cons_key (some k) none keys n h e = absurd (cc e)
length-cons_key (some k) (some tail) keys n h e =
    let same : k ∷ tail ≡ keys = cc e in rw (sym same) (omega (arith, h tail refl))

pub length-read_keys :
    {ContentKey : Type 0} (try_from : List ℕ → Option ContentKey) (raw : List (List ℕ))
    (keys : List ContentKey)
    → read_keys try_from raw ≡ some keys
    → length keys ≡ length raw
length-read_keys try_from [] keys e = let same : [] ≡ keys = cc e in rw (sym same) refl
length-read_keys try_from (k ∷ raw) keys e =
    length-cons_key (try_from k) (read_keys try_from raw) keys (length raw)
      (length-read_keys try_from raw) e
    ∙ omega arith

module _ {Store ContentKey E : Type 0} (c : ContentStore Store ContentKey E)
    (try_from : List ℕ → Option ContentKey) where
  -- A bit for each key, which says whether the store wants its content.
  abbrev pub Wanted : Store → List ContentKey → List Bool → Type 0
  Wanted s [] [] = Unit
  Wanted s [] (b ∷ bits) = ⊥
  Wanted s (key ∷ keys) [] = ⊥
  Wanted s (key ∷ keys) (b ∷ bits) =
      ((b ≡ true) ↔ (c.is_key_within_radius_and_unavailable s key ≡ ok store_it))
      × Wanted s keys bits

  pub length-Wanted :
      (s : Store) (keys : List ContentKey) (bits : List Bool)
      → Wanted s keys bits
      → length bits ≡ length keys
  length-Wanted s [] [] w = refl
  length-Wanted s [] (b ∷ bits) w = absurd w
  length-Wanted s (key ∷ keys) [] w = absurd w
  length-Wanted s (key ∷ keys) (b ∷ bits) w = omega (arith, length-Wanted s keys bits w.1)

  is_store_iff :
      (o : Outcome E ShouldWeStoreContent) (value : ShouldWeStoreContent)
      → o ≡ ok value
      → (is_store value ≡ true) ↔ (o ≡ ok store_it)
  is_store_iff o store_it e = ((λ _. e), (λ _. refl))
  is_store_iff o not_within_radius e = ((λ h. absurd (cc h)), (λ h. absurd (cc (e, h))))
  is_store_iff o already_stored e = ((λ h. absurd (cc h)), (λ h. absurd (cc (e, h))))

  -- The store answers for each key without an error.
  abbrev pub Answers : Store → Type 0
  Answers s =
      (key : ContentKey)
      → (value : ShouldWeStoreContent) × (c.is_key_within_radius_and_unavailable s key ≡ ok value)

  requested_keys-Wanted :
      (s : Store) (keys : List ContentKey)
      → Answers s
      → (bits : List Bool) × (requested_keys c try_from s keys ≡ ok bits) × Wanted s keys bits
  requested_keys-Wanted s [] answers = ([], refl, tt)
  requested_keys-Wanted s (key ∷ keys) answers =
      let (value, e) = answers key in
      let (bits, e', w) = requested_keys-Wanted s keys answers in
      (is_store value ∷ bits, (rw (e, e') refl), (is_store_iff _ value e, w))

  -- An offer of at most eight keys that are read, from a node whose ENR is known, is answered, where
  -- the store answers for each key. The bits say which contents the store wants. If it wants none,
  -- the connection id is 0 and nothing is waited for; otherwise it is that of a connection on which
  -- the contents are waited for, with all the offered keys.
  pub handle_offer_lem :
      (s : Store) (enr : List ℕ) (cid : List ℕ → Cid) (raw : List (List ℕ)) (keys : List ContentKey)
      → length raw ≤ max_bits
      → read_keys try_from raw ≡ some keys
      → Answers s
      → (accept : Accept) × (task : Option (Cid × List ContentKey)) × (handle_offer c try_from s
            (some enr)
            cid
            raw
          ≡ ok (accept, task))
        × Wanted s keys accept.content_keys
        × (((is_zero accept.content_keys ≡ true) × (accept.connection_id ≡ 0) × (task ≡ none))
            ⊎ ((is_zero accept.content_keys ≡ false)
                × (accept.connection_id ≡ u16_from_be ((cid enr).send))
                × (task ≡ some (cid enr, keys))))
  unfolding handle_offer
  handle_offer_lem s enr cid raw keys few e answers =
      let (bits, e', w) = requested_keys-Wanted s keys answers in
      let short : ltb max_bits (length raw) ≡ false = ground arith in
      elim (Bool-cases (is_zero bits)) [
        | inl zero_bits ↦ (
          record { connection_id = 0; content_keys = bits },
          none,
          (rw (short, e, e', zero_bits) refl),
          w,
          inl (zero_bits, refl, refl),
        )
        | inr wanted ↦ (
          record { connection_id = u16_from_be ((cid enr).send); content_keys = bits },
          some (cid enr, keys),
          (rw (short, e, e', wanted) refl),
          w,
          inr (wanted, refl, refl),
        )
      ]
