-- ===== src/Wire/Varint.antt =====
-- `read_varint` of portalnet/src/utils/portal_wire.rs.
use trin.Prelude.{
  ℕ, zero, suc, ◌+◌, ◌≤◌, ◌<◌, ◌≡◌, refl, ap, inl, inr, false, none, some, List, ◌++◌, arith, ltb,
  length, take, length-append, take-append, take-append_within, Bool-cases, Option-cases,
}
use trin.Prelude.Outcome.{Outcome, panic, error, ok}
use trin.Wire.{Leb128, PayloadError, u32_max, found_varint, read_from, read_varint}

-- What leb128 documents of the numbers up to `u32::MAX`: a varint has 1 to 5 bytes, is read back, and
-- is not complete before its last byte.
pub record IsLeb128 (leb128 : Leb128) : Type 0 where
  pub write_some : (n : ℕ) → n ≤ u32_max → 0 < length (leb128.write n)
  pub write_short : (n : ℕ) → n ≤ u32_max → length (leb128.write n) ≤ 5
  pub read-write : (n : ℕ) → n ≤ u32_max → leb128.read (leb128.write n) ≡ some n
  pub read_part :
      (n i : ℕ)
      → n ≤ u32_max
      → i < length (leb128.write n)
      → leb128.read (take i (leb128.write n)) ≡ none

module _ (leb128 : Leb128) (laws : IsLeb128 leb128) where
  read_from-write :
      (turns i n : ℕ) (rest : List ℕ)
      → n ≤ u32_max
      → i ≤ length (leb128.write n)
      → length (leb128.write n) < i + turns
      → read_from leb128 turns i (leb128.write n ++ rest) ≡ ok (length (leb128.write n), n)
  unfolding read_from
  read_from-write zero i n rest small low high = absurd (omega arith)
  read_from-write (suc turns) i n rest small low high =
      let w = leb128.write n in
      let inside : ltb (length (w ++ rest)) i ≡ false = ground (arith, length-append w rest) in
      let within : ltb u32_max n ≡ false = ground arith in
      rw (inside, read_from)
        (elim (Bool-cases (ltb i (length w))) [
          | inl part ↦
              rw (take-append_within i w rest low, laws.read_part n i small (ground arith))
                (read_from-write turns (i + 1) n rest small (ground arith) (omega arith))
          | inr whole ↦
              let same : i ≡ length w = ground arith in
              rw (same, take-append w rest, laws.read-write n small, within)
                (ap (λ j. ok (j, n)) same)
        ])

  pub read_varint-write :
      (n : ℕ) (rest : List ℕ)
      → n ≤ u32_max
      → read_varint leb128 (leb128.write n ++ rest) ≡ ok (length (leb128.write n), n)
  unfolding read_varint
  read_varint-write n rest small =
      let short = laws.write_short n small in
      let one = laws.write_some n small in
      read_from-write 5 1 n rest small (omega arith) (omega arith)

module _ (leb128 : Leb128) where
  -- No varint is complete within the buffer.
  abbrev pub CutOff : List ℕ → Type 0
  CutOff buf = (i : ℕ) → i ≤ length buf → leb128.read (take i buf) ≡ none

  read_from-CutOff :
      (turns i : ℕ) (buf : List ℕ)
      → CutOff buf
      → i ≤ length buf + 1
      → length buf < i + turns
      → 0 < turns
      → length buf + 1 < i + turns
      → read_from leb128 turns i buf ≡ panic
  unfolding read_from
  read_from-CutOff zero i buf cut low high pos long = absurd (omega arith)
  read_from-CutOff (suc turns) i buf cut low high pos long =
      elim (Bool-cases (ltb (length buf) i)) [
        | inl beyond ↦ rw (beyond, read_from) refl
        | inr inside ↦
            let h : i ≤ length buf = ground arith in
            rw (inside, cut i h, read_from)
              (read_from-CutOff turns (i + 1) buf cut (omega arith) (omega arith) (omega arith)
                (omega arith))
      ]

  pub read_varint-CutOff :
      (buf : List ℕ) → CutOff buf → length buf < 5 → read_varint leb128 buf ≡ panic
  unfolding read_varint
  read_varint-CutOff buf cut short =
      read_from-CutOff 5 1 buf cut (omega arith) (omega arith) (omega arith) (omega arith)

  -- What is read takes `i` bytes at least.
  abbrev pub Counts : ℕ → Outcome PayloadError (ℕ × ℕ) → Type 0
  Counts i panic = Unit
  Counts i (error e) = Unit
  Counts i (ok (k, v)) = i ≤ k

  Counts-lower : (i : ℕ) (o : Outcome PayloadError (ℕ × ℕ)) → Counts (i + 1) o → Counts i o
  Counts-lower i panic h = tt
  Counts-lower i (error e) h = tt
  Counts-lower i (ok (k, v)) h = omega arith

  found_varint-Counts : (i v : ℕ) → Counts i (found_varint leb128 i v)
  found_varint-Counts i v = elim (Bool-cases (ltb u32_max v)) [
    | inl over ↦ rw over tt
    | inr fits ↦ rw fits (omega arith)
  ]

  read_from-Counts : (turns i : ℕ) (buf : List ℕ) → Counts i (read_from leb128 turns i buf)
  unfolding read_from
  read_from-Counts zero i buf = tt
  read_from-Counts (suc turns) i buf = elim (Bool-cases (ltb (length buf) i)) [
    | inl beyond ↦ rw (beyond, read_from) tt
    | inr inside ↦ elim (Option-cases (leb128.read (take i buf))) [
      | inl none_yet ↦
          rw (inside, none_yet, read_from)
            (Counts-lower i (read_from leb128 turns (i + 1) buf)
              (read_from-Counts turns (i + 1) buf))
      | inr (v, e) ↦ rw (inside, e, read_from) (found_varint-Counts i v)
    ]
  ]

  pub read_varint-Counts : (buf : List ℕ) → Counts 1 (read_varint leb128 buf)
  unfolding read_varint
  read_varint-Counts buf = read_from-Counts 5 1 buf
