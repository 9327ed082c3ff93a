-- ===== src/Tests/Wire.antt =====
-- Content payloads with the LEB128 code: groups of seven bits, the lowest first, each but the last
-- with 128 added.
use trin.Prelude.{
  ℕ, zero, suc, ◌+◌, ◌-◌, ◌*◌, ◌/◌, ◌%◌, ◌≤◌, ◌<◌, ◌≡◌, refl, ap, inl, inr, true, false, Option,
  none, some, List, [], ◌∷◌, ◌++◌, arith, ltb, length, take, if◌then◌else◌, Bool-cases,
}
use trin.Prelude.Outcome.{panic, ok}
use trin.Wire.{Leb128, encode_items, encode_content_payload, decode_content_payload}
use trin.Wire.Runs.{Ends, decode_content_payload-Ends}
use trin.Wire.Varint.{IsLeb128, CutOff}
use trin.Wire.Codec.{decode_content_payload-encode_content_payload, decode_content_payload-CutOff}

abbrev write_leb : ℕ → ℕ → List ℕ
write_leb zero n = n ∷ []
write_leb (suc groups) n =
    let rest = write_leb groups (n / 128) in if ltb n 128 then n ∷ [] else (n % 128 + 128) ∷ rest

abbrev add_group : ℕ → Option ℕ → Option ℕ
add_group b none = none
add_group b (some n) = some (n * 128 + (b - 128))

abbrev read_leb : List ℕ → Option ℕ
read_leb [] = none
read_leb (b ∷ l) = let rest = read_leb l in if ltb b 128 then some b else add_group b rest

abbrev pub leb128 : Leb128
leb128 = record { write = write_leb 4; read = read_leb }

abbrev bound : ℕ → ℕ
bound zero = 128
bound (suc groups) = 128 * bound groups

length-write_leb :
    (groups n : ℕ) → (1 ≤ length (write_leb groups n)) × (length (write_leb groups n) ≤ groups + 1)
length-write_leb zero n = (omega arith, omega arith)
length-write_leb (suc groups) n =
    let rest = length-write_leb groups (n / 128) in
    elim (Bool-cases (ltb n 128)) [
      | inl last ↦ rw last (omega arith, omega arith)
      | inr more ↦ rw more (omega arith, omega (arith, rest))
    ]

read_leb-write_leb : (groups n : ℕ) → n < bound groups → read_leb (write_leb groups n) ≡ some n
read_leb-write_leb zero n h = let last : ltb n 128 ≡ true = ground arith in rw last refl
read_leb-write_leb (suc groups) n h = elim (Bool-cases (ltb n 128)) [
  | inl last ↦ rw (last, last) refl
  | inr more ↦
      let big : ltb (n % 128 + 128) 128 ≡ false = ground arith in
      rw (more, big, read_leb-write_leb groups (n / 128) (omega arith)) (ap some (omega arith))
]

length-last : (groups n : ℕ) → ltb n 128 ≡ true → length (write_leb (suc groups) n) ≡ 1
length-last groups n last = rw last refl

length-more :
    (groups n : ℕ)
    → ltb n 128 ≡ false
    → length (write_leb (suc groups) n) ≡ suc (length (write_leb groups (n / 128)))
length-more groups n more = rw more refl

read_leb_part :
    (groups n i : ℕ)
    → n < bound groups
    → i < length (write_leb groups n)
    → read_leb (take i (write_leb groups n)) ≡ none
read_leb_part groups n zero h part = refl
read_leb_part zero n (suc i) h part = absurd (omega arith)
read_leb_part (suc groups) n (suc i) h part = elim (Bool-cases (ltb n 128)) [
  | inl last ↦ absurd (omega (arith, length-last groups n last))
  | inr more ↦
      let big : ltb (n % 128 + 128) 128 ≡ false = ground arith in
      let shorter : i < length (write_leb groups (n / 128)) =
        omega (arith, length-more groups n more) in
      rw (more, big, read_leb_part groups (n / 128) i (omega arith) shorter) refl
]

pub leb128-IsLeb128 : IsLeb128 leb128
leb128-IsLeb128 = record {
  write_some = λ n h. (length-write_leb 4 n).0;
  write_short = λ n h. (length-write_leb 4 n).1;
  read-write = λ n h. read_leb-write_leb 4 n (omega arith);
  read_part = λ n i h part. read_leb_part 4 n i (omega arith) part;
}

abbrev two_items : List (List ℕ)
two_items = (1 ∷ 1 ∷ []) ∷ (2 ∷ 2 ∷ 2 ∷ []) ∷ []

abbrev payload : List ℕ
payload = 2 ∷ 1 ∷ 1 ∷ 3 ∷ 2 ∷ 2 ∷ 2 ∷ []

payload_written : encode_content_payload leb128 two_items ≡ ok payload
unfolding encode_content_payload encode_items
payload_written = refl

lone_byte-CutOff : CutOff leb128 (128 ∷ [])
lone_byte-CutOff zero h = refl
lone_byte-CutOff (suc zero) h = refl
lone_byte-CutOff (suc (suc i)) h = absurd (omega arith)

decode_content_payload-encode_content_payload_example :
    (p : List ℕ) × (encode_content_payload leb128 two_items ≡ ok p)
    × (decode_content_payload leb128 p ≡ ok two_items)
decode_content_payload-encode_content_payload_example =
    decode_content_payload-encode_content_payload leb128 leb128-IsLeb128 two_items
      (omega arith, (omega arith, tt))

decode_content_payload-CutOff_example : decode_content_payload leb128 (payload ++ 128 ∷ []) ≡ panic
decode_content_payload-CutOff_example =
    decode_content_payload-CutOff leb128 leb128-IsLeb128 two_items payload (128 ∷ [])
      (omega arith, (omega arith, tt)) payload_written (omega arith) (omega arith) lone_byte-CutOff

decode_content_payload-Ends_example :
    Ends leb128 (payload ++ 128 ∷ []) (decode_content_payload leb128 (payload ++ 128 ∷ []))
decode_content_payload-Ends_example = decode_content_payload-Ends leb128 (payload ++ 128 ∷ [])
