-- ===== src/Prelude/Words.antt =====
-- Machine integers: `usize` of 64 bits with the wrap-around of a release build, and `u16`.
use trin.Prelude.{ℕ, ◌+◌, ◌-◌, ◌*◌, ◌/◌, ◌%◌, ◌^◌, ◌<◌, ◌≡◌, arith}

abbrev pub usize_mod : ℕ
usize_mod = 2 ^ 64

abbrev pub usize_add : ℕ → ℕ → ℕ
usize_add a b = (a + b) % usize_mod

abbrev pub usize_sub : ℕ → ℕ → ℕ
usize_sub a b = (a + usize_mod - b) % usize_mod

-- `u16::from_be` on a little-endian machine: the two bytes change places.
unfoldable pub u16_from_be : ℕ → ℕ
u16_from_be x = (x % 256) * 256 + x / 256

-- Swapping twice gives the number back.
pub u16_from_be_twice : (x : ℕ) → x < 2 ^ 16 → u16_from_be (u16_from_be x) ≡ x
unfolding u16_from_be
u16_from_be_twice x h = omega arith
