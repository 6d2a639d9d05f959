-- ===== src/Bytes.antt =====
-- Fixed-width little-endian integers, as `to_le_bytes` and `from_le_bytes` of the standard library
-- read and write them. A byte is a number below 256. An `i64` stands for its two's-complement bit
-- pattern, a number below 2 ^ 64, so `wrapping_add` is addition modulo 2 ^ 64.
use beetree.Prelude.{
  ℕ, zero, suc, ◌+◌, ◌-◌, ◌*◌, ◌/◌, ◌%◌, ◌^◌, ◌<◌, ◌≡◌, refl, List, [], ◌∷◌, arith, length,
}

abbrev pub u64_mod : ℕ
u64_mod = 2 ^ 64

unfoldable pub wrapping_add : ℕ → ℕ → ℕ
wrapping_add a b = (a + b) % u64_mod

-- `a.wrapping_sub(b)`, for a number below 2 ^ 64.
unfoldable pub wrapping_sub : ℕ → ℕ → ℕ
wrapping_sub a b = (a + u64_mod - b) % u64_mod

-- The low `w` bytes of a number, least significant first.
unfoldable pub le_bytes : ℕ → ℕ → List ℕ
le_bytes zero n = []
le_bytes (suc w) n = (n % 256) ∷ le_bytes w (n / 256)

unfoldable pub from_le_bytes : List ℕ → ℕ
from_le_bytes [] = 0
from_le_bytes (b ∷ bs) = b + 256 * from_le_bytes bs

unfoldable pub to_le_bytes : ℕ → List ℕ
unfolding le_bytes
to_le_bytes n = le_bytes 8 n

pub length-to_le_bytes : (n : ℕ) → length (to_le_bytes n) ≡ 8
unfolding to_le_bytes
length-to_le_bytes n = refl

-- Eight bytes hold every 64-bit pattern.
pub from_le_bytes-to_le_bytes : (n : ℕ) → n < u64_mod → from_le_bytes (to_le_bytes n) ≡ n
unfolding from_le_bytes to_le_bytes
from_le_bytes-to_le_bytes n h = omega arith

pub wrapping_add_lt : (a b : ℕ) → wrapping_add a b < u64_mod
unfolding wrapping_add
wrapping_add_lt a b = omega arith

pub wrapping_add_assoc :
    (a b c : ℕ) → wrapping_add (wrapping_add a b) c ≡ wrapping_add a (wrapping_add b c)
unfolding wrapping_add
wrapping_add_assoc a b c = omega arith

-- Four bytes hold every 32-bit pattern.
pub from_le_bytes-le_bytes : (n : ℕ) → n < 2 ^ 32 → from_le_bytes (le_bytes 4 n) ≡ n
unfolding from_le_bytes le_bytes
from_le_bytes-le_bytes n h = omega arith

pub length-le_bytes : (n : ℕ) → length (le_bytes 4 n) ≡ 4
unfolding le_bytes
length-le_bytes n = refl
