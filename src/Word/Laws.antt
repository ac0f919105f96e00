-- ===== src/Word/Laws.antt =====
-- Bounds of the word operations, and the passage between a word and its signed reading.
use mozak_vm.Prelude.{ℕ, ◌+◌, ◌*◌, ◌%◌, ◌^◌, ◌≤◌, ◌<◌, ◌≡◌, arith, bit_and}
use mozak_vm.Prelude.Int.{ℤ, pos, negsuc, pos_part, neg_part, shr_ℤ}
use mozak_vm.Prelude.Bits.{bit_and_mask}
use mozak_vm.Word.{IsU32, wrapping_add, wrapping_sub, wrapping_mul, to_i32, to_i64, as_u32}

pub wrapping_add-IsU32 : (a b : ℕ) → IsU32 (wrapping_add a b)
unfolding wrapping_add
wrapping_add-IsU32 a b = omega arith

pub wrapping_sub-IsU32 : (a b : ℕ) → IsU32 (wrapping_sub a b)
unfolding wrapping_sub
wrapping_sub-IsU32 a b = omega arith

pub wrapping_mul-IsU32 : (a b : ℕ) → IsU32 (wrapping_mul a b)
unfolding wrapping_mul
wrapping_mul-IsU32 a b = omega arith

pub as_u32-IsU32 : (v : ℤ) → IsU32 (as_u32 v)
unfolding as_u32
as_u32-IsU32 (pos n) = omega arith
as_u32-IsU32 (negsuc n) = omega arith

pub as_u32-to_i32 : (w : ℕ) → IsU32 w → as_u32 (to_i32 w) ≡ w
unfolding as_u32 to_i32
as_u32-to_i32 w h = ground arith

-- The 64 bits made of `(v >> 32) as u32` and `v as u32` read as `v` again.
pub split_i64 :
    (v : ℤ)
    → pos_part v < 2 ^ 63
    → neg_part v ≤ 2 ^ 63
    → to_i64 (as_u32 (shr_ℤ v 32) * 2 ^ 32 + as_u32 v) ≡ v
unfolding as_u32 to_i64
split_i64 (pos n) h k = ground arith
split_i64 (negsuc n) h k = ground arith

-- The five low bits of a shift amount.
pub bit_and_five : (b : ℕ) → bit_and b 31 ≡ b % 2 ^ 5
bit_and_five b = bit_and_mask 5 b

pub to_i32-as_u32 : (v : ℤ) → pos_part v < 2 ^ 31 → neg_part v ≤ 2 ^ 31 → to_i32 (as_u32 v) ≡ v
unfolding to_i32 as_u32
to_i32-as_u32 (pos n) h k = ground arith
to_i32-as_u32 (negsuc n) h k = ground arith

-- The signed reading fits 32 bits, and is zero only at zero.
pub to_i32_bounds :
    (w : ℕ) → IsU32 w → (pos_part (to_i32 w) < 2 ^ 31) × (neg_part (to_i32 w) ≤ 2 ^ 31)
unfolding to_i32
to_i32_bounds w h = ground arith
