-- ===== src/Runner/Alu/Shifts.antt =====
-- runner/src/vm.rs: shifts, also as products and quotients, and the signed loads.
use native.Mathlib.Nat.{one-le-pow, pow-le-pow_right, div-le_self}
use mozak_vm.Prelude.{ℕ, ◌+◌, ◌*◌, ◌%◌, ◌^◌, ◌≤◌, ◌<◌, ◌≡◌, arith, ap, bit_and}
use mozak_vm.Prelude.Int.{ℤ, pos, negsuc, pos_part, neg_part, shr_ℤ}
use mozak_vm.Word.{IsU32, IsU8, wrapping_mul, to_i32, to_i8, to_i16, as_u32, shl32, shr32}
use mozak_vm.Word.{u16_from_le_bytes}
use mozak_vm.Word.Laws.{to_i32_bounds, to_i32-as_u32, bit_and_five}
use mozak_vm.Runner.Outcome.{ok}
use mozak_vm.Runner.Alu.{divu, sll, srl, sra, lb, lh, Bytes4}

amount : (s : ℕ) → s < 32 → bit_and s 31 ≡ s
amount s h = omega (arith, bit_and_five s)

pub shl32-one : (s : ℕ) → s < 32 → shl32 1 s ≡ 2 ^ s
unfolding shl32
shl32-one s h =
    let small : 2 ^ s ≤ 2 ^ 31 = pow-le-pow_right (omega arith) {i = s} {j = 31} (omega arith) in
    omega arith

-- Multiplication by the immediate 1 << s, which the decoder makes of SLLI by s < 32, is the SLL
-- by s.
pub mul-shl : (a s : ℕ) → s < 32 → wrapping_mul a (shl32 1 s) ≡ sll a s
unfolding wrapping_mul sll shl32
mul-shl a s h = rw (amount s h) (ap (λ (t : ℕ). a * t % 2 ^ 32) (shl32-one s h))

-- Unsigned division by the immediate 1 << s, which the decoder makes of SRLI by s < 32, does
-- not panic and is the SRL by s.
pub divu-shl : (a s : ℕ) → s < 32 → divu a (shl32 1 s) ≡ ok (srl a s)
unfolding divu srl shr32
divu-shl a s h = rw (amount s h, shl32-one s h) (ground (arith, one-le-pow s 2))

shr_bounds :
    (v : ℤ) (k : ℕ) → (pos_part (shr_ℤ v k) ≤ pos_part v) × (neg_part (shr_ℤ v k) ≤ neg_part v)
shr_bounds (pos n) k = ground (arith, div-le_self n (2 ^ k))
shr_bounds (negsuc n) k = ground (arith, div-le_self n (2 ^ k))

-- SRA of a 32-bit word, read as signed, is the signed value divided by a power of two given by
-- the low five bits of the amount, rounded down.
pub sra_reads : (a b : ℕ) → IsU32 a → to_i32 (sra a b) ≡ shr_ℤ (to_i32 a) (b % 32)
unfolding sra
sra_reads a b ha =
    let (p, n) = to_i32_bounds a ha in
    let (q, m) = shr_bounds (to_i32 a) (b % 32) in
    rw (bit_and_five b, to_i32-as_u32 (shr_ℤ (to_i32 a) (b % 32)) (omega arith) (omega arith))

-- The value of a signed byte load, read as signed, is the 8-bit two's complement number that its
-- byte encodes.
pub lb_reads : (mem : Bytes4) → IsU8 mem.b0 → to_i32 (lb mem).1 ≡ to_i8 mem.b0
unfolding lb to_i8 to_i32 as_u32
lb_reads mem h = ground arith

-- The value of a signed half-word load, read as signed, is the 16-bit two's complement number that
-- its two bytes encode, low byte first.
pub lh_reads :
    (mem : Bytes4)
    → IsU8 mem.b0
    → IsU8 mem.b1
    → to_i32 (lh mem).1 ≡ to_i16 (mem.b0 + 2 ^ 8 * mem.b1)
unfolding lh to_i16 to_i32 as_u32 u16_from_le_bytes
lh_reads mem h k = ground arith
