-- ===== src/Runner/Alu.antt =====
-- runner/src/vm.rs: the functions that the register and load instructions apply.
pub mod Division
pub mod Products
pub mod Shifts
pub mod Bounds
use mozak_vm.Prelude.{
  ℕ, ◌+◌, ◌-◌, ◌*◌, ◌/◌, ◌%◌, ◌^◌, ◌&&◌, Bool, false, bit_and, ◌==◌, if◌then◌else◌,
}
use mozak_vm.Runner.Outcome.{Outcome, ok, panic, ◌>>=◌, divided_by_zero, arithmetic_overflow}
use mozak_vm.Prelude.Int.{ℤ, pos, negsuc, ◌*ℤ◌, shr_ℤ, ltb_ℤ}
use mozak_vm.Word.{
  to_i32, to_i8, to_i16, as_u32, shl32, shr32, u32_from_le_bytes, u16_from_le_bytes,
}

unfoldable pub mulh : ℕ → ℕ → ℕ
mulh a b = as_u32 (shr_ℤ (to_i32 a *ℤ to_i32 b) 32)

unfoldable pub mulhu : ℕ → ℕ → ℕ
mulhu a b = a * b / 2 ^ 32 % 2 ^ 32

unfoldable pub mulhsu : ℕ → ℕ → ℕ
mulhsu a b = as_u32 (shr_ℤ (to_i32 a *ℤ pos b) 32)

-- Division of machine integers: the quotient is rounded towards zero, the remainder has the sign of
-- the dividend. `/` and `%` panic if the divisor is zero, and of signed words also for the quotient
-- that does not fit, `i32::MIN / -1`.
abbrev pub negate : ℕ → ℤ
negate n = if n == 0 then pos 0 else negsuc (n - 1)

unfoldable pub quotient : ℤ → ℤ → ℤ
quotient (pos a) (pos b) = pos (a / b)
quotient (pos a) (negsuc b) = negate (a / (b + 1))
quotient (negsuc a) (pos b) = negate ((a + 1) / b)
quotient (negsuc a) (negsuc b) = pos ((a + 1) / (b + 1))

unfoldable pub remainder : ℤ → ℤ → ℤ
remainder (pos a) (pos b) = pos (a % b)
remainder (pos a) (negsuc b) = pos (a % (b + 1))
remainder (negsuc a) (pos b) = negate ((a + 1) % b)
remainder (negsuc a) (negsuc b) = negate ((a + 1) % (b + 1))

abbrev pub is_zero : ℤ → Bool
is_zero (pos n) = n == 0
is_zero (negsuc n) = false

abbrev pub is_negsuc : ℕ → ℤ → Bool
is_negsuc k (pos n) = false
is_negsuc k (negsuc n) = n == k

abbrev pub overflows : ℤ → ℤ → Bool
overflows s t = is_negsuc (2 ^ 31 - 1) s && is_negsuc 0 t

abbrev pub checked_i32 : ℤ → ℤ → ℤ → Outcome ℤ
checked_i32 s t result =
    if is_zero t
    then panic divided_by_zero
    else if overflows s t
    then panic arithmetic_overflow
    else ok result

abbrev pub checked_u32 : ℕ → ℕ → Outcome ℕ
checked_u32 b result = if b == 0 then panic divided_by_zero else ok result

-- `i32::overflowing_div(b).0`, which also panics if the divisor is zero
abbrev pub overflowing_div : ℤ → ℤ → Outcome ℤ
overflowing_div s t = if overflows s t then ok s else checked_i32 s t (quotient s t)

unfoldable pub div : ℕ → ℕ → Outcome ℕ
div a b =
    if is_zero (to_i32 b)
    then ok 0xFFFF_FFFF
    else overflowing_div (to_i32 a) (to_i32 b) >>= λ q. ok (as_u32 q)

unfoldable pub divu : ℕ → ℕ → Outcome ℕ
divu a b = if b == 0 then ok 0xFFFF_FFFF else checked_u32 b (a / b)

-- the `match` of `rem`
abbrev pub rem_i32 : ℤ → ℤ → Outcome ℤ
rem_i32 s t =
    if is_zero t
    then ok s
    else if is_negsuc (2 ^ 31 - 1) s && is_negsuc 0 t
    then ok (pos 0)
    else checked_i32 s t (remainder s t)

unfoldable pub rem : ℕ → ℕ → Outcome ℕ
rem a b = rem_i32 (to_i32 a) (to_i32 b) >>= λ r. ok (as_u32 r)

unfoldable pub remu : ℕ → ℕ → Outcome ℕ
remu a b = if b == 0 then ok a else checked_u32 b (a % b)

-- SLL, SRL, SRA, SLT and SLTU, the closures of `execute_instruction`
unfoldable pub sll : ℕ → ℕ → ℕ
sll a b = shl32 a (bit_and b 0b1_1111)

unfoldable pub srl : ℕ → ℕ → ℕ
srl a b = shr32 a (bit_and b 0b1_1111)

unfoldable pub sra : ℕ → ℕ → ℕ
sra a b = as_u32 (shr_ℤ (to_i32 a) (bit_and b 0b1_1111))

unfoldable pub slt : ℕ → ℕ → ℕ
slt a b = if ltb_ℤ (to_i32 a) (to_i32 b) then 1 else 0

-- The loads read four bytes and use one, two or four of them; each returns the raw value and the
-- value for the register.
pub record Bytes4 : Type 0 where
  pub b0 : ℕ
  pub b1 : ℕ
  pub b2 : ℕ
  pub b3 : ℕ

unfoldable pub dup : ℕ → ℕ × ℕ
dup x = (x, x)

unfoldable pub lbu_raw : Bytes4 → ℕ
lbu_raw mem = mem.b0

unfoldable pub lbu : Bytes4 → ℕ × ℕ
unfolding dup lbu_raw
lbu mem = dup (lbu_raw mem)

unfoldable pub lb : Bytes4 → ℕ × ℕ
unfolding lbu_raw
lb mem = let raw = lbu_raw mem in (raw, as_u32 (to_i8 raw))

unfoldable pub lhu_raw : Bytes4 → ℕ
lhu_raw mem = u16_from_le_bytes mem.b0 mem.b1

unfoldable pub lhu : Bytes4 → ℕ × ℕ
unfolding dup lhu_raw
lhu mem = dup (lhu_raw mem)

unfoldable pub lh : Bytes4 → ℕ × ℕ
unfolding lhu_raw
lh mem = let raw = lhu_raw mem in (raw, as_u32 (to_i16 raw))

unfoldable pub lw : Bytes4 → ℕ × ℕ
unfolding dup
lw mem = dup (u32_from_le_bytes mem.b0 mem.b1 mem.b2 mem.b3)
