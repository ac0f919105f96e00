-- ===== src/Runner/Alu/Bounds.antt =====
-- runner/src/vm.rs: the ranges of the results of the arithmetic.
use native.Mathlib.Nat.{mod-le, div-le_self}
use mozak_vm.Prelude.{ℕ, ◌^◌, arith, bit_and, Bool, true, false, if◌then◌else◌}
use mozak_vm.Word.{IsU32, IsU8, shl32, shr32, u32_from_le_bytes, u16_from_le_bytes}
use mozak_vm.Word.Laws.{as_u32-IsU32}
use mozak_vm.Runner.Outcome.{
  Outcome, total, Ensures, returns, panics, Ensures-if, Ensures-bind, Ensures-any,
}
use mozak_vm.Runner.Alu.{
  mulh, mulhu, mulhsu, div, divu, rem, remu, sll, srl, sra, slt, Bytes4, lb, lbu, lh, lhu, lhu_raw,
  lw,
}

pub if_IsU32 : (t : Bool) (a b : ℕ) → IsU32 a → IsU32 b → IsU32 (if t then a else b)
if_IsU32 true a b ha hb = ha
if_IsU32 false a b ha hb = hb

-- A function of two words that gives a word.
abbrev pub OnWords : (ℕ → ℕ → ℕ) → Type 0
OnWords f = (a b : ℕ) → IsU32 a → IsU32 b → IsU32 (f a b)

pub mulh-OnWords : OnWords mulh
unfolding mulh
mulh-OnWords a b ha hb = as_u32-IsU32 _

pub mulhu-OnWords : OnWords mulhu
unfolding mulhu
mulhu-OnWords a b ha hb = omega arith

pub mulhsu-OnWords : OnWords mulhsu
unfolding mulhsu
mulhsu-OnWords a b ha hb = as_u32-IsU32 _

-- A function of two words that gives a word, if it gives a value.
abbrev pub EnsuresWords : (ℕ → ℕ → Outcome ℕ) → Type 0
EnsuresWords f = (a b : ℕ) → IsU32 a → IsU32 b → Ensures IsU32 (f a b)

pub total-EnsuresWords : (f : ℕ → ℕ → ℕ) → OnWords f → EnsuresWords (total f)
total-EnsuresWords f h a b ha hb = returns (h a b ha hb)

pub div-EnsuresWords : EnsuresWords div
unfolding div
div-EnsuresWords a b ha hb =
    Ensures-if _ (returns (omega arith))
      (Ensures-bind (Ensures-any _) λ q _. returns (as_u32-IsU32 q))

pub divu-EnsuresWords : EnsuresWords divu
unfolding divu
divu-EnsuresWords a b ha hb =
    Ensures-if _ (returns (omega arith))
      (Ensures-if _ panics (returns (omega (arith, div-le_self a b))))

pub rem-EnsuresWords : EnsuresWords rem
unfolding rem
rem-EnsuresWords a b ha hb = Ensures-bind (Ensures-any _) λ r _. returns (as_u32-IsU32 r)

pub remu-EnsuresWords : EnsuresWords remu
unfolding remu
remu-EnsuresWords a b ha hb =
    Ensures-if _ (returns ha) (Ensures-if _ panics (returns (omega (arith, mod-le a b))))

pub sll-OnWords : OnWords sll
unfolding sll shl32
sll-OnWords a b ha hb = omega arith

pub srl-OnWords : OnWords srl
unfolding srl shr32
srl-OnWords a b ha hb = omega (arith, div-le_self a (2 ^ bit_and b 31))

pub sra-OnWords : OnWords sra
unfolding sra
sra-OnWords a b ha hb = as_u32-IsU32 _

pub slt-OnWords : OnWords slt
unfolding slt
slt-OnWords a b ha hb = if_IsU32 _ 1 0 (omega arith) (omega arith)

pub record AreBytes (m : Bytes4) : Type 0 where
  pub b0 : IsU8 m.b0
  pub b1 : IsU8 m.b1
  pub b2 : IsU8 m.b2
  pub b3 : IsU8 m.b3

-- A load that gives a word for the register.
abbrev pub LoadsWords : (Bytes4 → ℕ × ℕ) → Type 0
LoadsWords f = (m : Bytes4) → AreBytes m → IsU32 (f m).1

pub lb-LoadsWords : LoadsWords lb
unfolding lb
lb-LoadsWords m h = as_u32-IsU32 _

pub lbu-LoadsWords : LoadsWords lbu
unfolding lbu
lbu-LoadsWords m h = omega arith

pub lh-LoadsWords : LoadsWords lh
unfolding lh
lh-LoadsWords m h = as_u32-IsU32 _

pub lhu-LoadsWords : LoadsWords lhu
unfolding lhu lhu_raw u16_from_le_bytes
lhu-LoadsWords m h = omega arith

pub lw-LoadsWords : LoadsWords lw
unfolding lw u32_from_le_bytes
lw-LoadsWords m h = omega arith
