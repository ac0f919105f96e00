-- ===== src/Runner/Instruction.antt =====
-- runner/src/instruction.rs: the decoded instructions.
use mozak_vm.Prelude.{ℕ, ◌<◌}
use mozak_vm.Word.{IsU32}

pub record Args : Type 0 where
  pub rd : ℕ
  pub rs1 : ℕ
  pub rs2 : ℕ
  pub imm : ℕ

abbrev pub default_args : Args
default_args = record { rd = 0; rs1 = 0; rs2 = 0; imm = 0 }

pub data Op : Type 0 where
  add sub xor or and sll srl sra slt sltu : Op
  lb lh lw lbu lhu sb sh sw : Op
  beq bne blt bge bltu bgeu jalr ecall : Op
  mul mulh mulhu mulhsu div divu rem remu : Op

pub record Instruction : Type 0 where
  pub op : Op
  pub args : Args

abbrev pub nop : Instruction
nop = record { op = add; args = default_args }

pub record DecodingError : Type 0 where
  pub pc : ℕ
  pub instruction : ℕ

pub data Decoded : Type 0 where
  instruction : Instruction → Decoded
  unknown : DecodingError → Decoded

-- The ranges that a decoded instruction keeps: 32 registers and a 32-bit immediate.
pub record IsValid (a : Args) : Type 0 where
  pub rd : a.rd < 32
  pub rs1 : a.rs1 < 32
  pub rs2 : a.rs2 < 32
  pub imm : IsU32 a.imm
