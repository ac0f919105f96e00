-- ===== src/Runner/Decode/Riscv.antt =====
-- The specification: RV32IM instructions with their encodings, as the tables of the RISC-V manual
-- give them, and the instruction of the runner that stands for each.
use mozak_vm.Prelude.{ℕ, ◌+◌, ◌*◌, ◌/◌, ◌%◌, ◌^◌, ◌<◌}
use mozak_vm.Word.{wrapping_add}
use mozak_vm.Runner.Instruction.{Op, Instruction}
use mozak_vm.Runner.Decode.{ecall}
use mozak_vm.Runner.Decode.Fields.{Parts, pack, sign_extend}

-- The register-register operations, and those with an immediate.
pub data RegOp : Type 0 where
  add sub sll slt sltu xor srl sra or and mul mulh mulhsu mulhu div divu rem remu : RegOp

pub data ImmOp : Type 0 where
  addi slti sltiu xori ori andi : ImmOp

pub data LoadOp : Type 0 where
  lb lh lw lbu lhu : LoadOp

pub data StoreOp : Type 0 where
  sb sh sw : StoreOp

pub data BranchOp : Type 0 where
  beq bne blt bge bltu bgeu : BranchOp

-- Registers are numbers, immediates bit patterns; the offsets of branches and jumps are given in
-- units of two bytes.
pub data Riscv : Type 0 where
  reg : (o : RegOp) (rd rs1 rs2 : ℕ) → Riscv
  imm : (o : ImmOp) (rd rs1 value : ℕ) → Riscv
  slli srli srai : (rd rs1 shamt : ℕ) → Riscv
  load : (o : LoadOp) (rd base offset : ℕ) → Riscv
  store : (o : StoreOp) (base value offset : ℕ) → Riscv
  branch : (o : BranchOp) (rs1 rs2 offset : ℕ) → Riscv
  jal : (rd offset : ℕ) → Riscv
  jalr : (rd base offset : ℕ) → Riscv
  lui auipc : (rd upper : ℕ) → Riscv
  fence : (order : ℕ) → Riscv
  environment_call environment_break : Riscv

abbrev pub InRange : Riscv → Type 0
InRange (reg o rd rs1 rs2) = (rd < 32) × (rs1 < 32) × (rs2 < 32)
InRange (imm o rd rs1 value) = (rd < 32) × (rs1 < 32) × (value < 2 ^ 12)
InRange (slli rd rs1 shamt) = (rd < 32) × (rs1 < 32) × (shamt < 32)
InRange (srli rd rs1 shamt) = (rd < 32) × (rs1 < 32) × (shamt < 32)
InRange (srai rd rs1 shamt) = (rd < 32) × (rs1 < 32) × (shamt < 32)
InRange (load o rd base offset) = (rd < 32) × (base < 32) × (offset < 2 ^ 12)
InRange (store o base value offset) = (base < 32) × (value < 32) × (offset < 2 ^ 12)
InRange (branch o rs1 rs2 offset) = (rs1 < 32) × (rs2 < 32) × (offset < 2 ^ 12)
InRange (jal rd offset) = (rd < 32) × (offset < 2 ^ 20)
InRange (jalr rd base offset) = (rd < 32) × (base < 32) × (offset < 2 ^ 12)
InRange (lui rd upper) = (rd < 32) × (upper < 2 ^ 20)
InRange (auipc rd upper) = (rd < 32) × (upper < 2 ^ 20)
InRange (fence order) = order < 2 ^ 12
InRange environment_call = Unit
InRange environment_break = Unit

abbrev reg_functs : RegOp → ℕ × ℕ
reg_functs add = (0, 0x00)
reg_functs sub = (0, 0x20)
reg_functs sll = (1, 0x00)
reg_functs slt = (2, 0x00)
reg_functs sltu = (3, 0x00)
reg_functs xor = (4, 0x00)
reg_functs srl = (5, 0x00)
reg_functs sra = (5, 0x20)
reg_functs or = (6, 0x00)
reg_functs and = (7, 0x00)
reg_functs mul = (0, 0x01)
reg_functs mulh = (1, 0x01)
reg_functs mulhsu = (2, 0x01)
reg_functs mulhu = (3, 0x01)
reg_functs div = (4, 0x01)
reg_functs divu = (5, 0x01)
reg_functs rem = (6, 0x01)
reg_functs remu = (7, 0x01)

abbrev imm_funct : ImmOp → ℕ
imm_funct addi = 0
imm_funct slti = 2
imm_funct sltiu = 3
imm_funct xori = 4
imm_funct ori = 6
imm_funct andi = 7

abbrev load_funct : LoadOp → ℕ
load_funct lb = 0
load_funct lh = 1
load_funct lw = 2
load_funct lbu = 4
load_funct lhu = 5

abbrev store_funct : StoreOp → ℕ
store_funct sb = 0
store_funct sh = 1
store_funct sw = 2

abbrev branch_funct : BranchOp → ℕ
branch_funct beq = 0
branch_funct bne = 1
branch_funct blt = 4
branch_funct bge = 5
branch_funct bltu = 6
branch_funct bgeu = 7

abbrev pub parts : ℕ → ℕ → ℕ → ℕ → ℕ → ℕ → Parts
parts opcode rd funct3 rs1 rs2 funct7 = record {
  opcode = opcode;
  rd = rd;
  funct3 = funct3;
  rs1 = rs1;
  rs2 = rs2;
  funct7 = funct7;
}

-- Where the manual puts the bits of an immediate.
abbrev pub encode_parts : Riscv → Parts
encode_parts (reg o rd rs1 rs2) = parts 0b011_0011 rd (reg_functs o).0 rs1 rs2 (reg_functs o).1
encode_parts (imm o rd rs1 v) = parts 0b001_0011 rd (imm_funct o) rs1 (v % 2 ^ 5) (v / 2 ^ 5)
encode_parts (slli rd rs1 shamt) = parts 0b001_0011 rd 1 rs1 shamt 0x00
encode_parts (srli rd rs1 shamt) = parts 0b001_0011 rd 5 rs1 shamt 0x00
encode_parts (srai rd rs1 shamt) = parts 0b001_0011 rd 5 rs1 shamt 0x20
encode_parts (load o rd base v) = parts 0b000_0011 rd (load_funct o) base (v % 2 ^ 5) (v / 2 ^ 5)
encode_parts (store o base value v) =
    parts 0b010_0011 (v % 2 ^ 5) (store_funct o) base value (v / 2 ^ 5)
-- offset[11|4:1] in `rd`, offset[12|10:5] in `funct7`, where bit 0 of the offset is left out
encode_parts (branch o rs1 rs2 v) =
    parts 0b110_0011 (v / 2 ^ 10 % 2 + 2 * (v % 2 ^ 4)) (branch_funct o) rs1 rs2
      (v / 2 ^ 4 % 2 ^ 6 + 2 ^ 6 * (v / 2 ^ 11))
-- offset[20|10:1|11|19:12] from bit 31 down to bit 12
encode_parts (jal rd v) =
    parts 0b110_1111 rd (v / 2 ^ 11 % 2 ^ 3) (v / 2 ^ 14 % 2 ^ 5) (v / 2 ^ 10 % 2 + 2 * (v % 2 ^ 4))
      (v / 2 ^ 4 % 2 ^ 6 + 2 ^ 6 * (v / 2 ^ 19))
encode_parts (jalr rd base v) = parts 0b110_0111 rd 0 base (v % 2 ^ 5) (v / 2 ^ 5)
encode_parts (lui rd v) =
    parts 0b011_0111 rd (v % 2 ^ 3) (v / 2 ^ 3 % 2 ^ 5) (v / 2 ^ 8 % 2 ^ 5) (v / 2 ^ 13)
encode_parts (auipc rd v) =
    parts 0b001_0111 rd (v % 2 ^ 3) (v / 2 ^ 3 % 2 ^ 5) (v / 2 ^ 8 % 2 ^ 5) (v / 2 ^ 13)
encode_parts (fence v) = parts 0b000_1111 0 0 0 (v % 2 ^ 5) (v / 2 ^ 5)
encode_parts environment_call = parts 0b111_0011 0 0 0 0 0
encode_parts environment_break = parts 0b111_0011 0 0 0 1 0

abbrev pub encode : Riscv → ℕ
encode i = pack (encode_parts i)

abbrev pub reg_op : RegOp → Op
reg_op add = Op.add
reg_op sub = Op.sub
reg_op sll = Op.sll
reg_op slt = Op.slt
reg_op sltu = Op.sltu
reg_op xor = Op.xor
reg_op srl = Op.srl
reg_op sra = Op.sra
reg_op or = Op.or
reg_op and = Op.and
reg_op mul = Op.mul
reg_op mulh = Op.mulh
reg_op mulhsu = Op.mulhsu
reg_op mulhu = Op.mulhu
reg_op div = Op.div
reg_op divu = Op.divu
reg_op rem = Op.rem
reg_op remu = Op.remu

abbrev pub imm_op : ImmOp → Op
imm_op addi = Op.add
imm_op slti = Op.slt
imm_op sltiu = Op.sltu
imm_op xori = Op.xor
imm_op ori = Op.or
imm_op andi = Op.and

abbrev pub load_op : LoadOp → Op
load_op lb = Op.lb
load_op lh = Op.lh
load_op lw = Op.lw
load_op lbu = Op.lbu
load_op lhu = Op.lhu

abbrev pub store_op : StoreOp → Op
store_op sb = Op.sb
store_op sh = Op.sh
store_op sw = Op.sw

abbrev pub branch_op : BranchOp → Op
branch_op beq = Op.beq
branch_op bne = Op.bne
branch_op blt = Op.blt
branch_op bge = Op.bge
branch_op bltu = Op.bltu
branch_op bgeu = Op.bgeu

abbrev pub made : Op → ℕ → ℕ → ℕ → ℕ → Instruction
made op rd rs1 rs2 value = record {
  op = op;
  args = record { rd = rd; rs1 = rs1; rs2 = rs2; imm = value };
}

-- What the runner executes for an instruction at address `pc`: immediates are sign-extended,
-- jump and branch targets absolute, constant shifts are products and quotients, LUI and AUIPC
-- are sums, and FENCE and EBREAK do nothing: they add R0 and 0 to R0.
abbrev pub meaning : ℕ → Riscv → Instruction
meaning pc (reg o rd rs1 rs2) = made (reg_op o) rd rs1 rs2 0
meaning pc (imm o rd rs1 v) = made (imm_op o) rd rs1 0 (sign_extend 12 v)
meaning pc (slli rd rs1 shamt) = made Op.mul rd rs1 0 (2 ^ shamt)
meaning pc (srli rd rs1 shamt) = made Op.divu rd rs1 0 (2 ^ shamt)
meaning pc (srai rd rs1 shamt) = made Op.sra rd rs1 0 shamt
meaning pc (load o rd base v) = made (load_op o) rd 0 base (sign_extend 12 v)
meaning pc (store o base value v) = made (store_op o) 0 value base (sign_extend 12 v)
meaning pc (branch o rs1 rs2 v) =
    made (branch_op o) 0 rs1 rs2 (wrapping_add (sign_extend 13 (2 * v)) pc)
meaning pc (jal rd v) = made Op.jalr rd 0 0 (wrapping_add (sign_extend 21 (2 * v)) pc)
meaning pc (jalr rd base v) = made Op.jalr rd base 0 (sign_extend 12 v)
meaning pc (lui rd v) = made Op.add rd 0 0 (2 ^ 12 * v)
meaning pc (auipc rd v) = made Op.add rd 0 0 (wrapping_add (2 ^ 12 * v) pc)
meaning pc (fence v) = made Op.add 0 0 0 0
meaning pc environment_call = ecall
meaning pc environment_break = made Op.add 0 0 0 0
