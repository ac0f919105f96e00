-- ===== src/Runner/Decode.antt =====
-- runner/src/decode.rs: from an instruction word to an instruction, by its opcode and functions.
pub mod Fields
pub mod Riscv
pub mod RoundTrip
pub mod Bounds
use mozak_vm.Prelude.{ℕ, ◌-◌, ◌^◌, bit_and, ◌==◌, if◌then◌else◌}
use mozak_vm.Word.{shl32}
use mozak_vm.Runner.Instruction.{Args, Op, nop, Decoded, instruction, unknown, Instruction}
use mozak_vm.Runner.Format.{
  BitRange, opcode, funct3, funct7, funct12, stype, rtype, itype, itype_load, jtype, btype, utype,
  utype_absolute,
}

-- `ECALL`: reads a0 and a1
abbrev pub ecall : Instruction
ecall = record { op = Op.ecall; args = record { rd = 0; rs1 = 10; rs2 = 11; imm = 0 } }

-- The result for an operation, and for a word that is none.
abbrev pub found : Op → Args → Decoded
found op args = instruction (record { op = op; args = args })

abbrev pub default : ℕ → ℕ → Decoded
default pc word = unknown (record { pc = pc; instruction = word })

module _ (bit_range : BitRange) where
  -- opcode 0b011_0011
  unfoldable pub decode_op : ℕ → ℕ → Decoded
  decode_op pc word =
      let f3 = funct3 bit_range word in
      let f7 = funct7 bit_range word in
      let args = rtype bit_range word in
      if f7 == 0x00
      then (if f3 == 0x0
          then found Op.add args
          else if f3 == 0x1
          then found Op.sll args
          else if f3 == 0x2
          then found Op.slt args
          else if f3 == 0x3
          then found Op.sltu args
          else if f3 == 0x4
          then found Op.xor args
          else if f3 == 0x5
          then found Op.srl args
          else if f3 == 0x6
          then found Op.or args
          else if f3 == 0x7
          then found Op.and args
          else default pc word)
      else if f7 == 0x20
      then (if f3 == 0x0
          then found Op.sub args
          else if f3 == 0x5
          then found Op.sra args
          else default pc word)
      else if f7 == 0x01
      then (if f3 == 0x0
          then found Op.mul args
          else if f3 == 0x1
          then found Op.mulh args
          else if f3 == 0x2
          then found Op.mulhsu args
          else if f3 == 0x3
          then found Op.mulhu args
          else if f3 == 0x4
          then found Op.div args
          else if f3 == 0x5
          then found Op.divu args
          else if f3 == 0x6
          then found Op.rem args
          else if f3 == 0x7
          then found Op.remu args
          else default pc word)
      else default pc word

  -- opcode 0b000_0011
  unfoldable pub decode_load : ℕ → ℕ → Decoded
  decode_load pc word =
      let f3 = funct3 bit_range word in
      let args = itype_load bit_range word in
      if f3 == 0x0
      then found Op.lb args
      else if f3 == 0x1
      then found Op.lh args
      else if f3 == 0x2
      then found Op.lw args
      else if f3 == 0x4
      then found Op.lbu args
      else if f3 == 0x5
      then found Op.lhu args
      else default pc word

  -- opcode 0b010_0011
  unfoldable pub decode_store : ℕ → ℕ → Decoded
  decode_store pc word =
      let f3 = funct3 bit_range word in
      let args = stype bit_range word in
      if f3 == 0x0
      then found Op.sb args
      else if f3 == 0x1
      then found Op.sh args
      else if f3 == 0x2
      then found Op.sw args
      else default pc word

  -- SRAI and SRLI; the five low bits of the immediate are the shift amount
  unfoldable pub decode_shift_right : ℕ → ℕ → Decoded
  decode_shift_right pc word =
      let args = itype bit_range word in
      let imm = args.imm in
      let imm_masked = bit_range imm 4 0 in
      let kind = bit_range imm 11 5 in
      if kind == 0b010_0000
      then found Op.sra (record { rd = args.rd; rs1 = args.rs1; rs2 = args.rs2; imm = imm_masked })
      else if kind == 0
      then found Op.divu
          (record { rd = args.rd; rs1 = args.rs1; rs2 = args.rs2; imm = shl32 1 imm_masked })
      else default pc word

  -- opcode 0b001_0011. SLLI is handled as MUL.
  unfoldable pub decode_op_imm : ℕ → ℕ → Decoded
  unfolding decode_shift_right
  decode_op_imm pc word =
      let f3 = funct3 bit_range word in
      let args = itype bit_range word in
      if f3 == 0x0
      then found Op.add args
      else if f3 == 0x1
      then (if bit_and args.imm (2 ^ 32 - 1 - 0b1_1111) == 0
          then found Op.mul
              (record { rd = args.rd; rs1 = args.rs1; rs2 = args.rs2; imm = shl32 1 args.imm })
          else default pc word)
      else if f3 == 0x2
      then found Op.slt args
      else if f3 == 0x3
      then found Op.sltu args
      else if f3 == 0x4
      then found Op.xor args
      else if f3 == 0x5
      then decode_shift_right pc word
      else if f3 == 0x6
      then found Op.or args
      else if f3 == 0x7
      then found Op.and args
      else default pc word

  -- opcode 0b111_0011. MRET, EBREAK and the CSR instructions do nothing.
  unfoldable pub decode_system : ℕ → ℕ → Decoded
  decode_system pc word =
      let f3 = funct3 bit_range word in
      let f12 = funct12 bit_range word in
      if f3 == 0x0
      then (if f12 == 0x0
          then instruction ecall
          else if f12 == 0x302
          then instruction nop
          else if f12 == 0x1
          then instruction nop
          else default pc word)
      else if f3 == 0x1
      then instruction nop
      else if f3 == 0x2
      then instruction nop
      else if f3 == 0x5
      then instruction nop
      else default pc word

  -- opcode 0b110_0011
  unfoldable pub decode_branch : ℕ → ℕ → Decoded
  decode_branch pc word =
      let f3 = funct3 bit_range word in
      let args = btype bit_range pc word in
      if f3 == 0x0
      then found Op.beq args
      else if f3 == 0x1
      then found Op.bne args
      else if f3 == 0x4
      then found Op.blt args
      else if f3 == 0x5
      then found Op.bge args
      else if f3 == 0x6
      then found Op.bltu args
      else if f3 == 0x7
      then found Op.bgeu args
      else default pc word

  unfoldable pub decode_instruction : ℕ → ℕ → Decoded
  decode_instruction pc word =
      let op = opcode bit_range word in
      if op == 0b011_0011
      then decode_op pc word
      else if op == 0b000_0011
      then decode_load pc word
      else if op == 0b010_0011
      then decode_store pc word
      else if op == 0b001_0011
      then decode_op_imm pc word
      else if op == 0b111_0011
      then decode_system pc word
      else if op == 0b110_1111
      then found Op.jalr (jtype bit_range pc word)
      else if op == 0b110_0111
      then (if funct3 bit_range word == 0x0
          then found Op.jalr (itype bit_range word)
          else default pc word)
      else if op == 0b110_0011
      then decode_branch pc word
      else if op == 0b011_0111
      then found Op.add (utype bit_range word)
      else if op == 0b001_0111
      then found Op.add (utype_absolute bit_range pc word)
      else if op == 0b000_1111
      then instruction nop
      else default pc word
