-- ===== src/Runner/Decode/RoundTrip/Others.antt =====
-- runner/src/decode.rs: constant shifts, jumps, upper immediates and the environment call.
use mozak_vm.Prelude.{ℕ, ◌+◌, ◌-◌, ◌^◌, ◌<◌, ◌≡◌, arith, bit_and}
use mozak_vm.Prelude.Bits.{bit_and_disjoint}
use mozak_vm.Runner.Alu.Shifts.{shl32-one}
use mozak_vm.Runner.Instruction.{instruction}
use mozak_vm.Runner.Format.{BitRange}
use mozak_vm.Runner.Decode.{decode_instruction, decode_op_imm, decode_system}
use mozak_vm.Runner.Decode.Fields.{IsBitRange, AreParts, opcode-pack, funct3-pack, funct12-pack}
use mozak_vm.Runner.Decode.Riscv.{Riscv, InRange, encode, encode_parts, meaning}
use mozak_vm.Runner.Decode.RoundTrip.Formats.{
  itype-pack, jtype-pack, utype-pack, utype_absolute-pack,
}

-- A shift amount has no bit above the fifth.
high_bits : (s : ℕ) → s < 32 → bit_and s (2 ^ 32 - 1 - 31) ≡ 0
high_bits s h = bit_and_disjoint 5 (2 ^ 27 - 1) s h

module _ (bit_range : BitRange) (law : IsBitRange bit_range) where
  pub decode-slli :
      (pc : ℕ) (rd rs1 shamt : ℕ)
      → InRange (Riscv.slli rd rs1 shamt)
      → decode_instruction bit_range pc (encode (Riscv.slli rd rs1 shamt))
        ≡ instruction (meaning pc (Riscv.slli rd rs1 shamt))
  unfolding decode_instruction decode_op_imm
  decode-slli pc rd rs1 shamt h =
      let p = encode_parts (Riscv.slli rd rs1 shamt) in
      let a : AreParts p = omega arith in
      ground (
        arith,
        opcode-pack bit_range law p a,
        funct3-pack bit_range law p a,
        itype-pack bit_range law p a,
        high_bits shamt h.2,
        shl32-one shamt h.2,
      )

  pub decode-srli :
      (pc : ℕ) (rd rs1 shamt : ℕ)
      → InRange (Riscv.srli rd rs1 shamt)
      → decode_instruction bit_range pc (encode (Riscv.srli rd rs1 shamt))
        ≡ instruction (meaning pc (Riscv.srli rd rs1 shamt))
  unfolding decode_instruction decode_op_imm
  decode-srli pc rd rs1 shamt h =
      let p = encode_parts (Riscv.srli rd rs1 shamt) in
      let a : AreParts p = omega arith in
      ground (
        arith,
        opcode-pack bit_range law p a,
        funct3-pack bit_range law p a,
        itype-pack bit_range law p a,
        law shamt 4 0 (omega arith),
        law shamt 11 5 (omega arith),
        shl32-one shamt h.2,
      )

  pub decode-srai :
      (pc : ℕ) (rd rs1 shamt : ℕ)
      → InRange (Riscv.srai rd rs1 shamt)
      → decode_instruction bit_range pc (encode (Riscv.srai rd rs1 shamt))
        ≡ instruction (meaning pc (Riscv.srai rd rs1 shamt))
  unfolding decode_instruction decode_op_imm
  decode-srai pc rd rs1 shamt h =
      let p = encode_parts (Riscv.srai rd rs1 shamt) in
      let a : AreParts p = omega arith in
      ground (
        arith,
        opcode-pack bit_range law p a,
        funct3-pack bit_range law p a,
        itype-pack bit_range law p a,
        law (shamt + 1024) 4 0 (omega arith),
        law (shamt + 1024) 11 5 (omega arith),
      )

  pub decode-jal :
      (pc : ℕ) (rd v : ℕ)
      → InRange (Riscv.jal rd v)
      → decode_instruction bit_range pc (encode (Riscv.jal rd v))
        ≡ instruction (meaning pc (Riscv.jal rd v))
  unfolding decode_instruction
  decode-jal pc rd v h =
      let p = encode_parts (Riscv.jal rd v) in
      let a : AreParts p = omega arith in
      ground (arith, opcode-pack bit_range law p a, jtype-pack bit_range law p a pc)

  pub decode-jalr :
      (pc : ℕ) (rd base v : ℕ)
      → InRange (Riscv.jalr rd base v)
      → decode_instruction bit_range pc (encode (Riscv.jalr rd base v))
        ≡ instruction (meaning pc (Riscv.jalr rd base v))
  unfolding decode_instruction
  decode-jalr pc rd base v h =
      let p = encode_parts (Riscv.jalr rd base v) in
      let a : AreParts p = omega arith in
      ground (
        arith,
        opcode-pack bit_range law p a,
        funct3-pack bit_range law p a,
        itype-pack bit_range law p a,
      )

  pub decode-lui :
      (pc : ℕ) (rd v : ℕ)
      → InRange (Riscv.lui rd v)
      → decode_instruction bit_range pc (encode (Riscv.lui rd v))
        ≡ instruction (meaning pc (Riscv.lui rd v))
  unfolding decode_instruction
  decode-lui pc rd v h =
      let p = encode_parts (Riscv.lui rd v) in
      let a : AreParts p = omega arith in
      ground (arith, opcode-pack bit_range law p a, utype-pack bit_range law p a)

  pub decode-auipc :
      (pc : ℕ) (rd v : ℕ)
      → InRange (Riscv.auipc rd v)
      → decode_instruction bit_range pc (encode (Riscv.auipc rd v))
        ≡ instruction (meaning pc (Riscv.auipc rd v))
  unfolding decode_instruction
  decode-auipc pc rd v h =
      let p = encode_parts (Riscv.auipc rd v) in
      let a : AreParts p = omega arith in
      ground (arith, opcode-pack bit_range law p a, utype_absolute-pack bit_range law p a pc)

  pub decode-environment_call :
      (pc : ℕ)
      → InRange Riscv.environment_call
      → decode_instruction bit_range pc (encode Riscv.environment_call)
        ≡ instruction (meaning pc Riscv.environment_call)
  unfolding decode_instruction decode_system
  decode-environment_call pc h =
      let p = encode_parts Riscv.environment_call in
      let a : AreParts p = omega arith in
      ground (
        arith,
        opcode-pack bit_range law p a,
        funct3-pack bit_range law p a,
        funct12-pack bit_range law p a,
      )

  pub decode-fence :
      (pc : ℕ) (v : ℕ)
      → InRange (Riscv.fence v)
      → decode_instruction bit_range pc (encode (Riscv.fence v))
        ≡ instruction (meaning pc (Riscv.fence v))
  unfolding decode_instruction
  decode-fence pc v h =
      let p = encode_parts (Riscv.fence v) in
      let a : AreParts p = omega arith in ground (arith, opcode-pack bit_range law p a)

  pub decode-environment_break :
      (pc : ℕ)
      → InRange Riscv.environment_break
      → decode_instruction bit_range pc (encode Riscv.environment_break)
        ≡ instruction (meaning pc Riscv.environment_break)
  unfolding decode_instruction decode_system
  decode-environment_break pc h =
      let p = encode_parts Riscv.environment_break in
      let a : AreParts p = omega arith in
      ground (
        arith,
        opcode-pack bit_range law p a,
        funct3-pack bit_range law p a,
        funct12-pack bit_range law p a,
      )
