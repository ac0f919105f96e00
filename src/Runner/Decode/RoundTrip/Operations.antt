-- ===== src/Runner/Decode/RoundTrip/Operations.antt =====
-- runner/src/decode.rs: register and immediate operations, loads, stores and branches.
use mozak_vm.Prelude.{ℕ, ◌≡◌, arith}
use mozak_vm.Runner.Instruction.{instruction}
use mozak_vm.Runner.Format.{BitRange}
use mozak_vm.Runner.Decode.{
  decode_instruction, decode_op, decode_op_imm, decode_load, decode_store, decode_branch,
}
use mozak_vm.Runner.Decode.Fields.{IsBitRange, AreParts, opcode-pack, funct3-pack, funct7-pack}
use mozak_vm.Runner.Decode.Riscv.{
  Riscv, RegOp, ImmOp, LoadOp, StoreOp, BranchOp, InRange, encode, encode_parts, meaning,
}
use mozak_vm.Runner.Decode.RoundTrip.Formats.{
  rtype-pack, itype-pack, itype_load-pack, stype-pack, btype-pack,
}

module _ (bit_range : BitRange) (law : IsBitRange bit_range) where
  reg-AreParts :
      (o : RegOp) (rd rs1 rs2 : ℕ)
      → InRange (Riscv.reg o rd rs1 rs2)
      → AreParts (encode_parts (Riscv.reg o rd rs1 rs2))
  reg-AreParts RegOp.add rd rs1 rs2 h = omega arith
  reg-AreParts o rd rs1 rs2 h = omega arith

  pub decode-reg :
      (pc : ℕ) (o : RegOp) (rd rs1 rs2 : ℕ)
      → InRange (Riscv.reg o rd rs1 rs2)
      → decode_instruction bit_range pc (encode (Riscv.reg o rd rs1 rs2))
        ≡ instruction (meaning pc (Riscv.reg o rd rs1 rs2))
  unfolding decode_instruction decode_op
  decode-reg pc RegOp.add rd rs1 rs2 h =
      let p = encode_parts (Riscv.reg RegOp.add rd rs1 rs2) in
      let a = reg-AreParts RegOp.add rd rs1 rs2 h in
      ground (
        arith,
        opcode-pack bit_range law p a,
        funct3-pack bit_range law p a,
        funct7-pack bit_range law p a,
        rtype-pack bit_range law p a,
      )
  decode-reg pc o rd rs1 rs2 h =
      let p = encode_parts (Riscv.reg o rd rs1 rs2) in
      let a = reg-AreParts o rd rs1 rs2 h in
      ground (
        arith,
        opcode-pack bit_range law p a,
        funct3-pack bit_range law p a,
        funct7-pack bit_range law p a,
        rtype-pack bit_range law p a,
      )

  imm-AreParts :
      (o : ImmOp) (rd rs1 v : ℕ)
      → InRange (Riscv.imm o rd rs1 v)
      → AreParts (encode_parts (Riscv.imm o rd rs1 v))
  imm-AreParts ImmOp.addi rd rs1 v h = omega arith
  imm-AreParts o rd rs1 v h = omega arith

  pub decode-imm :
      (pc : ℕ) (o : ImmOp) (rd rs1 v : ℕ)
      → InRange (Riscv.imm o rd rs1 v)
      → decode_instruction bit_range pc (encode (Riscv.imm o rd rs1 v))
        ≡ instruction (meaning pc (Riscv.imm o rd rs1 v))
  unfolding decode_instruction decode_op_imm
  decode-imm pc ImmOp.addi rd rs1 v h =
      let p = encode_parts (Riscv.imm ImmOp.addi rd rs1 v) in
      let a = imm-AreParts ImmOp.addi rd rs1 v h in
      ground (
        arith,
        opcode-pack bit_range law p a,
        funct3-pack bit_range law p a,
        itype-pack bit_range law p a,
      )
  decode-imm pc o rd rs1 v h =
      let p = encode_parts (Riscv.imm o rd rs1 v) in
      let a = imm-AreParts o rd rs1 v h in
      ground (
        arith,
        opcode-pack bit_range law p a,
        funct3-pack bit_range law p a,
        itype-pack bit_range law p a,
      )

  load-AreParts :
      (o : LoadOp) (rd base v : ℕ)
      → InRange (Riscv.load o rd base v)
      → AreParts (encode_parts (Riscv.load o rd base v))
  load-AreParts LoadOp.lb rd base v h = omega arith
  load-AreParts o rd base v h = omega arith

  pub decode-load :
      (pc : ℕ) (o : LoadOp) (rd base v : ℕ)
      → InRange (Riscv.load o rd base v)
      → decode_instruction bit_range pc (encode (Riscv.load o rd base v))
        ≡ instruction (meaning pc (Riscv.load o rd base v))
  unfolding decode_instruction decode_load
  decode-load pc LoadOp.lb rd base v h =
      let p = encode_parts (Riscv.load LoadOp.lb rd base v) in
      let a = load-AreParts LoadOp.lb rd base v h in
      ground (
        arith,
        opcode-pack bit_range law p a,
        funct3-pack bit_range law p a,
        itype_load-pack bit_range law p a,
      )
  decode-load pc o rd base v h =
      let p = encode_parts (Riscv.load o rd base v) in
      let a = load-AreParts o rd base v h in
      ground (
        arith,
        opcode-pack bit_range law p a,
        funct3-pack bit_range law p a,
        itype_load-pack bit_range law p a,
      )

  store-AreParts :
      (o : StoreOp) (base value v : ℕ)
      → InRange (Riscv.store o base value v)
      → AreParts (encode_parts (Riscv.store o base value v))
  store-AreParts StoreOp.sb base value v h = omega arith
  store-AreParts o base value v h = omega arith

  pub decode-store :
      (pc : ℕ) (o : StoreOp) (base value v : ℕ)
      → InRange (Riscv.store o base value v)
      → decode_instruction bit_range pc (encode (Riscv.store o base value v))
        ≡ instruction (meaning pc (Riscv.store o base value v))
  unfolding decode_instruction decode_store
  decode-store pc StoreOp.sb base value v h =
      let p = encode_parts (Riscv.store StoreOp.sb base value v) in
      let a = store-AreParts StoreOp.sb base value v h in
      ground (
        arith,
        opcode-pack bit_range law p a,
        funct3-pack bit_range law p a,
        stype-pack bit_range law p a,
      )
  decode-store pc o base value v h =
      let p = encode_parts (Riscv.store o base value v) in
      let a = store-AreParts o base value v h in
      ground (
        arith,
        opcode-pack bit_range law p a,
        funct3-pack bit_range law p a,
        stype-pack bit_range law p a,
      )

  branch-AreParts :
      (o : BranchOp) (rs1 rs2 v : ℕ)
      → InRange (Riscv.branch o rs1 rs2 v)
      → AreParts (encode_parts (Riscv.branch o rs1 rs2 v))
  branch-AreParts BranchOp.beq rs1 rs2 v h = omega arith
  branch-AreParts o rs1 rs2 v h = omega arith

  pub decode-branch :
      (pc : ℕ) (o : BranchOp) (rs1 rs2 v : ℕ)
      → InRange (Riscv.branch o rs1 rs2 v)
      → decode_instruction bit_range pc (encode (Riscv.branch o rs1 rs2 v))
        ≡ instruction (meaning pc (Riscv.branch o rs1 rs2 v))
  unfolding decode_instruction decode_branch
  decode-branch pc BranchOp.beq rs1 rs2 v h =
      let p = encode_parts (Riscv.branch BranchOp.beq rs1 rs2 v) in
      let a = branch-AreParts BranchOp.beq rs1 rs2 v h in
      ground (
        arith,
        opcode-pack bit_range law p a,
        funct3-pack bit_range law p a,
        btype-pack bit_range law p a pc,
      )
  decode-branch pc o rs1 rs2 v h =
      let p = encode_parts (Riscv.branch o rs1 rs2 v) in
      let a = branch-AreParts o rs1 rs2 v h in
      ground (
        arith,
        opcode-pack bit_range law p a,
        funct3-pack bit_range law p a,
        btype-pack bit_range law p a pc,
      )
