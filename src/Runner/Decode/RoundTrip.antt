-- ===== src/Runner/Decode/RoundTrip.antt =====
-- runner/src/decode.rs: the decoder on encoded instructions.
mod Formats
mod Operations
mod Others
use mozak_vm.Prelude.{ℕ, ◌+◌, ◌-◌, ◌*◌, ◌^◌, ◌<◌, ◌≡◌, arith, bit_and}
use mozak_vm.Prelude.Bits.{bit_and_disjoint}
use mozak_vm.Word.{wrapping_add}
use mozak_vm.Runner.Alu.Shifts.{shl32-one}
use mozak_vm.Runner.Instruction.{instruction}
use mozak_vm.Runner.Format.{
  BitRange, rtype, itype, itype_load, stype, btype, jtype, utype, utype_absolute,
}
use mozak_vm.Runner.Decode.{
  decode_instruction, decode_op, decode_op_imm, decode_load, decode_store, decode_branch,
  decode_system,
}
use mozak_vm.Runner.Decode.Fields.{
  IsBitRange, Parts, AreParts, pack, sign_extend, opcode-pack, rd-pack, rs1-pack, rs2-pack,
  funct3-pack, funct7-pack, funct12-pack, immediate_i, immediate_s, immediate_b, immediate_j,
  immediate_u, branch_offset, jump_offset,
}
use mozak_vm.Runner.Decode.Riscv.{
  Riscv, RegOp, ImmOp, LoadOp, StoreOp, BranchOp, InRange, encode, encode_parts, meaning,
}
use Operations.{decode-reg, decode-imm, decode-load, decode-store, decode-branch}
use Others.{
  decode-slli, decode-srli, decode-srai, decode-jal, decode-jalr, decode-lui, decode-auipc,
  decode-environment_call, decode-environment_break, decode-fence,
}

module _ (bit_range : BitRange) (law : IsBitRange bit_range) where
  -- Decoding the encoding of an RV32IM instruction, FENCE, ECALL and EBREAK included, whose
  -- registers and immediates are in range gives the runner's instruction that stands for it:
  -- operation, registers, sign-extended immediate, absolute branch and jump targets, constant
  -- shifts as products and quotients, LUI and AUIPC as sums, and FENCE and EBREAK as additions
  -- that do nothing; given that bit_range selects the bits that its documentation says.
  pub decode-encode :
      (pc : ℕ) (i : Riscv)
      → InRange i
      → decode_instruction bit_range pc (encode i) ≡ instruction (meaning pc i)
  decode-encode pc (Riscv.reg o rd rs1 rs2) h = decode-reg bit_range law pc o rd rs1 rs2 h
  decode-encode pc (Riscv.imm o rd rs1 v) h = decode-imm bit_range law pc o rd rs1 v h
  decode-encode pc (Riscv.slli rd rs1 shamt) h = decode-slli bit_range law pc rd rs1 shamt h
  decode-encode pc (Riscv.srli rd rs1 shamt) h = decode-srli bit_range law pc rd rs1 shamt h
  decode-encode pc (Riscv.srai rd rs1 shamt) h = decode-srai bit_range law pc rd rs1 shamt h
  decode-encode pc (Riscv.load o rd base v) h = decode-load bit_range law pc o rd base v h
  decode-encode pc (Riscv.store o base value v) h = decode-store bit_range law pc o base value v h
  decode-encode pc (Riscv.branch o rs1 rs2 v) h = decode-branch bit_range law pc o rs1 rs2 v h
  decode-encode pc (Riscv.jal rd v) h = decode-jal bit_range law pc rd v h
  decode-encode pc (Riscv.jalr rd base v) h = decode-jalr bit_range law pc rd base v h
  decode-encode pc (Riscv.lui rd v) h = decode-lui bit_range law pc rd v h
  decode-encode pc (Riscv.auipc rd v) h = decode-auipc bit_range law pc rd v h
  decode-encode pc Riscv.environment_call h = decode-environment_call bit_range law pc h
  decode-encode pc Riscv.environment_break h = decode-environment_break bit_range law pc h
  decode-encode pc (Riscv.fence v) h = decode-fence bit_range law pc v h
