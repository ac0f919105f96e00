-- ===== src/Runner/Tests/Decoding.antt =====
-- The decoder on instruction words.
use mozak_vm.Prelude.{◌≡◌, arith}
use mozak_vm.Runner.Instruction.{instruction}
use mozak_vm.Runner.Decode.{decode_instruction}
use mozak_vm.Runner.Decode.Riscv.{Riscv, BranchOp, encode, meaning}
use mozak_vm.Runner.Decode.RoundTrip.{decode-encode}
use mozak_vm.Runner.Tests.World.{toy_bit_range, toy_bit_range-IsBitRange}

-- `beq x1, x2, -4` at address 8
decode-encode_example :
    decode_instruction toy_bit_range 8 (encode (Riscv.branch BranchOp.beq 1 2 0xFFE))
    ≡ instruction (meaning 8 (Riscv.branch BranchOp.beq 1 2 0xFFE))
decode-encode_example =
    decode-encode toy_bit_range toy_bit_range-IsBitRange 8 (Riscv.branch BranchOp.beq 1 2 0xFFE)
      (omega arith)
