-- ===== src/Runner/Tests/World.antt =====
-- A small program, with the library's field and permutation replaced by numbers and lists.
use mozak_vm.Prelude.{
  ℕ, ◌+◌, ◌/◌, ◌%◌, ◌^◌, ◌-◌, ◌++◌, refl, true, false, Option, some, List, [], ◌∷◌, take, drop,
  length, replicate, arith,
}
use mozak_vm.Runner.Outcome.{Outcome, ok, Build}
use mozak_vm.Runner.HashMap.{get, contains, keys}
use mozak_vm.Runner.Instruction.{Op, Instruction, instruction, default_args}
use mozak_vm.Runner.Program.{Program}
use mozak_vm.Runner.State.{State, RawTapes, new_state}
use mozak_vm.Runner.State.Valid.{IsValid}
use mozak_vm.Runner.State.Initial.{IsProgram, AreRawTapes, new_state-IsValid}
use mozak_vm.Runner.Poseidon2.{Plonky}
use mozak_vm.Runner.Poseidon2.Moves.{WritesBytes}
use mozak_vm.Runner.Format.{BitRange}
use mozak_vm.Runner.Decode.Fields.{IsBitRange}
use mozak_vm.Runner.Vm.{ExecutionRecord, step}
use mozak_vm.Runner.Vm.Moves.{IsCode}

abbrev pub toy_build : Build
toy_build = record { overflow_checks = true; debug_assertions = true; max_loops = 100 }

abbrev pub release_build : Build
release_build = record { overflow_checks = false; debug_assertions = false; max_loops = 100 }

abbrev pub toy_plonky : Plonky
toy_plonky = record {
  F = ℕ;
  zero = 0;
  from_canonical_u8 = λ b. b;
  Permutation = List ℕ;
  width = 12;
  rate = 8;
  new_repeat = λ x. replicate 12 x;
  set_from_slice = λ xs p. xs ++ drop (length xs) p;
  permute = λ p. p;
  as_ref = λ p. p;
  squeeze = λ p. take 8 p;
  to_bytes = λ _. replicate 32 0;
}

pub toy_plonky-WritesBytes : WritesBytes toy_plonky
toy_plonky-WritesBytes h = omega arith

-- x5 := 77; store x5 at 300; halt
abbrev pub add_instruction : Instruction
add_instruction = record { op = Op.add; args = record { rd = 5; rs1 = 0; rs2 = 0; imm = 77 } }

abbrev pub store_instruction : Instruction
store_instruction = record { op = Op.sw; args = record { rd = 0; rs1 = 5; rs2 = 0; imm = 300 } }

abbrev pub halt_instruction : Instruction
halt_instruction = record { op = Op.ecall; args = default_args }

abbrev pub toy_program : Program
toy_program = record {
  entry_point = 0;
  ro_memory = (100, 7) ∷ (101, 8) ∷ [];
  rw_memory = (101, 1) ∷ (102, 2) ∷ [];
  ro_code =
      (0, instruction add_instruction)
      ∷ (4, instruction store_instruction)
      ∷ (8, instruction halt_instruction)
      ∷ [];
}

pub toy_program-IsProgram : IsProgram toy_program
unfolding get contains keys
toy_program-IsProgram = record {
  entry_point = omega arith;
  ro_unique = (refl, (refl, tt));
  ro_bytes = λ a v e. ground arith;
  rw_bytes = λ a v e. ground arith;
}

pub toy_program-IsCode : IsCode toy_program
unfolding get
toy_program-IsCode a i e = ground arith

abbrev pub toy_tapes : RawTapes
toy_tapes = record {
  private_tape = 1 ∷ 2 ∷ 3 ∷ [];
  public_tape = [];
  call_tape = [];
  event_tape = [];
  events_commitment_tape = [];
  cast_list_commitment_tape = [];
  self_prog_id_tape = [];
}

pub toy_tapes-AreRawTapes : AreRawTapes toy_tapes
toy_tapes-AreRawTapes = record {
  private_tape = omega arith;
  public_tape = tt;
  call_tape = tt;
  event_tape = tt;
  events_commitment_tape = tt;
  cast_list_commitment_tape = tt;
  self_prog_id_tape = tt;
}

abbrev pub toy_state : State
toy_state = new_state toy_program toy_tapes

pub toy_state-IsValid : IsValid toy_state
toy_state-IsValid =
    new_state-IsValid toy_program toy_tapes toy_program-IsProgram toy_tapes-AreRawTapes

abbrev pub toy_bit_range : BitRange
toy_bit_range word msb lsb = word / 2 ^ lsb % 2 ^ (msb - lsb + 1)

pub toy_bit_range-IsBitRange : IsBitRange toy_bit_range
toy_bit_range-IsBitRange word msb lsb h = refl

abbrev pub record_of : {F : Type 0} → Option (Outcome (ExecutionRecord F)) → ExecutionRecord F
record_of (some (ok r)) = r
record_of _ = record { executed = []; last_state = toy_state }

abbrev pub toy_record : ExecutionRecord ℕ
toy_record = record_of (step toy_build false toy_plonky toy_program 10 toy_state)

abbrev pub release_record : ExecutionRecord ℕ
release_record = record_of (step release_build false toy_plonky toy_program 10 toy_state)
