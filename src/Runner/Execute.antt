-- ===== src/Runner/Execute.antt =====
-- runner/src/code.rs: running a list of instructions.
use mozak_vm.Prelude.{ℕ, replicate, Bool, Option, none, some, List, [], ◌∷◌, ◌++◌}
use mozak_vm.Runner.Outcome.{
  Outcome, ok, err, panic, ◌>>=◌, ◌>>◌, Build, add_checked, assert, unwrap,
}
use mozak_vm.Runner.HashMap.{HashMap, extend}
use mozak_vm.Runner.Instruction.{Op, Instruction, Decoded, instruction}
use mozak_vm.Runner.Decode
use mozak_vm.Runner.Program.{Program}
use mozak_vm.Runner.State.{State, RawTapes, new_state, set_register_value}
use mozak_vm.Runner.Poseidon2.{Plonky}
use mozak_vm.Runner.Vm.{ExecutionRecord, step}

-- `Program::create`
unfoldable pub create : List (ℕ × ℕ) → List (ℕ × ℕ) → HashMap Decoded → Program
create ro_mem rw_mem ro_code = record {
  entry_point = 0;
  ro_memory = extend [] ro_mem;
  rw_memory = extend [] rw_mem;
  ro_code = ro_code;
}

-- The instruction that sets a0 to HALT.
abbrev pub set_halt : Instruction
set_halt = record { op = Op.add; args = record { rd = 10; rs1 = 0; rs2 = 0; imm = 0 } }

-- The instructions at every fourth address from `addr` on.
unfoldable pub place : Build → ℕ → List Instruction → Outcome (List (ℕ × Decoded))
place build addr [] = ok []
place build addr (i ∷ is) = do
  next ← add_checked build 32 addr 4
  rest ← place build next is
  ok ((addr, instruction i) ∷ rest)

unfoldable pub set_registers : State → List (ℕ × ℕ) → Outcome State
set_registers s [] = ok s
set_registers s ((rs, val) ∷ regs) = do s' ← set_register_value s rs val; set_registers s' regs

-- A run that ends, with fuel; `none` means that the fuel ran out.
module _ (build : Build) (debug_log : Bool) (plonky : Plonky) where
  open plonky use {F}

  abbrev finish :
      Program
      → Option (Outcome (ExecutionRecord F))
      → Option (Outcome (Program × ExecutionRecord F))
  finish program none = none
  finish program (some result) =
      some (do r ← unwrap result; assert r.last_state.halted; ok (program, r))

  abbrev run_from : ℕ → Program → Outcome State → Option (Outcome (Program × ExecutionRecord F))
  run_from fuel program (ok s) = finish program (step build debug_log plonky program fuel s)
  run_from fuel program (err e) = some (err e)
  run_from fuel program (panic x) = some (panic x)

  abbrev run_placed :
      ℕ
      → List (ℕ × ℕ)
      → List (ℕ × ℕ)
      → List (ℕ × ℕ)
      → RawTapes
      → Outcome (List (ℕ × Decoded))
      → Option (Outcome (Program × ExecutionRecord F))
  run_placed fuel ro_mem rw_mem regs raw_tapes (ok code) =
      let program = create ro_mem rw_mem (extend [] code) in
      run_from fuel program (set_registers (new_state program raw_tapes) regs)
  run_placed fuel ro_mem rw_mem regs raw_tapes (err e) = some (err e)
  run_placed fuel ro_mem rw_mem regs raw_tapes (panic x) = some (panic x)

  unfoldable pub execute_code_with_ro_memory :
      ℕ
      → List Instruction
      → List (ℕ × ℕ)
      → List (ℕ × ℕ)
      → List (ℕ × ℕ)
      → RawTapes
      → Option (Outcome (Program × ExecutionRecord F))
  execute_code_with_ro_memory fuel code ro_mem rw_mem regs raw_tapes =
      run_placed fuel ro_mem rw_mem regs raw_tapes
        (place build 0 (code ++ set_halt ∷ Decode.ecall ∷ []))

  -- `execute`, on no read-only memory and the default tapes
  unfoldable pub execute :
      ℕ
      → List Instruction
      → List (ℕ × ℕ)
      → List (ℕ × ℕ)
      → Option (Outcome (Program × ExecutionRecord F))
  execute fuel code rw_mem regs = execute_code_with_ro_memory fuel code [] rw_mem regs (record {
    private_tape = [];
    public_tape = [];
    call_tape = [];
    event_tape = [];
    events_commitment_tape = replicate 32 0;
    cast_list_commitment_tape = replicate 32 0;
    self_prog_id_tape = replicate 32 0;
  })
