-- ===== src/Runner/Tests/Machine.antt =====
-- Runs of the main loop.
use mozak_vm.Prelude.{◌+◌, ◌≡◌, ◌≢◌, ◌<◌, ◌^◌, refl, true, false, some, none, length, arith, set}
use mozak_vm.Runner.Outcome.{add_checked, ok, Returns, Ensures}
use mozak_vm.Runner.Instruction.{IsValid, Op, default_args}
use mozak_vm.Runner.Instruction
use mozak_vm.Runner.HashMap.{get, contains, extend, insert, keys}
use mozak_vm.Word.{shr32, to_le_bytes, wrapping_add}
use mozak_vm.Runner.State.{
  new_state, new_memory, get_register_value, set_register_value, bump_clock, bump_pc, bump_pc_n,
  set_pc, halt, store_bytes, store_u8, addresses_from, register_op, current_instruction, load_u8,
}
use mozak_vm.Runner.Program.{get_instruction}
use mozak_vm.Runner.Vm.{
  execute_instruction, step, step_loop, run_decoded, recorded_op2, dispatch, store, store_mask,
}
use mozak_vm.Runner.Vm.Trace.{Trace, step-Trace, Trace-step, step-Evolves, AllEvolve}
use mozak_vm.Runner.Vm.Clock.{clk-step, step-ne-none}
use mozak_vm.Runner.Vm.Effects.{execute_instruction-Returns, CanRun}
use mozak_vm.Runner.State.Registers.{get-set_register_value}
use mozak_vm.Runner.Vm.Moves.{Ticks, execute_instruction-Ticks}
use mozak_vm.Runner.State.Valid.{Evolves, Acts}
use mozak_vm.Runner.State.Initial.{new_state_memory}
use mozak_vm.Runner.Ecall.{ecall, ecall_halt}
use mozak_vm.Runner.Ecall.Moves.{ecall-Acts}
use mozak_vm.Runner.Tests.World.{
  toy_build, release_build, toy_plonky, toy_plonky-WritesBytes, toy_program, toy_program-IsProgram,
  toy_program-IsCode, toy_tapes, toy_state, toy_state-IsValid, toy_record, add_instruction,
  release_record,
}

ran : step toy_build false toy_plonky toy_program 10 toy_state ≡ some (ok toy_record)
unfolding step step_loop execute_instruction current_instruction get_instruction get run_decoded
    recorded_op2 dispatch register_op store store_mask store_bytes store_u8 contains extend insert
    keys new_state new_memory get_register_value set_register_value bump_clock bump_pc bump_pc_n
    set_pc ecall ecall_halt halt addresses_from wrapping_add add_checked to_le_bytes
ran = refl

released : step release_build false toy_plonky toy_program 10 toy_state ≡ some (ok release_record)
unfolding step step_loop execute_instruction current_instruction get_instruction get run_decoded
    recorded_op2 dispatch register_op store store_mask store_bytes store_u8 contains extend insert
    keys new_state new_memory get_register_value set_register_value bump_clock bump_pc bump_pc_n
    set_pc ecall ecall_halt halt addresses_from wrapping_add add_checked to_le_bytes
released = refl

-- three rows, the value 77 stored, and the clock at 5
results :
    (length toy_record.executed ≡ 3)
    × (load_u8 toy_record.last_state 300 ≡ 77)
    × (load_u8 toy_record.last_state 101 ≡ 8)
    × (toy_record.last_state.clk ≡ 5)
    × (toy_record.last_state.pc ≡ 8)
unfolding step step_loop execute_instruction current_instruction get_instruction get run_decoded
    recorded_op2 dispatch register_op store store_mask store_bytes store_u8 contains extend insert
    keys new_state new_memory get_register_value set_register_value bump_clock bump_pc bump_pc_n
    set_pc ecall ecall_halt halt addresses_from wrapping_add add_checked to_le_bytes load_u8 shr32
results = (refl, refl, refl, refl, refl)

step-Evolves_example :
    AllEvolve toy_build false toy_plonky toy_program toy_plonky-WritesBytes toy_program-IsCode
      toy_state toy_record.executed
    × Evolves toy_state toy_record.last_state
step-Evolves_example =
    step-Evolves toy_build false toy_plonky toy_program toy_plonky-WritesBytes toy_program-IsCode 10
      toy_state toy_record toy_state-IsValid ran

step-Trace_example :
    Trace toy_build false toy_plonky toy_program toy_state toy_record.executed toy_record.last_state
    × (toy_record.last_state.halted ≡ true)
step-Trace_example = step-Trace toy_build false toy_plonky toy_program 10 toy_state toy_record ran

release-Trace :
    Trace release_build false toy_plonky toy_program toy_state release_record.executed
      release_record.last_state
    × (release_record.last_state.halted ≡ true)
release-Trace =
    step-Trace release_build false toy_plonky toy_program 10 toy_state release_record released

short : length release_record.executed < 4
unfolding step step_loop execute_instruction current_instruction get_instruction get run_decoded
    recorded_op2 dispatch register_op store store_mask store_bytes store_u8 contains extend insert
    keys new_state new_memory get_register_value set_register_value bump_clock bump_pc bump_pc_n
    set_pc ecall ecall_halt halt addresses_from wrapping_add add_checked to_le_bytes
short = omega arith

Trace-step_example :
    step release_build false toy_plonky toy_program 4 toy_state ≡ some (ok release_record)
Trace-step_example =
    Trace-step release_build false toy_plonky toy_program 4 release-Trace.0 release-Trace.1 refl
      short

step-ne-none_example : step toy_build false toy_plonky toy_program 99 toy_state ≢ none
step-ne-none_example =
    step-ne-none toy_build false toy_plonky toy_plonky-WritesBytes toy_program toy_program-IsCode 99
      toy_state toy_state-IsValid refl (omega arith) (unfold new_state in omega arith)
      (unfold new_state in omega arith)

fits : toy_state.clk + length toy_record.executed < 2 ^ 64
unfolding step step_loop execute_instruction current_instruction get_instruction get run_decoded
    recorded_op2 dispatch register_op store store_mask store_bytes store_u8 contains extend insert
    keys new_state new_memory get_register_value set_register_value bump_clock bump_pc bump_pc_n
    set_pc ecall ecall_halt halt addresses_from wrapping_add add_checked to_le_bytes
fits = omega arith

clk-step_example : toy_record.last_state.clk ≡ toy_state.clk + length toy_record.executed
clk-step_example =
    clk-step toy_build false toy_plonky toy_plonky-WritesBytes toy_program toy_program-IsCode 10
      toy_state toy_record toy_state-IsValid ran fits

args-IsValid : IsValid add_instruction.args
args-IsValid = record { rd = omega arith; rs1 = omega arith; rs2 = omega arith; imm = omega arith }

found : get toy_program.ro_code toy_state.pc ≡ some (Instruction.instruction add_instruction)
unfolding get new_state
found = refl

execute_instruction-Returns_example :
    Returns (execute_instruction toy_build false toy_plonky toy_state toy_program)
execute_instruction-Returns_example =
    execute_instruction-Returns toy_build false toy_plonky toy_program toy_state add_instruction
      toy_plonky-WritesBytes toy_state-IsValid args-IsValid found (unfold new_state in omega arith)
      (unfold CanRun in tt)

ecall-Acts_example : Ensures (λ r. Acts toy_state r.1) (ecall toy_build false toy_plonky toy_state)
ecall-Acts_example =
    ecall-Acts toy_build false toy_plonky toy_plonky-WritesBytes toy_state toy_state-IsValid

wrote :
    set_register_value toy_state 5 9
    ≡ ok (record toy_state { registers = set toy_state.registers 5 9 })
unfolding set_register_value new_state
wrote = refl

get-set_register_value_example :
    get_register_value (record toy_state { registers = set toy_state.registers 5 9 }) 5 ≡ ok 9
get-set_register_value_example =
    get-set_register_value toy_state (record toy_state { registers = set toy_state.registers 5 9 })
      5 9 5 wrote

new_state_memory_example :
    (get toy_state.memory.content 101 ≡ some 8)
    × (contains toy_state.memory.is_read_only 101 ≡ true)
unfolding get
new_state_memory_example = new_state_memory toy_program toy_tapes toy_program-IsProgram 101

execute_instruction-Ticks_example :
    Ensures
      (λ r. Ticks toy_state r.2)
      (execute_instruction toy_build false toy_plonky toy_state toy_program)
execute_instruction-Ticks_example =
    execute_instruction-Ticks toy_build false toy_plonky toy_plonky-WritesBytes toy_program
      toy_program-IsCode toy_state toy_state-IsValid
