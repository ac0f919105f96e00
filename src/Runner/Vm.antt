-- ===== src/Runner/Vm.antt =====
-- runner/src/vm.rs: the instructions and the main loop.
pub mod Moves
pub mod Trace
pub mod Clock
pub mod LoadStore
pub mod Effects
use mozak_vm.Prelude.{
  ℕ, zero, suc, ◌+◌, ◌-◌, ◌*◌, ◌/◌, ◌^◌, ◌&&◌, not, Bool, true, false, Option, none, some, List, [],
  ◌∷◌, ◌++◌, take, bit_and, bit_or, bit_xor, ltb, leb, ◌==◌, if◌then◌else◌,
}
use mozak_vm.Prelude.Int.{ltb_ℤ}
use mozak_vm.Word.{wrapping_add, wrapping_sub, wrapping_mul, to_i32, shl32, shr32, to_le_bytes}
use mozak_vm.Runner.Outcome.{
  Outcome, ok, err, panic, ◌>>=◌, ◌>>◌, Build, cannot_find_instruction, unknown_instruction,
  looped_too_long, total,
}
use mozak_vm.Runner.Alu
use mozak_vm.Runner.Instruction.{Args, Op, Instruction, Decoded, instruction, unknown}
use mozak_vm.Runner.Program.{Program}
use mozak_vm.Runner.State.{
  State, Aux, default_aux, get_register_value, set_register_value, set_pc, bump_pc, bump_clock,
  store_bytes, addresses_from, register_op, memory_load, branch_op, current_instruction,
}
use mozak_vm.Runner.Poseidon2.{Plonky}
use mozak_vm.Runner.Ecall.{ecall}

-- `x & !1`
unfoldable pub clear_low_bit : ℕ → ℕ
clear_low_bit x = bit_and x (2 ^ 32 - 1 - 1)

unfoldable pub sltu : ℕ → ℕ → ℕ
sltu a b = if ltb a b then 1 else 0

unfoldable pub signed_lt : ℕ → ℕ → Bool
signed_lt a b = ltb_ℤ (to_i32 a) (to_i32 b)

abbrev pub eqb : ℕ → ℕ → Bool
eqb a b = a == b

-- `u32::MAX >> (32 - 8 * bytes)`, for 1, 2 and 4 bytes
unfoldable pub store_mask : ℕ → ℕ
store_mask bytes = shr32 (2 ^ 32 - 1) (32 - 8 * bytes)

module _ {F : Type 0} where
  unfoldable pub jalr : State → Args → Outcome (Aux F × State)
  jalr s args = do
    target ← get_register_value s args.rs1
    let new_pc = clear_low_bit (wrapping_add target args.imm)
    let dst_val = wrapping_add s.pc 4
    s' ← set_register_value (set_pc s new_pc) args.rd dst_val
    ok (record default_aux { dst_val = dst_val }, s')

  unfoldable pub store : State → Args → ℕ → Outcome (Aux F × State)
  store s args bytes = do
    value ← get_register_value s args.rs1
    let raw_value = bit_and value (store_mask bytes)
    base ← get_register_value s args.rs2
    let addr = wrapping_add base args.imm
    s' ← store_bytes addr 0 (take bytes (to_le_bytes raw_value)) s
    ok (
      record default_aux {
        dst_val = raw_value;
        mem = some (record { addr = addr; raw_value = raw_value });
        mem_addresses_used = addresses_from addr 0 bytes;
      },
      bump_pc s',
    )

-- The second operand that the trace records.
unfoldable pub recorded_op2 : Op → ℕ → ℕ → ℕ
recorded_op2 Op.beq rs2_raw imm = rs2_raw
recorded_op2 Op.bne rs2_raw imm = rs2_raw
recorded_op2 Op.blt rs2_raw imm = rs2_raw
recorded_op2 Op.bltu rs2_raw imm = rs2_raw
recorded_op2 Op.bge rs2_raw imm = rs2_raw
recorded_op2 Op.bgeu rs2_raw imm = rs2_raw
recorded_op2 Op.srl rs2_raw imm = shl32 1 (bit_and (wrapping_add rs2_raw imm) 0b1_1111)
recorded_op2 Op.sll rs2_raw imm = shl32 1 (bit_and (wrapping_add rs2_raw imm) 0b1_1111)
recorded_op2 Op.sra rs2_raw imm = shl32 1 (bit_and (wrapping_add rs2_raw imm) 0b1_1111)
recorded_op2 _ rs2_raw imm = wrapping_add rs2_raw imm

module _ (build : Build) (debug_log : Bool) (plonky : Plonky) where
  open plonky use {F}

  -- the `match inst.op`
  unfoldable pub dispatch : Op → State → Args → Outcome (Aux F × State)
  dispatch Op.add s args = register_op s args (total wrapping_add)
  dispatch Op.sll s args = register_op s args (total Alu.sll)
  dispatch Op.srl s args = register_op s args (total Alu.srl)
  dispatch Op.sra s args = register_op s args (total Alu.sra)
  dispatch Op.slt s args = register_op s args (total Alu.slt)
  dispatch Op.sltu s args = register_op s args (total sltu)
  dispatch Op.and s args = register_op s args (total bit_and)
  dispatch Op.or s args = register_op s args (total bit_or)
  dispatch Op.xor s args = register_op s args (total bit_xor)
  dispatch Op.sub s args = register_op s args (total wrapping_sub)
  dispatch Op.lb s args = memory_load s args 1 Alu.lb
  dispatch Op.lbu s args = memory_load s args 1 Alu.lbu
  dispatch Op.lh s args = memory_load s args 2 Alu.lh
  dispatch Op.lhu s args = memory_load s args 2 Alu.lhu
  dispatch Op.lw s args = memory_load s args 4 Alu.lw
  dispatch Op.ecall s args = ecall build debug_log plonky s
  dispatch Op.jalr s args = jalr s args
  dispatch Op.beq s args = branch_op s args eqb
  dispatch Op.bne s args = branch_op s args (λ a b. not (eqb a b))
  dispatch Op.blt s args = branch_op s args signed_lt
  dispatch Op.bltu s args = branch_op s args ltb
  dispatch Op.bge s args = branch_op s args (λ a b. not (signed_lt a b))
  dispatch Op.bgeu s args = branch_op s args (λ a b. leb b a)
  dispatch Op.sw s args = store s args 4
  dispatch Op.sh s args = store s args 2
  dispatch Op.sb s args = store s args 1
  dispatch Op.mul s args = register_op s args (total wrapping_mul)
  dispatch Op.mulh s args = register_op s args (total Alu.mulh)
  dispatch Op.mulhu s args = register_op s args (total Alu.mulhu)
  dispatch Op.mulhsu s args = register_op s args (total Alu.mulhsu)
  dispatch Op.div s args = register_op s args Alu.div
  dispatch Op.divu s args = register_op s args Alu.divu
  dispatch Op.rem s args = register_op s args Alu.rem
  dispatch Op.remu s args = register_op s args Alu.remu

  -- One instruction that has been found and decoded.
  unfoldable pub run_decoded : State → Instruction → Outcome (Aux F × Instruction × State)
  unfolding recorded_op2
  run_decoded s inst = do
    op1 ← get_register_value s inst.args.rs1
    rs2_raw ← get_register_value s inst.args.rs2
    let op2 = recorded_op2 inst.op rs2_raw inst.args.imm
    (aux, s') ← dispatch inst.op s inst.args
    s'' ← bump_clock build s'
    ok (record aux { new_pc = s'.pc; op1 = op1; op2 = op2; op2_raw = rs2_raw }, inst, s'')

  unfoldable pub execute_instruction : State → Program → Outcome (Aux F × Instruction × State)
  execute_instruction s program = elim (current_instruction s program) [
    | none ↦ err cannot_find_instruction
    | some (instruction inst) ↦ run_decoded s inst
    | some (unknown e) ↦ err (unknown_instruction e.instruction e.pc)
  ]

pub record Row (F : Type 0) : Type 0 where
  pub state : State
  pub aux : Aux F
  pub instruction : Instruction

pub record ExecutionRecord (F : Type 0) : Type 0 where
  pub executed : List (Row F)
  pub last_state : State

module _ (build : Build) (debug_log : Bool) (plonky : Plonky) (program : Program) where
  open plonky use {F}

  -- What the body of the loop does with the instruction's result.
  abbrev pub advance :
      (List (Row F) → State → Option (Outcome (ExecutionRecord F)))
      → List (Row F)
      → State
      → Outcome (Aux F × Instruction × State)
      → Option (Outcome (ExecutionRecord F))
  advance again executed last_state (err e) = some (err e)
  advance again executed last_state (panic x) = some (panic x)
  advance again executed last_state (ok (aux, inst, new_state)) =
      let row : Row F = record { state = last_state; aux = aux; instruction = inst } in
      let rest = again (executed ++ row ∷ []) new_state in
      if build.debug_assertions && new_state.clk == build.max_loops
      then some (panic looped_too_long)
      else rest

  -- The `while` loop of `step`, with fuel; `none` means that the fuel ran out.
  unfoldable pub step_loop : ℕ → List (Row F) → State → Option (Outcome (ExecutionRecord F))
  step_loop zero executed last_state = none
  step_loop (suc fuel) executed last_state =
      if last_state.halted
      then some (ok (record { executed = executed; last_state = last_state }))
      else advance (step_loop fuel) executed last_state
          (execute_instruction build debug_log plonky last_state program)

  unfoldable pub step : ℕ → State → Option (Outcome (ExecutionRecord F))
  unfolding step_loop
  step fuel s = step_loop fuel [] s
