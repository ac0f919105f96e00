-- ===== src/Runner/Vm/Effects.antt =====
-- runner/src/vm.rs: the instructions in a state that they succeed in.
use mozak_vm.Prelude.{
  subst, length-take, ℕ, ◌+◌, ◌^◌, ◌%◌, ◌≤◌, ◌<◌, ◌≡◌, ◌∙◌, refl, sym, Bool, true, false, ◌&&◌,
  some, take, arith, bit_and, leb, inl, inr, leb→le, if_false, Bool-cases,
}
use mozak_vm.Word.{wrapping_add, to_le_bytes}
use mozak_vm.Runner.Outcome.{Outcome, ok, Returns, Returns-bind, Build, add_checked, Ensures-ok}
use mozak_vm.Runner.Alu
use mozak_vm.Runner.Alu.{Bytes4}
use mozak_vm.Runner.Alu.Division.{div-Returns, divu-Returns, rem-Returns, remu-Returns}
use mozak_vm.Runner.Instruction
use mozak_vm.Runner.Instruction.{Args, Op, Instruction}
use mozak_vm.Runner.State.{
  State, get_register_value, set_pc, bump_clock, register_op, memory_load, branch_op,
}
use mozak_vm.Runner.State.Valid.{IsValid}
use mozak_vm.Runner.State.Memory.{Writable, store_bytes_writes}
use mozak_vm.Runner.Poseidon2.{Plonky}
use mozak_vm.Runner.Vm.{
  clear_low_bit, jalr, store, store_mask, dispatch, run_decoded, execute_instruction,
}
use mozak_vm.Runner.Program.{Program, get_instruction}
use mozak_vm.Runner.State.{current_instruction}
use mozak_vm.Runner.HashMap.{get}
use mozak_vm.Runner.Vm.Moves.{dispatch-Acts}
use mozak_vm.Runner.Poseidon2.Moves.{WritesBytes}
use mozak_vm.Runner.State.Registers.{register_read, register_write}

-- The bytes that a store instruction writes to are writable.
abbrev pub CanStore : State → Args → ℕ → Type 0
CanStore s args n =
    (base : ℕ) × (get_register_value s args.rs2 ≡ ok base)
    × Writable s (wrapping_add base args.imm) 0 n

-- What an instruction needs of the state, apart from well-formedness: a store must not meet the
-- read-only memory. The environment calls are left out.
unfoldable pub CanRun : Op → State → Args → Type 0
CanRun Op.sb s args = CanStore s args 1
CanRun Op.sh s args = CanStore s args 2
CanRun Op.sw s args = CanStore s args 4
CanRun Op.ecall s args = ⊥
CanRun _ s args = Unit

module _ {F : Type 0} (s : State) (v : IsValid s) (args : Args) (r : Instruction.IsValid args) where
  register_op-Returns :
      (op : ℕ → ℕ → Outcome ℕ)
      → ((a b : ℕ) → Returns (op a b))
      → Returns (register_op {F = F} s args op)
  unfolding register_op
  register_op-Returns op h = Returns-bind _ _ (register_read s args.rs1 v r.rs1) λ a _.
      Returns-bind _ _ (register_read s args.rs2 v r.rs2) λ b _.
        Returns-bind _ _ (h a (wrapping_add b args.imm)) λ dst_val _.
          Returns-bind _ _ (register_write s args.rd dst_val v.registers.count r.rd)
            λ s' _. (_, refl)

  memory_load-Returns : (n : ℕ) (op : Bytes4 → ℕ × ℕ) → Returns (memory_load {F = F} s args n op)
  unfolding memory_load
  memory_load-Returns n op =
      Returns-bind _ _ (register_read s args.rs2 v r.rs2) λ b _.
        Returns-bind _ _ (register_write s args.rd _ v.registers.count r.rd) λ s' _. (_, refl)

  branch_op-Returns : (op : ℕ → ℕ → Bool) → Returns (branch_op {F = F} s args op)
  unfolding branch_op
  branch_op-Returns op =
      Returns-bind _ _ (register_read s args.rs1 v r.rs1)
        λ a _. Returns-bind _ _ (register_read s args.rs2 v r.rs2) λ b _. (_, refl)

  jalr-Returns : Returns (jalr {F = F} s args)
  unfolding jalr
  jalr-Returns = Returns-bind _ _ (register_read s args.rs1 v r.rs1) λ a _.
      Returns-bind _ _
        (register_write (set_pc s (clear_low_bit (wrapping_add a args.imm))) args.rd _
          (unfold set_pc in v.registers.count) r.rd)
        λ s' _. (_, refl)

  store-Returns : (n : ℕ) → n ≤ 4 → CanStore s args n → Returns (store {F = F} s args n)
  unfolding store
  store-Returns n le (base, e, w) = Returns-bind _ _ (register_read s args.rs1 v r.rs1) λ value _.
      Returns-bind _ _ (base, e)
        λ b e'.
          Returns-bind _ _
            (store_bytes_writes (wrapping_add b args.imm) 0
              (take n (to_le_bytes (bit_and value (store_mask n)))) s
              λ j lt.
                subst (λ a. Writable s (wrapping_add a args.imm) 0 n) (cc (sym e ∙ e')) w j
                  (omega (arith, length-take n (to_le_bytes (bit_and value (store_mask n))))))
            λ s' _. (_, refl)

over : (t : State) → t.clk + 1 < 2 ^ 64 → leb (2 ^ 64) (t.clk + 1) ≡ true → ⊥
over t h q = omega (arith, leb→le _ _ q)

and_right : (a b : Bool) → (a && b) ≡ true → b ≡ true
and_right true b h = h
and_right false b h = cc

module _ (build : Build) (debug_log : Bool) (plonky : Plonky) (s : State) (v : IsValid s)
    (args : Args) (r : Instruction.IsValid args) where
  dispatch-Returns :
      (op : Op) → CanRun op s args → Returns (dispatch build debug_log plonky op s args)
  unfolding dispatch CanRun
  dispatch-Returns Op.add c = register_op-Returns s v args r _ (λ a b. (_, refl))
  dispatch-Returns Op.sub c = register_op-Returns s v args r _ (λ a b. (_, refl))
  dispatch-Returns Op.xor c = register_op-Returns s v args r _ (λ a b. (_, refl))
  dispatch-Returns Op.or c = register_op-Returns s v args r _ (λ a b. (_, refl))
  dispatch-Returns Op.and c = register_op-Returns s v args r _ (λ a b. (_, refl))
  dispatch-Returns Op.sll c = register_op-Returns s v args r _ (λ a b. (_, refl))
  dispatch-Returns Op.srl c = register_op-Returns s v args r _ (λ a b. (_, refl))
  dispatch-Returns Op.sra c = register_op-Returns s v args r _ (λ a b. (_, refl))
  dispatch-Returns Op.slt c = register_op-Returns s v args r _ (λ a b. (_, refl))
  dispatch-Returns Op.sltu c = register_op-Returns s v args r _ (λ a b. (_, refl))
  dispatch-Returns Op.mul c = register_op-Returns s v args r _ (λ a b. (_, refl))
  dispatch-Returns Op.mulh c = register_op-Returns s v args r _ (λ a b. (_, refl))
  dispatch-Returns Op.mulhu c = register_op-Returns s v args r _ (λ a b. (_, refl))
  dispatch-Returns Op.mulhsu c = register_op-Returns s v args r _ (λ a b. (_, refl))
  dispatch-Returns Op.div c = register_op-Returns s v args r Alu.div div-Returns
  dispatch-Returns Op.divu c = register_op-Returns s v args r Alu.divu divu-Returns
  dispatch-Returns Op.rem c = register_op-Returns s v args r Alu.rem rem-Returns
  dispatch-Returns Op.remu c = register_op-Returns s v args r Alu.remu remu-Returns
  dispatch-Returns Op.lb c = memory_load-Returns s v args r 1 _
  dispatch-Returns Op.lh c = memory_load-Returns s v args r 2 _
  dispatch-Returns Op.lw c = memory_load-Returns s v args r 4 _
  dispatch-Returns Op.lbu c = memory_load-Returns s v args r 1 _
  dispatch-Returns Op.lhu c = memory_load-Returns s v args r 2 _
  dispatch-Returns Op.beq c = branch_op-Returns s v args r _
  dispatch-Returns Op.bne c = branch_op-Returns s v args r _
  dispatch-Returns Op.blt c = branch_op-Returns s v args r _
  dispatch-Returns Op.bltu c = branch_op-Returns s v args r _
  dispatch-Returns Op.bge c = branch_op-Returns s v args r _
  dispatch-Returns Op.bgeu c = branch_op-Returns s v args r _
  dispatch-Returns Op.sb c = store-Returns s v args r 1 (omega arith) c
  dispatch-Returns Op.sh c = store-Returns s v args r 2 (omega arith) c
  dispatch-Returns Op.sw c = store-Returns s v args r 4 (omega arith) c
  dispatch-Returns Op.jalr c = jalr-Returns s v args r
  dispatch-Returns Op.ecall c = elim c [ ]

  bump-Returns : (t : State) → t.clk + 1 < 2 ^ 64 → Returns (bump_clock build t)
  unfolding bump_clock add_checked
  bump-Returns t h = elim (Bool-cases (build.overflow_checks && leb (2 ^ 64) (t.clk + 1))) [
    | inl q ↦ absurd (over t h (and_right build.overflow_checks _ q))
    | inr q ↦ (record t { clk = (t.clk + 1) % 2 ^ 64 }, rw (if_false _ _ _ q))
  ]

  run_decoded-Returns :
      WritesBytes plonky
      → (op : Op) → s.clk + 1 < 2 ^ 64
      → CanRun op s args
      → Returns (run_decoded build debug_log plonky s (record { op = op; args = args }))
  unfolding run_decoded
  run_decoded-Returns laws op fits c = Returns-bind _ _ (register_read s args.rs1 v r.rs1) λ op1 _.
      Returns-bind _ _ (register_read s args.rs2 v r.rs2) λ rs2 _.
        Returns-bind _ _ (dispatch-Returns op c) λ (aux, s') e.
          let clk =
            (Ensures-ok (dispatch-Acts build debug_log plonky laws op s args v r.imm) e).clk in
          Returns-bind _ _ (bump-Returns s' (omega arith)) λ s'' _. (_, refl)

-- An instruction that is found at pc and decoded, that is not an environment call, whose
-- registers are below 32 and whose immediate is a word, is executed without an error or a panic
-- in a well-formed state, a division by zero and that of -2^31 by -1 included, if the clock has
-- room for one more tick and a store meets no read-only address.
pub execute_instruction-Returns :
    (build : Build) (debug_log : Bool) (plonky : Plonky) (program : Program) (s : State)
    (inst : Instruction)
    → WritesBytes plonky
    → IsValid s
    → Instruction.IsValid inst.args
    → get program.ro_code s.pc ≡ some (Instruction.instruction inst)
    → s.clk + 1 < 2 ^ 64
    → CanRun inst.op s inst.args
    → Returns (execute_instruction build debug_log plonky s program)
unfolding execute_instruction current_instruction get_instruction
execute_instruction-Returns build debug_log plonky program s inst laws v r found fits c =
    rw (execute_instruction, current_instruction, get_instruction, found)
      (run_decoded-Returns build debug_log plonky s v inst.args r laws inst.op fits c)
