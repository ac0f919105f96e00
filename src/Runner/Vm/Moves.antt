-- ===== src/Runner/Vm/Moves.antt =====
-- runner/src/vm.rs: what an instruction does to a well-formed state.

use mozak_vm.Prelude.{
  ℕ, zero, suc, ◌+◌, ◌^◌, ◌≡◌, refl, ap, ◌∙◌, ◌%◌, Bool, some, take, not, ltb, leb, arith, bit_and,
  bit_or, bit_xor, Option, none,
}
use mozak_vm.Prelude.Bits.{bit_and-lt, bit_or-lt, bit_xor-lt}
use mozak_vm.Word.{IsU32, wrapping_add, wrapping_sub, wrapping_mul, to_le_bytes}
use mozak_vm.Word.Laws.{wrapping_add-IsU32, wrapping_sub-IsU32, wrapping_mul-IsU32}
use mozak_vm.Runner.Outcome.{
  err, Build, total, Ensures, returns, fails, Ensures-bind, cannot_find_instruction,
  unknown_instruction,
}
use mozak_vm.Runner.Alu
use mozak_vm.Runner.Alu.Bounds.{
  OnWords, if_IsU32, mulh-OnWords, mulhu-OnWords, mulhsu-OnWords, div-EnsuresWords,
  divu-EnsuresWords, rem-EnsuresWords, remu-EnsuresWords, total-EnsuresWords, sll-OnWords,
  srl-OnWords, sra-OnWords, slt-OnWords, lb-LoadsWords, lbu-LoadsWords, lh-LoadsWords,
  lhu-LoadsWords, lw-LoadsWords,
}
use mozak_vm.Runner.HashMap.{get}
use mozak_vm.Runner.Instruction.{Args, Op, Instruction, instruction, unknown, Decoded}
use mozak_vm.Runner.Program.{Program, get_instruction}
use mozak_vm.Runner.State.{State, current_instruction, set_pc}
use mozak_vm.Runner.State.Valid.{IsBytes, IsValid, Acts, Acts-trans, Evolves, Evolves-trans}
use mozak_vm.Runner.State.Moves.{
  get_register_value-IsU32, set_register_value-Acts, set_pc-Acts, bump_pc-Acts, bump_clock-Evolves,
  store_bytes-Acts, register_op-Acts, memory_load-Acts, branch_op-Acts,
}
use mozak_vm.Runner.Poseidon2.{Plonky}
use mozak_vm.Runner.Poseidon2.Moves.{WritesBytes}
use mozak_vm.Runner.Ecall.Moves.{ecall-Acts}
use mozak_vm.Runner.Vm.{
  clear_low_bit, sltu, jalr, store, store_mask, dispatch, run_decoded, execute_instruction,
  signed_lt, eqb,
}

sltu-OnWords : OnWords sltu
unfolding sltu
sltu-OnWords a b ha hb = if_IsU32 (ltb a b) 1 0 (omega arith) (omega arith)

clear_low_bit-IsU32 : (x : ℕ) → IsU32 x → IsU32 (clear_low_bit x)
unfolding clear_low_bit
clear_low_bit-IsU32 x h = bit_and-lt 32 x _ h (omega arith)

take-to_le_bytes : (n w : ℕ) → IsBytes (take n (to_le_bytes w))
unfolding to_le_bytes
take-to_le_bytes zero w = tt
take-to_le_bytes (suc zero) w = omega arith
take-to_le_bytes (suc (suc zero)) w = omega arith
take-to_le_bytes (suc (suc (suc zero))) w = omega arith
take-to_le_bytes (suc (suc (suc (suc zero)))) w = omega arith
take-to_le_bytes (suc (suc (suc (suc (suc n))))) w = omega arith

-- One instruction: a move of the state, and one more on the clock.
abbrev pub Ticks : State → State → Type 0
Ticks s s' = Evolves s s' × (s'.clk ≡ (s.clk + 1) % 2 ^ 64)

module _ {F : Type 0} (s : State) (v : IsValid s) (args : Args) where
  jalr-Acts : Ensures (λ r. Acts s r.1) (jalr {F = F} s args)
  unfolding jalr
  jalr-Acts = Ensures-bind (get_register_value-IsU32 s args.rs1 v) λ t ht.
      let pc = clear_low_bit (wrapping_add t args.imm) in
      let m = set_pc-Acts s v pc (clear_low_bit-IsU32 _ (wrapping_add-IsU32 t args.imm)) in
      Ensures-bind
        (set_register_value-Acts (set_pc s pc) m.valid args.rd (wrapping_add s.pc 4)
          (wrapping_add-IsU32 s.pc 4))
        λ s' m'. returns (Acts-trans m m')

  store-Acts : (bytes : ℕ) → Ensures (λ r. Acts s r.1) (store {F = F} s args bytes)
  unfolding store
  store-Acts bytes = Ensures-bind (get_register_value-IsU32 s args.rs1 v) λ value _.
      Ensures-bind (get_register_value-IsU32 s args.rs2 v) λ base _.
        Ensures-bind
          (store_bytes-Acts (wrapping_add base args.imm) 0 _ s v
            (take-to_le_bytes bytes (bit_and value (store_mask bytes))))
          λ s' m. returns (Acts-trans m (bump_pc-Acts s' m.valid))

module _ (build : Build) (debug_log : Bool) (plonky : Plonky) (laws : WritesBytes plonky) where
  pub dispatch-Acts :
      (op : Op) (s : State) (args : Args)
      → IsValid s
      → IsU32 args.imm
      → Ensures (λ r. Acts s r.1) (dispatch build debug_log plonky op s args)
  unfolding dispatch
  dispatch-Acts Op.add s args v h =
      register_op-Acts s v args (total wrapping_add)
        (total-EnsuresWords wrapping_add (λ a b _ _. wrapping_add-IsU32 a b))
  dispatch-Acts Op.sll s args v h =
      register_op-Acts s v args (total Alu.sll) (total-EnsuresWords Alu.sll sll-OnWords)
  dispatch-Acts Op.srl s args v h =
      register_op-Acts s v args (total Alu.srl) (total-EnsuresWords Alu.srl srl-OnWords)
  dispatch-Acts Op.sra s args v h =
      register_op-Acts s v args (total Alu.sra) (total-EnsuresWords Alu.sra sra-OnWords)
  dispatch-Acts Op.slt s args v h =
      register_op-Acts s v args (total Alu.slt) (total-EnsuresWords Alu.slt slt-OnWords)
  dispatch-Acts Op.sltu s args v h =
      register_op-Acts s v args (total sltu) (total-EnsuresWords sltu sltu-OnWords)
  dispatch-Acts Op.and s args v h =
      register_op-Acts s v args (total bit_and) (total-EnsuresWords bit_and (bit_and-lt 32))
  dispatch-Acts Op.or s args v h =
      register_op-Acts s v args (total bit_or) (total-EnsuresWords bit_or (bit_or-lt 32))
  dispatch-Acts Op.xor s args v h =
      register_op-Acts s v args (total bit_xor) (total-EnsuresWords bit_xor (bit_xor-lt 32))
  dispatch-Acts Op.sub s args v h =
      register_op-Acts s v args (total wrapping_sub)
        (total-EnsuresWords wrapping_sub (λ a b _ _. wrapping_sub-IsU32 a b))
  dispatch-Acts Op.lb s args v h = memory_load-Acts s v args 1 Alu.lb lb-LoadsWords
  dispatch-Acts Op.lbu s args v h = memory_load-Acts s v args 1 Alu.lbu lbu-LoadsWords
  dispatch-Acts Op.lh s args v h = memory_load-Acts s v args 2 Alu.lh lh-LoadsWords
  dispatch-Acts Op.lhu s args v h = memory_load-Acts s v args 2 Alu.lhu lhu-LoadsWords
  dispatch-Acts Op.lw s args v h = memory_load-Acts s v args 4 Alu.lw lw-LoadsWords
  dispatch-Acts Op.ecall s args v h = ecall-Acts build debug_log plonky laws s v
  dispatch-Acts Op.jalr s args v h = jalr-Acts s v args
  dispatch-Acts Op.beq s args v h = branch_op-Acts s v args eqb h
  dispatch-Acts Op.bne s args v h = branch_op-Acts s v args (λ a b. not (eqb a b)) h
  dispatch-Acts Op.blt s args v h = branch_op-Acts s v args signed_lt h
  dispatch-Acts Op.bltu s args v h = branch_op-Acts s v args ltb h
  dispatch-Acts Op.bge s args v h = branch_op-Acts s v args (λ a b. not (signed_lt a b)) h
  dispatch-Acts Op.bgeu s args v h = branch_op-Acts s v args (λ a b. leb b a) h
  dispatch-Acts Op.sw s args v h = store-Acts s v args 4
  dispatch-Acts Op.sh s args v h = store-Acts s v args 2
  dispatch-Acts Op.sb s args v h = store-Acts s v args 1
  dispatch-Acts Op.mul s args v h =
      register_op-Acts s v args (total wrapping_mul)
        (total-EnsuresWords wrapping_mul (λ a b _ _. wrapping_mul-IsU32 a b))
  dispatch-Acts Op.mulh s args v h =
      register_op-Acts s v args (total Alu.mulh) (total-EnsuresWords Alu.mulh mulh-OnWords)
  dispatch-Acts Op.mulhu s args v h =
      register_op-Acts s v args (total Alu.mulhu) (total-EnsuresWords Alu.mulhu mulhu-OnWords)
  dispatch-Acts Op.mulhsu s args v h =
      register_op-Acts s v args (total Alu.mulhsu) (total-EnsuresWords Alu.mulhsu mulhsu-OnWords)
  dispatch-Acts Op.div s args v h = register_op-Acts s v args Alu.div div-EnsuresWords
  dispatch-Acts Op.divu s args v h = register_op-Acts s v args Alu.divu divu-EnsuresWords
  dispatch-Acts Op.rem s args v h = register_op-Acts s v args Alu.rem rem-EnsuresWords
  dispatch-Acts Op.remu s args v h = register_op-Acts s v args Alu.remu remu-EnsuresWords

  pub run_decoded-Ticks :
      (s : State) (inst : Instruction)
      → IsValid s
      → IsU32 inst.args.imm
      → Ensures (λ r. Ticks s r.2) (run_decoded build debug_log plonky s inst)
  unfolding run_decoded
  run_decoded-Ticks s inst v h = Ensures-bind (get_register_value-IsU32 s inst.args.rs1 v) λ op1 _.
      Ensures-bind (get_register_value-IsU32 s inst.args.rs2 v) λ rs2 _.
        Ensures-bind (dispatch-Acts inst.op s inst.args v h) λ (aux, s') m.
          Ensures-bind (bump_clock-Evolves s' m.valid build) λ s'' (m', e).
            returns (Evolves-trans m.evolves m', e ∙ ap (λ c. (c + 1) % 2 ^ 64) m.clk)

-- The immediates of a program's instructions are words.
abbrev pub IsCode : Program → Type 0
IsCode p = (a : ℕ) (i : Instruction) → get p.ro_code a ≡ some (instruction i) → IsU32 i.args.imm

module _ (build : Build) (debug_log : Bool) (plonky : Plonky) (laws : WritesBytes plonky)
    (program : Program) (code : IsCode program) where
  -- From a well-formed state, over a program whose immediates are words and with digests
  -- written as bytes, an instruction that succeeds leads to a well-formed state with the same
  -- read-only memory, tapes that are read forwards only, and a clock that is one higher modulo
  -- 2^64.
  pub execute_instruction-Ticks :
      (s : State)
      → IsValid s
      → Ensures (λ r. Ticks s r.2) (execute_instruction build debug_log plonky s program)
  unfolding execute_instruction
  execute_instruction-Ticks s v = go (current_instruction s program) refl
    where
      go :
          (o : Option Decoded)
          → current_instruction s program ≡ o
          → Ensures
              (λ r. Ticks s r.2)
              (elim o [
                | none ↦ err cannot_find_instruction
                | some (instruction inst) ↦ run_decoded build debug_log plonky s inst
                | some (unknown e) ↦ err (unknown_instruction e.instruction e.pc)
              ])
      go none e = fails
      go (some (instruction inst)) e =
          run_decoded-Ticks build debug_log plonky laws s inst v
            (code s.pc inst (unfold current_instruction get_instruction in e))
      go (some (unknown d)) e = fails
