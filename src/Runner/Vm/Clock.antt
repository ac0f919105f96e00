-- ===== src/Runner/Vm/Clock.antt =====
-- runner/src/vm.rs: the clock in the main loop.

use mozak_vm.Prelude.{
  ℕ, zero, suc, ◌+◌, ◌^◌, ◌<◌, ◌≡◌, ◌≢◌, refl, sym, ◌∙◌, ◌&&◌, Bool, true, Option, none, some, List,
  [], length, arith, inl, inr, Bool-cases, if_true, if_false, ◌==◌,
}
use mozak_vm.Runner.Outcome.{Outcome, ok, err, panic, Build, Ensures-ok}
use mozak_vm.Runner.Instruction.{Instruction}
use mozak_vm.Runner.Program.{Program}
use mozak_vm.Runner.State.{State, Aux}
use mozak_vm.Runner.State.Valid.{IsValid}
use mozak_vm.Runner.Poseidon2.{Plonky}
use mozak_vm.Runner.Poseidon2.Moves.{WritesBytes}
use mozak_vm.Runner.Vm.{Row, ExecutionRecord, execute_instruction, advance, step_loop, step}
use mozak_vm.Runner.Vm.Moves.{IsCode, Ticks, execute_instruction-Ticks}
use mozak_vm.Runner.Vm.Trace.{Trace, here, next, step-Trace}

module _ (build : Build) (debug_log : Bool) (plonky : Plonky) (laws : WritesBytes plonky)
    (program : Program) (code : IsCode program) where
  open plonky use {F}

  ticks :
      (s t : State) (aux : Aux F) (inst : Instruction)
      → IsValid s
      → execute_instruction build debug_log plonky s program ≡ ok (aux, inst, t)
      → Ticks s t
  ticks s t aux inst v e =
      Ensures-ok (execute_instruction-Ticks build debug_log plonky laws program code s v) e

  clk-Trace :
      {s u : State} {rows : List (Row F)}
      → IsValid s
      → Trace build debug_log plonky program s rows u
      → s.clk + length rows < 2 ^ 64
      → u.clk ≡ s.clk + length rows
  clk-Trace v here h = omega arith
  clk-Trace {s} {u} v (next {t = t} {aux = aux} {inst = inst} {rows = rows} run e more) h =
      let (m, c) = ticks s t aux inst v e in
      let c' : t.clk ≡ s.clk + 1 = omega arith in
      omega (arith, clk-Trace {s = t} {u = u} {rows = rows} m.valid more (omega arith))

  -- From a well-formed state, over a program whose immediates are words and with digests
  -- written as bytes: if step returns a record, the last state's clock is the initial clock
  -- plus the number of rows, as long as that sum fits 64 bits.
  pub clk-step :
      (fuel : ℕ) (s : State) (r : ExecutionRecord F)
      → IsValid s
      → step build debug_log plonky program fuel s ≡ some (ok r)
      → s.clk + length r.executed < 2 ^ 64
      → r.last_state.clk ≡ s.clk + length r.executed
  clk-step fuel s r v h fits =
      clk-Trace v (step-Trace build debug_log plonky program fuel s r h).0 fits

  advance-ne-none :
      (again : List (Row F) → State → Option (Outcome (ExecutionRecord F)))
      (executed : List (Row F)) (s : State) (o : Outcome (Aux F × Instruction × State))
      → execute_instruction build debug_log plonky s program ≡ o
      → build.debug_assertions ≡ true
      → ((ex : List (Row F)) (aux : Aux F) (inst : Instruction) (t : State)
          → execute_instruction build debug_log plonky s program ≡ ok (aux, inst, t)
          → t.clk ≢ build.max_loops
          → again ex t ≢ none)
      → advance build debug_log plonky program again executed s o ≢ none
  advance-ne-none again executed s (err x) e d ih h = cc
  advance-ne-none again executed s (panic x) e d ih h = cc
  advance-ne-none again executed s (ok (aux, inst, t)) e d ih h =
      elim (Bool-cases (t.clk == build.max_loops)) [
        | inl q ↦
            cc (sym (if_true (build.debug_assertions && t.clk == build.max_loops) _ _ (rw d q)) ∙ h)
        | inr q ↦
            ih _ aux inst t e (ground arith)
              (sym (if_false (build.debug_assertions && t.clk == build.max_loops) _ _ (rw d q)) ∙ h)
      ]

  step_loop-ne-none :
      (fuel : ℕ) (executed : List (Row F)) (s : State)
      → IsValid s
      → build.debug_assertions ≡ true
      → build.max_loops < 2 ^ 64
      → s.clk < build.max_loops
      → build.max_loops < s.clk + fuel
      → step_loop build debug_log plonky program fuel executed s ≢ none
  unfolding step_loop
  step_loop-ne-none zero executed s v d w lt enough h = absurd (omega arith)
  step_loop-ne-none (suc fuel) executed s v d w lt enough h = elim (Bool-cases s.halted) [
    | inl q ↦ cc (sym (if_true s.halted _ _ q) ∙ h)
    | inr q ↦
        advance-ne-none (step_loop build debug_log plonky program fuel) executed s _ refl d
          (λ ex aux inst t e ne.
            let (m, c) = ticks s t aux inst v e in
            step_loop-ne-none fuel ex t m.valid d w (omega arith) (omega arith))
          (sym (if_false s.halted _ _ q) ∙ h)
  ]

  -- In a build with debug assertions and a 64-bit loop limit, over a program whose immediates
  -- are words and with digests written as bytes, step from a well-formed state whose clock is
  -- below the limit does not run out of fuel, if the limit is below the clock plus the fuel: it
  -- returns a record, an error or a panic.
  pub step-ne-none :
      (fuel : ℕ) (s : State)
      → IsValid s
      → build.debug_assertions ≡ true
      → build.max_loops < 2 ^ 64
      → s.clk < build.max_loops
      → build.max_loops < s.clk + fuel
      → step build debug_log plonky program fuel s ≢ none
  unfolding step
  step-ne-none fuel s v d w lt enough = step_loop-ne-none fuel [] s v d w lt enough
