-- ===== src/Runner/Vm/Trace.antt =====
-- runner/src/vm.rs: the rows that the main loop records.
use mozak_vm.Prelude.{
  ℕ, zero, suc, ◌<◌, ◌≡◌, refl, sym, ap, subst, ◌∙◌, ◌&&◌, Bool, true, false, Option, some, List,
  [], ◌∷◌, ◌++◌, append_assoc, append-nil, length, arith, inl, inr, Bool-cases, if_true, if_false,
  ◌==◌,
}
use mozak_vm.Runner.Outcome.{Outcome, ok, err, panic, Build, Ensures-ok}
use mozak_vm.Runner.Instruction.{Instruction}
use mozak_vm.Runner.Program.{Program}
use mozak_vm.Runner.State.{State, Aux}
use mozak_vm.Runner.State.Valid.{IsValid, Evolves, Evolves-refl, Evolves-trans}
use mozak_vm.Runner.Poseidon2.{Plonky}
use mozak_vm.Runner.Poseidon2.Moves.{WritesBytes}
use mozak_vm.Runner.Vm.{Row, ExecutionRecord, execute_instruction, advance, step_loop, step}
use mozak_vm.Runner.Vm.Moves.{IsCode, execute_instruction-Ticks}

module _ (build : Build) (debug_log : Bool) (plonky : Plonky) (program : Program) where
  open plonky use {F}

  -- From `s` the rows are executed one after the other, and lead to `u`; only the last state may
  -- be a halted one.
  pub data Trace : State → List (Row F) → State → Type 0 where
    here : {s : State} → Trace s [] s
    next :
        {s t u : State} {aux : Aux F} {inst : Instruction} {rows : List (Row F)}
        → s.halted ≡ false
        → execute_instruction build debug_log plonky s program ≡ ok (aux, inst, t)
        → Trace t rows u
        → Trace s (record { state = s; aux = aux; instruction = inst } ∷ rows) u

  -- What a run that started after `executed` may come to.
  pub record Ran (executed : List (Row F)) (s : State) (r : ExecutionRecord F) : Type 0 where
    pub rows : List (Row F)
    pub recorded : r.executed ≡ executed ++ rows
    pub trace : Trace s rows r.last_state
    pub halted : r.last_state.halted ≡ true

  abbrev record_or : ExecutionRecord F → Option (Outcome (ExecutionRecord F)) → ExecutionRecord F
  record_or d (some (ok r)) = r
  record_or d _ = d

  first_row :
      (executed : List (Row F)) (s t : State) (aux : Aux F) (inst : Instruction)
      (r : ExecutionRecord F)
      → s.halted ≡ false
      → execute_instruction build debug_log plonky s program ≡ ok (aux, inst, t)
      → Ran (executed ++ record { state = s; aux = aux; instruction = inst } ∷ []) t r
      → Ran executed s r
  first_row executed s t aux inst r run e ran = record {
    rows = record { state = s; aux = aux; instruction = inst } ∷ ran.rows;
    recorded = ran.recorded ∙ append_assoc executed _ ran.rows;
    trace = next run e ran.trace;
    halted = ran.halted;
  }

  advance-Ran :
      (again : List (Row F) → State → Option (Outcome (ExecutionRecord F)))
      (executed : List (Row F)) (s : State) (r : ExecutionRecord F)
      (o : Outcome (Aux F × Instruction × State))
      → ((ex : List (Row F)) (t : State) → again ex t ≡ some (ok r) → Ran ex t r)
      → s.halted ≡ false
      → execute_instruction build debug_log plonky s program ≡ o
      → advance build debug_log plonky program again executed s o ≡ some (ok r)
      → Ran executed s r
  advance-Ran again executed s r (err x) ih run e h = cc
  advance-Ran again executed s r (panic x) ih run e h = cc
  advance-Ran again executed s r (ok (aux, inst, t)) ih run e h =
      elim (Bool-cases (build.debug_assertions && t.clk == build.max_loops)) [
        | inl q ↦ cc (rw q at h)
        | inr q ↦ first_row executed s t aux inst r run e (ih _ t (rw q at h))
      ]

  step_loop-Ran :
      (fuel : ℕ) (executed : List (Row F)) (s : State) (r : ExecutionRecord F)
      → step_loop build debug_log plonky program fuel executed s ≡ some (ok r)
      → Ran executed s r
  unfolding step_loop
  step_loop-Ran zero executed s r h = cc
  step_loop-Ran (suc fuel) executed s r h = elim (Bool-cases s.halted) [
    | inl q ↦
        subst (Ran executed s) (ap (record_or r) (sym (if_true s.halted _ _ q) ∙ h))
          (record { rows = []; recorded = sym (append-nil executed); trace = here; halted = q })
    | inr q ↦
        advance-Ran (step_loop build debug_log plonky program fuel) executed s r _
          (λ ex t. step_loop-Ran fuel ex t r) q refl (sym (if_false s.halted _ _ q) ∙ h)
  ]

  -- If step returns a record, its rows are a chain of executed instructions from the initial
  -- state to the last state, each row holding the state before it, none of those states halted,
  -- and the last state is halted.
  pub step-Trace :
      (fuel : ℕ) (s : State) (r : ExecutionRecord F)
      → step build debug_log plonky program fuel s ≡ some (ok r)
      → Trace s r.executed r.last_state × (r.last_state.halted ≡ true)
  unfolding step
  step-Trace fuel s r h =
      let ran = step_loop-Ran fuel [] s r h in (rw (ran.recorded) ran.trace, ran.halted)

  -- The other direction, with fuel for one more round than there are rows.
  Trace-step_loop :
      {s u : State} {rows : List (Row F)} (fuel : ℕ) (executed : List (Row F))
      → Trace s rows u
      → u.halted ≡ true
      → build.debug_assertions ≡ false
      → length rows < fuel
      → step_loop build debug_log plonky program fuel executed s
        ≡ some (ok (record { executed = executed ++ rows; last_state = u }))
  unfolding step_loop
  Trace-step_loop zero executed here stop release lt = absurd (omega arith)
  Trace-step_loop {s} (suc fuel) executed here stop release lt =
      if_true s.halted _ _ stop
      ∙ ap (λ l. some (ok (record { executed = l; last_state = s }))) (sym (append-nil executed))
  Trace-step_loop zero executed (next run e more) stop release lt = absurd (omega arith)
  Trace-step_loop {s} {u} (suc fuel) executed
        (next {t = t} {aux = aux} {inst = inst} {rows = rows} run e more) stop release lt =
      if_false s.halted _ _ run
      ∙ ap (advance build debug_log plonky program again executed s) e
      ∙ if_false (build.debug_assertions && t.clk == build.max_loops) _ _
          (ap (λ d. d && t.clk == build.max_loops) release)
      ∙ Trace-step_loop {s = t} {u = u} {rows = rows} fuel _ more stop release (omega arith)
      ∙ ap (λ l. some (ok (record { executed = l; last_state = u }))) (append_assoc executed _ rows)
    where
      again : List (Row F) → State → Option (Outcome (ExecutionRecord F))
      again = step_loop build debug_log plonky program fuel

  -- In a build without debug assertions, a chain of executed instructions from a state to a
  -- halted state is what step returns, with any fuel above the number of rows.
  pub Trace-step :
      {s u : State} {rows : List (Row F)} (fuel : ℕ)
      → Trace s rows u
      → u.halted ≡ true
      → build.debug_assertions ≡ false
      → length rows < fuel
      → step build debug_log plonky program fuel s
        ≡ some (ok (record { executed = rows; last_state = u }))
  unfolding step
  Trace-step fuel tr stop release lt = Trace-step_loop fuel [] tr stop release lt

  module _ (laws : WritesBytes plonky) (code : IsCode program) where
    -- Every state of a trace from a well-formed state is well-formed and has the initial read-only
    -- memory and tapes.
    abbrev pub AllEvolve : State → List (Row F) → Type 0
    AllEvolve s [] = Unit
    AllEvolve s (row ∷ rows) = Evolves s row.state × AllEvolve s rows

    Trace-AllEvolve :
        {s t u : State} {rows : List (Row F)}
        → Evolves s t
        → Trace t rows u
        → AllEvolve s rows × Evolves s u
    Trace-AllEvolve m here = (tt, m)
    Trace-AllEvolve {s} {t} m (next run e more) =
        let m' =
          Ensures-ok (execute_instruction-Ticks build debug_log plonky laws program code t m.valid)
            e in
        let (all, last) = Trace-AllEvolve (Evolves-trans m m'.0) more in ((m, all), last)

    -- A run that returns a record, from a well-formed state over a program whose immediates are
    -- 32-bit words and with digests written as bytes: every recorded state and the last state
    -- are well-formed (32 registers of 32 bits, R0 zero, a 32-bit pc, bytes in memory and on
    -- the tapes, read positions on their tapes), the read-only addresses and their bytes are
    -- the initial ones, the tapes keep their contents and are read forwards only, and the three
    -- fixed tapes are unchanged.
    pub step-Evolves :
        (fuel : ℕ) (s : State) (r : ExecutionRecord F)
        → IsValid s
        → step build debug_log plonky program fuel s ≡ some (ok r)
        → AllEvolve s r.executed × Evolves s r.last_state
    step-Evolves fuel s r v h = Trace-AllEvolve (Evolves-refl v) (step-Trace fuel s r h).0
