-- ===== src/Runner/State/Moves.antt =====
-- runner/src/state.rs: what the methods do to a well-formed state.
use mozak_vm.Prelude.{
  ℕ, zero, suc, ◌+◌, ◌%◌, ◌^◌, ◌≡◌, ◌≢◌, refl, sym, ap, ◌∙◌, Bool, true, false, none, some, Option,
  List, [], ◌∷◌, length, get_elem?, set, arith, inl, inr, Bool-cases, ◌==◌, ltb, ==_iff,
  if◌then◌else◌, length-set, get_elem?-set_ne,
}
use mathlib.Core.Bool.{false≢true}
use mozak_vm.Word.{IsU32, IsU8, wrapping_add}
use mozak_vm.Word.Laws.{wrapping_add-IsU32}
use mozak_vm.Runner.Outcome.{
  Outcome, Ensures, returns, fails, panics, add_checked-mod, Ensures-map, Ensures-bind,
  Ensures-unwrap, expect, Build, index_out_of_bounds,
}
use mozak_vm.Runner.HashMap.{HashMap, get, insert, contains, get-insert}
use mozak_vm.Runner.State.{
  State, StateMemory, get_register_value, set_register_value, set_pc, bump_pc, bump_clock, halt,
  load_u8, store_u8, store_bytes, register_op, memory_load, branch_op,
}
use mozak_vm.Runner.Alu.{Bytes4}
use mozak_vm.Runner.Alu.Bounds.{EnsuresWords, LoadsWords}
use mozak_vm.Runner.Instruction.{Args}
use mozak_vm.Runner.State.Valid.{
  IsBytes, IsRegisterFile, IsValid, Acts, Evolves, KeepsRom-refl, TapesAdvance-refl, Acts-refl,
  Acts-trans,
}

pub get_register_value-IsU32 :
    (s : State) (i : ℕ) → IsValid s → Ensures IsU32 (get_register_value s i)
unfolding get_register_value
get_register_value-IsU32 s i v = go (get_elem? s.registers i) refl
  where
    go : (o : Option ℕ) → get_elem? s.registers i ≡ o → Ensures IsU32 (expect index_out_of_bounds o)
    go none e = panics
    go (some x) e = returns (v.registers.words i x e)

-- A write to one register.
words_set :
    (xs : List ℕ) (i x : ℕ)
    → IsU32 x
    → ((j v : ℕ) → get_elem? xs j ≡ some v → IsU32 v)
    → (j v : ℕ) → get_elem? (set xs i x) j ≡ some v
    → IsU32 v
words_set [] i x hx h j v e = h j v e
words_set (y ∷ ys) zero x hx h zero v e = ground arith
words_set (y ∷ ys) zero x hx h (suc j) v e = h (suc j) v e
words_set (y ∷ ys) (suc i) x hx h zero v e = h zero v e
words_set (y ∷ ys) (suc i) x hx h (suc j) v e = words_set ys i x hx (λ k. h (suc k)) j v e

set-IsRegisterFile :
    (xs : List ℕ) (i x : ℕ) → i ≢ 0 → IsU32 x → IsRegisterFile xs → IsRegisterFile (set xs i x)
set-IsRegisterFile xs i x h hx v = record {
  count = length-set xs i x ∙ v.count;
  r0 = get_elem?-set_ne xs x h ∙ v.r0;
  words = words_set xs i x hx v.words;
}

insert-IsU8 :
    (m : HashMap ℕ) (a b : ℕ)
    → IsU8 b
    → ((j w : ℕ) → get m j ≡ some w → IsU8 w)
    → (j w : ℕ) → get (insert a b m) j ≡ some w
    → IsU8 w
insert-IsU8 m a b hb h j w p = ground (arith, get-insert a b m j, h j w)

-- A writable address is not a read-only one.
other_byte :
    (m : StateMemory) (a b j : ℕ)
    → contains m.is_read_only a ≡ false
    → contains m.is_read_only j ≡ true
    → get (insert a b m.content) j ≡ get m.content j
other_byte m a b j e p = elim (Bool-cases (a == j)) [
  | inl q ↦ absurd (false≢true (sym e ∙ ap (contains m.is_read_only) ((==_iff a j).0 q) ∙ p))
  | inr q ↦ rw (get-insert, q)
]

module _ (s : State) (v : IsValid s) where
  pub set_register_value-Acts : (i x : ℕ) → IsU32 x → Ensures (Acts s) (set_register_value s i x)
  unfolding set_register_value
  set_register_value-Acts i x hx = elim (Bool-cases (i == 0)) [
    | inl e ↦ rw e (returns (Acts-refl v))
    | inr e ↦ rw e (elim (Bool-cases (ltb i (length s.registers))) [
      | inl l ↦ rw l (
          returns (record {
            evolves = record {
              valid = record {
                registers = set-IsRegisterFile s.registers i x (ground arith) hx v.registers;
                pc = v.pc;
                memory = v.memory;
                tapes = v.tapes;
              };
              rom = KeepsRom-refl s.memory;
              tapes = TapesAdvance-refl s;
            };
            clk = refl;
          }))
      | inr g ↦ rw g panics
    ])
  ]

  pub set_pc-Acts : (x : ℕ) → IsU32 x → Acts s (set_pc s x)
  unfolding set_pc
  set_pc-Acts x hx = record {
    evolves = record {
      valid = record { registers = v.registers; pc = hx; memory = v.memory; tapes = v.tapes };
      rom = KeepsRom-refl s.memory;
      tapes = TapesAdvance-refl s;
    };
    clk = refl;
  }

  pub bump_pc-Acts : Acts s (bump_pc s)
  unfolding bump_pc
  bump_pc-Acts = set_pc-Acts (wrapping_add s.pc 4) (wrapping_add-IsU32 s.pc 4)

  pub halt-Acts : Acts s (halt s)
  unfolding halt
  halt-Acts = record {
    evolves = record {
      valid = record { registers = v.registers; pc = v.pc; memory = v.memory; tapes = v.tapes };
      rom = KeepsRom-refl s.memory;
      tapes = TapesAdvance-refl s;
    };
    clk = refl;
  }

  -- The clock's tick keeps all but the clock.
  pub bump_clock-Evolves :
      (build : Build)
      → Ensures (λ s'. Evolves s s' × (s'.clk ≡ (s.clk + 1) % 2 ^ 64)) (bump_clock build s)
  unfolding bump_clock
  bump_clock-Evolves build = Ensures-bind (add_checked-mod build 64 s.clk 1) λ c e. returns (
    record {
      valid = record { registers = v.registers; pc = v.pc; memory = v.memory; tapes = v.tapes };
      rom = KeepsRom-refl s.memory;
      tapes = TapesAdvance-refl s;
    },
    e,
  )

  pub store_u8-Acts : (a b : ℕ) → IsU8 b → Ensures (Acts s) (store_u8 s a b)
  unfolding store_u8
  store_u8-Acts a b hb = elim (Bool-cases (contains s.memory.is_read_only a)) [
    | inl e ↦ rw e fails
    | inr e ↦ rw e (
        returns (record {
          evolves = record {
            valid = record {
              registers = v.registers;
              pc = v.pc;
              memory = record {
                bytes = λ j w p. insert-IsU8 s.memory.content a b hb v.memory.bytes j w p;
              };
              tapes = v.tapes;
            };
            rom = record { read_only = refl; bytes = λ j p. other_byte s.memory a b j e p };
            tapes = TapesAdvance-refl s;
          };
          clk = refl;
        }))
  ]

-- Bytes written to consecutive addresses.
pub store_bytes-Acts :
    (addr i : ℕ) (bs : List ℕ) (s : State)
    → IsValid s
    → IsBytes bs
    → Ensures (Acts s) (store_bytes addr i bs s)
unfolding store_bytes
store_bytes-Acts addr i [] s v h = returns (Acts-refl v)
store_bytes-Acts addr i (b ∷ bs) s v (hb, h) =
    Ensures-bind (Ensures-unwrap (store_u8-Acts s v (wrapping_add addr i) b hb))
      λ s' m. Ensures-map (λ _. Acts-trans m) (store_bytes-Acts addr (i + 1) bs s' m.valid h)

pub load_u8-IsU8 : (s : State) (a : ℕ) → IsValid s → IsU8 (load_u8 s a)
unfolding load_u8
load_u8-IsU8 s a v = go (get s.memory.content a) refl
  where
    go : (o : Option ℕ) → get s.memory.content a ≡ o → IsU8 (elim o [ none ↦ 0 | some b ↦ b ])
    go none e = omega arith
    go (some b) e = v.memory.bytes a b e

module _ {F : Type 0} (s : State) (v : IsValid s) (args : Args) where
  pub register_op-Acts :
      (op : ℕ → ℕ → Outcome ℕ)
      → EnsuresWords op
      → Ensures (λ r. Acts s r.1) (register_op {F = F} s args op)
  unfolding register_op
  register_op-Acts op h = Ensures-bind (get_register_value-IsU32 s args.rs1 v) λ op1 h1.
      Ensures-bind (get_register_value-IsU32 s args.rs2 v) λ r2 h2.
        Ensures-bind (h _ _ h1 (wrapping_add-IsU32 r2 args.imm)) λ dst_val hd.
          Ensures-bind (set_register_value-Acts s v args.rd dst_val hd)
            λ s' m. returns (Acts-trans m (bump_pc-Acts s' m.valid))

  pub memory_load-Acts :
      (bytes : ℕ) (op : Bytes4 → ℕ × ℕ)
      → LoadsWords op
      → Ensures (λ r. Acts s r.1) (memory_load {F = F} s args bytes op)
  unfolding memory_load
  memory_load-Acts bytes op h = Ensures-bind (get_register_value-IsU32 s args.rs2 v) λ r2 h2.
      Ensures-bind
        (set_register_value-Acts s v args.rd _ (
          h _ (record {
            b0 = load_u8-IsU8 s _ v;
            b1 = load_u8-IsU8 s _ v;
            b2 = load_u8-IsU8 s _ v;
            b3 = load_u8-IsU8 s _ v;
          })))
        λ s' m. returns (Acts-trans m (bump_pc-Acts s' m.valid))

  pub branch_op-Acts :
      (op : ℕ → ℕ → Bool) → IsU32 args.imm → Ensures (λ r. Acts s r.1) (branch_op {F = F} s args op)
  unfolding branch_op
  branch_op-Acts op h = Ensures-bind (get_register_value-IsU32 s args.rs1 v) λ op1 h1.
      Ensures-bind (get_register_value-IsU32 s args.rs2 v) λ op2 h2. returns (if_Acts (op op1 op2))
    where
      if_Acts : (b : Bool) → Acts s (if b then set_pc s args.imm else bump_pc s)
      if_Acts true = set_pc-Acts s v args.imm h
      if_Acts false = bump_pc-Acts s v
