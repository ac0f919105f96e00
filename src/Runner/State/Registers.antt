-- ===== src/Runner/State/Registers.antt =====
-- runner/src/state.rs: reading and writing a register.
use mozak_vm.Prelude.{
  ℕ, zero, suc, ◌<◌, ◌≡◌, ◌∙◌, refl, sym, ap, not, Bool, true, false, ◌&&◌, some, List, [], ◌∷◌,
  length, get_elem?, set, arith, ltb, inl, inr, ◌⊎◌, ltb→lt, if_true, if_false, Bool-cases, ◌==◌,
  ==_iff, if◌then◌else◌, get_elem?-set_self, get_elem?-set_ne, lt→ltb,
}
use mozak_vm.Runner.Outcome.{Outcome, ok, Returns, expect, index_out_of_bounds}
use mozak_vm.Runner.State.{State, get_register_value, set_register_value}
use mozak_vm.Runner.State.Valid.{IsValid}

elem_exists {ℓ} :
    {A : Type ℓ} (xs : List A) (i : ℕ) → i < length xs → (x : A) × (get_elem? xs i ≡ some x)
elem_exists [] i h = elim h [ ]
elem_exists (x ∷ xs) zero h = (x, refl)
elem_exists (x ∷ xs) (suc i) h = elem_exists xs i (omega arith)

-- The 32 registers can be read and written.
pub register_read : (s : State) (i : ℕ) → IsValid s → i < 32 → Returns (get_register_value s i)
unfolding get_register_value
register_read s i v h =
    let (x, e) = elem_exists s.registers i (omega (arith, v.registers.count)) in (x, rw e)

pub register_write :
    (s : State) (i x : ℕ) → length s.registers ≡ 32 → i < 32 → Returns (set_register_value s i x)
unfolding set_register_value
register_write s i x v h = elim (Bool-cases (i == 0)) [
  | inl e ↦ (s, rw e)
  | inr e ↦ (
    record s { registers = set s.registers i x },
    rw (e, lt→ltb i (length s.registers) (omega arith)),
  )
]

-- What a register write may come to.
written :
    (s s' : State) (i x : ℕ)
    → set_register_value s i x ≡ ok s'
    → ((i == 0) ≡ true) × (s ≡ s')
      ⊎ ((i == 0) ≡ false)
        × (i < length s.registers)
        × (record s { registers = set s.registers i x } ≡ s')
unfolding set_register_value
written s s' i x e = elim (Bool-cases (i == 0)) [
  | inl z ↦ inl (z, cc (sym (if_true (i == 0) _ _ z) ∙ e))
  | inr nz ↦ elim (Bool-cases (ltb i (length s.registers))) [
    | inl lt ↦ inr (nz, ltb→lt i _ lt, cc (rw (nz, lt) at e))
    | inr out ↦ absurd (cc (rw (nz, out) at e))
  ]
]

and_not : (a b : Bool) → b ≡ true → (a && not b) ≡ false
and_not true true h = refl
and_not true false h = sym h
and_not false b h = refl

-- After a successful register write, the written register reads as the value unless it is R0,
-- and every other register, and R0, as before.
pub get-set_register_value :
    (s s' : State) (i x j : ℕ)
    → set_register_value s i x ≡ ok s'
    → get_register_value s' j ≡ (if i == j && not (i == 0) then ok x else get_register_value s j)
unfolding get_register_value
get-set_register_value s s' i x j e = elim (written s s' i x e) [
  | inl (z, same) ↦
      sym (ap read same) ∙ sym (if_false (i == j && not (i == 0)) _ _ (and_not (i == j) _ z))
  | inr (nz, lt, new) ↦ elim (Bool-cases (i == j)) [
    | inl same ↦
        sym (ap read new)
        ∙ read_back j ((==_iff i j).0 same) lt
        ∙ sym (if_true (i == j && not (i == 0)) _ _ (rw (same, nz) refl))
    | inr other ↦
        sym (ap read new)
        ∙ ap (expect index_out_of_bounds)
            (get_elem?-set_ne s.registers x (λ h. cc (sym other ∙ (==_iff i j).1 h)))
        ∙ sym (if_false (i == j && not (i == 0)) _ _ (rw other refl))
  ]
]
  where
    read : State → Outcome ℕ
    read t = get_register_value t j

    read_back :
        (k : ℕ)
        → i ≡ k
        → i < length s.registers
        → expect index_out_of_bounds (get_elem? (set s.registers i x) k) ≡ ok x
    read_back k h lt =
        ap (expect index_out_of_bounds)
          (ap (get_elem? _) (sym h) ∙ get_elem?-set_self s.registers i x lt)
