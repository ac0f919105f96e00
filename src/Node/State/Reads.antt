-- ===== src/Node/State/Reads.antt =====
-- node/src/block_proposer/state.rs: `get_state` reads the tree at the address.
use native.Mathlib.Nat.{one-le-pow}
use mozak_vm.Prelude.{ℕ, suc, ◌%◌, ◌^◌, ◌≤◌, ◌<◌, Bool, Option, ◌≡◌, ◌∙◌, ap, refl, arith}
use mozak_vm.Node.Outcome.{ok}
use mozak_vm.Node.Address.{Dir, left, right, AddressPath, path}
use mozak_vm.Node.Address.Paths.{side, next_lem, next_step_lem}
use mozak_vm.Node.Circuits.{Circuits}
use mozak_vm.Node.State.{SparseMerkleBranch, node, Child, branch}
use mozak_vm.Node.State.Finalize.{get_child, get_state_helper, get_state}
use mozak_vm.Node.State.View.{choose, view, Shaped, no_child, leaf_child, branch_child}

pub rest_lt : (a bits : ℕ) → a % 2 ^ bits < 2 ^ bits
rest_lt a bits = omega (arith, one-le-pow bits 2)

-- a choice between two equal parts
pub choose-congr {ℓ} :
    {A : Type ℓ} {x y x' y' : A} (dir : Dir) → x ≡ x' → y ≡ y' → choose dir x y ≡ choose dir x' y'
unfolding choose
choose-congr left e e' = e
choose-congr right e e' = e'

pub choose-map {ℓ κ} :
    {A : Type ℓ} {B : Type κ} (f : A → B) (dir : Dir) (x y : A)
    → choose dir (f x) (f y) ≡ f (choose dir x y)
unfolding choose
choose-map f left x y = refl
choose-map f right x y = refl

module _ {c : Circuits} where
  helper_lem :
      (h : ℕ) (p : c.Proof) (l r : Child c) (path : Option AddressPath) (dir : Dir)
      → get_state_helper (node h p l r) path dir ≡ choose dir (get_child l path) (get_child r path)
  unfolding get_child choose
  helper_lem h p l r path left = refl
  helper_lem h p l r path right = refl

  child_lem :
      (h : ℕ) (p : c.Proof) (l r : Child c) (a bits : ℕ)
      → bits < 64
      → a < 2 ^ suc bits
      → get_child (branch (node h p l r)) (path a (suc bits))
        ≡ get_state_helper (node h p l r) (path (a % 2 ^ bits) bits) (side a bits)
  unfolding get_child path
  child_lem h p l r a bits k k' =
      ap (λ (t : Option AddressPath × Dir). get_state_helper (node h p l r) t.0 t.1)
        (next_lem a bits k k')

  sides_lem :
      {bits : ℕ} (p : c.Proof) (l r : Child c) (a : ℕ)
      → bits < 64
      → a < 2 ^ suc bits
      → get_child l (path (a % 2 ^ bits) bits) ≡ ok (view l (a % 2 ^ bits))
      → get_child r (path (a % 2 ^ bits) bits) ≡ ok (view r (a % 2 ^ bits))
      → get_state_helper (node bits p l r) (path (a % 2 ^ bits) bits) (side a bits)
        ≡ ok (view (branch (node bits p l r)) a)
  unfolding view
  sides_lem {bits = bits} p l r a k k' e e' =
      helper_lem bits p l r (path (a % 2 ^ bits) bits) (side a bits)
      ∙ choose-congr (side a bits) e e'
      ∙ choose-map ok (side a bits) _ _

module _ {c : Circuits} where
  -- The path of an address ends at its leaf, if there is one.
  pub get_child_lem :
      {bits : ℕ} {t : Child c} (a : ℕ)
      → bits ≤ 64
      → a < 2 ^ bits
      → Shaped bits t
      → get_child t (path a bits) ≡ ok (view t a)
  unfolding get_child view path
  get_child_lem a h h' no_child = refl
  get_child_lem a h h' (leaf_child) = refl
  get_child_lem a h h' (branch_child {bits = bits} {p = p} {l = tl} {r = tr} l r) =
      let low = rest_lt a bits in
      child_lem bits p tl tr a bits (omega arith) h'
      ∙ sides_lem p tl tr a (omega arith) h' (get_child_lem (a % 2 ^ bits) (omega arith) low l)
          (get_child_lem (a % 2 ^ bits) (omega arith) low r)

  pub get_state_lem :
      {bits : ℕ} {root : SparseMerkleBranch c} (debug : Bool) (a : ℕ)
      → bits < 64
      → a < 2 ^ suc bits
      → Shaped (suc bits) (branch root)
      → get_state debug root a ≡ ok (view (branch root) a)
  unfolding get_state
  get_state_lem debug a h h' (branch_child {bits = bits} {p = p} {l = tl} {r = tr} l r) =
      let low = rest_lt a bits in
      rw (next_step_lem debug a bits h h') (
        sides_lem p tl tr a h h' (get_child_lem (a % 2 ^ bits) (omega arith) low l)
          (get_child_lem (a % 2 ^ bits) (omega arith) low r))
