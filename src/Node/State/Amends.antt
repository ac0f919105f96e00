-- ===== src/Node/State/Amends.antt =====
-- node/src/block_proposer/state.rs: an operation changes the object at its address, and the proofs
-- above it follow.

use mozak_vm.Prelude.{
  ℕ, suc, ◌%◌, ◌^◌, ◌<◌, Bool, true, false, ◌&&◌, Option, ◌==◌, ◌≡◌, refl, ◌∙◌, sym, ap,
  if◌then◌else◌,
}
use mozak_vm.Node.Outcome.{Ensures, returns, Ensures-bind, Ensures-map}
use mozak_vm.Node.Address.{Dir, left, right, Address, AddressPath}
use mozak_vm.Node.Address.Paths.{side}
use mozak_vm.Node.Address.Sides.{same_side, same_address}
use mozak_vm.Node.Circuits.{Circuits, Sound}
use mozak_vm.Node.State.{Operation, SparseMerkleBranch, node, Child, branch, AuxStateData}
use mozak_vm.Node.State.Apply.{rebuild, apply_operation_helper, apply_child}
use mozak_vm.Node.State.Finalize.{Objects}
use mozak_vm.Node.State.View.{view, choose, child_hash, Hashes, Consistent, at_branch}
use mozak_vm.Node.State.Reads.{rest_lt}
use mozak_vm.Node.State.Proofs.{Ready, recalc_branch_helper-Joins}
use mozak_vm.Node.State.Leaf.{amended}

pub on_left :
    {A : Type 0} (f : A → A) (d : Dir) (e : Bool) (x y : A)
    → choose d (if e then f x else x) y
      ≡ (if same_side left d && e then f (choose d x y) else choose d x y)
unfolding choose same_side
on_left f left e x y = refl
on_left f right e x y = refl

pub on_right :
    {A : Type 0} (f : A → A) (d : Dir) (e : Bool) (x y : A)
    → choose d x (if e then f y else y)
      ≡ (if same_side right d && e then f (choose d x y) else choose d x y)
unfolding choose same_side
on_right f left e x y = refl
on_right f right e x y = refl

module _ {c : Circuits} (s : Sound c) where
  -- the objects at `b` after an operation at `a`
  abbrev pub amended_at : Operation c → ℕ → ℕ → Objects c → Objects c
  amended_at new a b objects = if a == b then amended new objects else objects

  -- The new child `t'` of a tree `t` of `bits` levels: it is consistent, its objects are those of `t`
  -- but for the operation, and its hashes are those of `t` if the branch above is not proved again.
  pub record Amends (new : Operation c) (a bits : ℕ) (t t' : Child c) (recalc : Bool) : Type 0 where
    pub consistent : Consistent s bits t'
    pub views : (b : ℕ) → b < 2 ^ bits → view t' b ≡ amended_at new a b (view t b)
    pub old_kept : recalc ≡ false → child_hash s c.old bits t' ≡ child_hash s c.old bits t
    pub new_kept : recalc ≡ false → child_hash s c.fresh bits t' ≡ child_hash s c.fresh bits t

  -- the branch that `rebuild` gives
  pub data Rebuilt (bits : ℕ) (p : c.Proof) (l r : Child c) (recalc : Bool)
      : SparseMerkleBranch c × Bool → Type 0 where
    rebuilt :
        {p' : c.Proof}
        → Hashes s c.old bits p' l r
        → Hashes s c.fresh bits p' l r
        → (recalc ≡ false → p' ≡ p)
        → Rebuilt bits p l r recalc (node bits p' l r, recalc)

module _ {c : Circuits} (s : Sound c) {aux : AuxStateData c} (ready : Ready s aux) where
  rebuild-Rebuilt :
      {bits : ℕ} {l r : Child c} (p : c.Proof) (recalc : Bool)
      → Consistent s bits l
      → Consistent s bits r
      → (recalc ≡ false → Hashes s c.old bits p l r)
      → (recalc ≡ false → Hashes s c.fresh bits p l r)
      → Ensures (Rebuilt s bits p l r recalc) (rebuild aux bits p l r recalc)
  unfolding rebuild
  rebuild-Rebuilt p true hl hr ho hf =
      Ensures-bind (recalc_branch_helper-Joins s ready hl hr)
        λ p' (o, f). returns (rebuilt o f λ e. cc)
  rebuild-Rebuilt p false hl hr ho hf = returns (rebuilt (ho refl) (hf refl) λ _. refl)

  module _ {new : Operation c} {a bits : ℕ} (below : a < 2 ^ suc bits) (p : c.Proof) {l r : Child c}
      (hl : Consistent s bits l) (hr : Consistent s bits r) (ho : Hashes s c.old bits p l r)
      (hf : Hashes s c.fresh bits p l r) where
    left_amended :
        {l' : Child c} {recalc : Bool} {x : SparseMerkleBranch c × Bool}
        → side a bits ≡ left
        → Amends s new (a % 2 ^ bits) bits l l' recalc
        → Rebuilt s bits p l' r recalc x
        → Amends s new a (suc bits) (branch (node bits p l r)) (branch x.0) x.1
    unfolding view child_hash
    left_amended {l' = l'} at m (rebuilt {p' = p'} o f kept) = record {
      consistent = at_branch m.consistent hr o f;
      views = λ b h. rw (m.views (b % 2 ^ bits) (rest_lt b bits)) (
          rw (same_address a b bits below h)
            (rw at (on_left (amended new) (side b bits) (a % 2 ^ bits == b % 2 ^ bits) _ _)));
      old_kept = λ e. ap c.old (kept e);
      new_kept = λ e. ap c.fresh (kept e);
    }

    right_amended :
        {r' : Child c} {recalc : Bool} {x : SparseMerkleBranch c × Bool}
        → side a bits ≡ right
        → Amends s new (a % 2 ^ bits) bits r r' recalc
        → Rebuilt s bits p l r' recalc x
        → Amends s new a (suc bits) (branch (node bits p l r)) (branch x.0) x.1
    unfolding view child_hash
    right_amended {r' = r'} at m (rebuilt {p' = p'} o f kept) = record {
      consistent = at_branch hl m.consistent o f;
      views = λ b h. rw (m.views (b % 2 ^ bits) (rest_lt b bits)) (
          rw (same_address a b bits below h)
            (rw at (on_right (amended new) (side b bits) (a % 2 ^ bits == b % 2 ^ bits) _ _)));
      old_kept = λ e. ap c.old (kept e);
      new_kept = λ e. ap c.fresh (kept e);
    }

    pub helper-Amends :
        (addr : Address) (rest : Option AddressPath) (d : Dir)
        → side a bits ≡ d
        → Ensures
            (λ x. Amends s new (a % 2 ^ bits) bits l x.0 x.1)
            (apply_child aux l addr rest new)
        → Ensures
            (λ x. Amends s new (a % 2 ^ bits) bits r x.0 x.1)
            (apply_child aux r addr rest new)
        → Ensures
            (λ x. Amends s new a (suc bits) (branch (node bits p l r)) (branch x.0) x.1)
            (apply_operation_helper aux (node bits p l r) addr rest d new)
    unfolding apply_operation_helper
    helper-Amends addr rest left at ml mr = Ensures-bind ml λ (l', k) m.
        Ensures-map (λ x. left_amended at m)
          (rebuild-Rebuilt p k m.consistent hr
            (λ e. ho ∙ ap (λ t. s.hash_branch t (child_hash s c.old bits r)) (sym (m.old_kept e)))
            (λ e.
              hf ∙ ap (λ t. s.hash_branch t (child_hash s c.fresh bits r)) (sym (m.new_kept e))))
    helper-Amends addr rest right at ml mr = Ensures-bind mr λ (r', k) m.
        Ensures-map (λ x. right_amended at m)
          (rebuild-Rebuilt p k hl m.consistent
            (λ e. ho ∙ ap (λ t. s.hash_branch (child_hash s c.old bits l) t) (sym (m.old_kept e)))
            (λ e.
              hf ∙ ap (λ t. s.hash_branch (child_hash s c.fresh bits l) t) (sym (m.new_kept e))))
