-- ===== src/Node/State/Applied.antt =====
-- node/src/block_proposer/state.rs: `apply_operation` on a whole tree, and the nodes that
-- `create_branch_helper` builds for an address with no node yet.

use mozak_vm.Prelude.{
  ℕ, zero, suc, ◌%◌, ◌^◌, ◌≤◌, ◌<◌, Bool, true, false, Option, none, some, ◌==◌, ◌≡◌, refl, ◌∙◌,
  sym, ap, subst, arith, if◌then◌else◌, get_elem?,
}
use mozak_vm.Node.Outcome.{
  Outcome, ok, ◌>>=◌, Ensures, returns, Ensures-bind, Ensures-map, Ensures-found,
}
use mozak_vm.Node.Address.{Dir, left, right, Address, AddressPath, path, next}
use mozak_vm.Node.Address.Paths.{side, next_lem}
use mozak_vm.Node.Address.Sides.{same_address}
use mozak_vm.Node.Circuits.{Circuits, Sound}
use mozak_vm.Node.State.{
  Operation, SparseMerkleLeaf, LeafKind, SparseMerkleBranch, node, Child, absent, branch, leaf,
  AuxStateData, branch_height,
}
use mozak_vm.Node.State.Apply.{
  with_empty, only_child, create_next, create_child, create_leaf_helper, create_branch_helper,
  apply_operation_helper, apply_child,
}
use mozak_vm.Node.State.Finalize.{Objects, kind_objects}
use mozak_vm.Node.State.View.{
  view, choose, child_hash, empty_root, Consistent, nothing, at_leaf, at_branch,
}
use mozak_vm.Node.State.Reads.{rest_lt}
use mozak_vm.Node.State.Proofs.{Ready, Exposes, joined}
use mozak_vm.Node.State.Leaf.{
  amended, Holds, holds, HoldsOrKept, moved, unmoved, create_leaf_helper-Holds, apply_kind-Holds,
}
use mozak_vm.Node.State.Amends.{Amends, on_left, on_right, helper-Amends}

pub choose_same : {A : Type 0} (d : Dir) (x : A) → choose d x x ≡ x
unfolding choose
choose_same left x = refl
choose_same right x = refl

-- There is one address of no bits.
only_address : (a b : ℕ) → a < 2 ^ 0 → b < 2 ^ 0 → (a == b) ≡ true
only_address zero zero h h' = refl
only_address (suc a) b h h' = absurd (omega arith)
only_address zero (suc b) h h' = absurd (omega arith)

module _ {c : Circuits} (s : Sound c) where
  height_lem :
      {bits : ℕ} {b : SparseMerkleBranch c}
      → Consistent s (suc bits) (branch b)
      → branch_height b ≡ bits
  height_lem (at_branch _ _ _ _) = refl

  module _ {new : Operation c} {a bits : ℕ} (below : a < 2 ^ suc bits) {t : Child c} {q e : c.Proof}
      (m : Amends s new (a % 2 ^ bits) bits absent t true)
      (shown : Exposes s (child_hash s c.old bits t) (child_hash s c.fresh bits t) q)
      (empty : Exposes s (empty_root s bits) (empty_root s bits) e) where
    -- A branch with one child, the new one.
    only-Amends :
        (k : c.BranchCircuit) (d : Dir)
        → side a bits ≡ d
        → Ensures
            (λ b. Amends s new a (suc bits) absent (branch b) true)
            (c.prove_branch k (with_empty d q e).0 (with_empty d q e).1 >>= λ proof.
              ok (only_child d bits proof t))
    unfolding child_hash view
    only-Amends k left at = Ensures-bind (joined s k q e shown empty) λ p (o, f). returns (record {
      consistent = at_branch m.consistent nothing o f;
      views = λ b h. rw (m.views (b % 2 ^ bits) (rest_lt b bits)) (
          rw (same_address a b bits below h) (
            rw at (
              on_left (amended new) (side b bits) (a % 2 ^ bits == b % 2 ^ bits) (none, none)
                (none, none)
              ∙ ap (amended_if _) (choose_same (side b bits) (none, none)))));
      old_kept = λ k. cc;
      new_kept = λ k. cc;
    })
      where
        amended_if : Bool → Objects c → Objects c
        amended_if d x = if d then amended new x else x
    only-Amends k right at = Ensures-bind (joined s k e q empty shown) λ p (o, f). returns (record {
      consistent = at_branch nothing m.consistent o f;
      views = λ b h. rw (m.views (b % 2 ^ bits) (rest_lt b bits)) (
          rw (same_address a b bits below h) (
            rw at (
              on_right (amended new) (side b bits) (a % 2 ^ bits == b % 2 ^ bits) (none, none)
                (none, none)
              ∙ ap (amended_if _) (choose_same (side b bits) (none, none)))));
      old_kept = λ k. cc;
      new_kept = λ k. cc;
    })
      where
        amended_if : Bool → Objects c → Objects c
        amended_if d x = if d then amended new x else x

module _ {c : Circuits} (s : Sound c) {aux : AuxStateData c} (ready : Ready s aux) where
  leaf-Amends :
      {new : Operation c} {a : ℕ} {t : Child c} {l : SparseMerkleLeaf c} (objects : Objects c)
      → a < 2 ^ 0
      → ((b : ℕ) → view t b ≡ objects)
      → Holds s (amended new objects) l
      → Amends s new a 0 t (leaf l) true
  unfolding view
  leaf-Amends {a = a} objects below was (holds shown hashes) = record {
    consistent = at_leaf (rw shown hashes);
    views = λ b h. rw (only_address a b below h) (rw (was b) shown);
    old_kept = λ e. cc;
    new_kept = λ e. cc;
  }

  create_leaf-Amends :
      {new : Operation c} {a : ℕ} (addr : Address)
      → a < 2 ^ 0
      → Ensures (λ l. Amends s new a 0 absent (leaf l) true) (create_leaf_helper aux addr new)
  unfolding view
  create_leaf-Amends {new = new} addr below =
      Ensures-map (λ l. leaf-Amends (none, none) below (λ b. refl))
        (create_leaf_helper-Holds s ready addr new)

  create_none-Amends :
      {new : Operation c}
      → (deeper : AddressPath → Outcome (SparseMerkleBranch c)) → (addr : Address) (a : ℕ)
      → a < 2 ^ 1
      → Ensures
          (λ b. Amends s new a 1 absent (branch b) true)
          (create_next aux deeper addr new (none, side a 0))
  unfolding create_next child_hash
  create_none-Amends deeper addr a below =
      Ensures-bind (create_leaf-Amends addr (rest_lt a 0)) λ l m.
        Ensures-bind (Ensures-found (get_elem? aux.branch_circuits 0))
          λ k _. only-Amends s below m (refl, refl) ready.empty_leaf k (side a 0) refl

  create_some-Amends :
      {new : Operation c}
      → (deeper : AddressPath → Outcome (SparseMerkleBranch c))
      → (addr : Address) (bits a : ℕ) (rest : AddressPath) → a < 2 ^ suc (suc bits)
      → Ensures
          (λ b. Amends s new (a % 2 ^ suc bits) (suc bits) absent (branch b) true)
          (deeper rest)
      → Ensures
          (λ b. Amends s new a (suc (suc bits)) absent (branch b) true)
          (create_next aux deeper addr new (some rest, side a (suc bits)))
  unfolding create_next child_hash
  create_some-Amends deeper addr bits a rest below done = Ensures-bind done λ b m.
      rw (height_lem s m.consistent) (
        Ensures-bind (Ensures-found (get_elem? aux.empty_branch_proofs bits)) λ e found.
          Ensures-bind (Ensures-found (get_elem? aux.branch_circuits (suc bits))) λ k _.
            only-Amends s below m (refl, refl) (ready.empty_branch bits e found) k
              (side a (suc bits)) refl)

  create_branch_helper-next :
      {P : SparseMerkleBranch c → Type 0} (bits : ℕ) (addr : Address) (self : AddressPath)
      (new : Operation c)
      → {x : Option AddressPath × Dir} → next self ≡ x
      → Ensures P (create_next aux (λ rest. create_branch_helper aux bits addr rest new) addr new x)
      → Ensures P (create_branch_helper aux (suc bits) addr self new)
  unfolding create_branch_helper
  create_branch_helper-next {P = P} bits addr self new e h =
      subst
        (λ x.
          Ensures P
            (create_next aux (λ rest. create_branch_helper aux bits addr rest new) addr new x))
        (sym e) h

  -- As many bits of fuel as the path has are enough.
  create_branch_helper-Amends :
      {new : Operation c} (addr : Address) (bits a : ℕ)
      → bits < 64
      → a < 2 ^ suc bits
      → Ensures
          (λ b. Amends s new a (suc bits) absent (branch b) true)
          (create_branch_helper aux (suc bits) addr (record { height = bits; addr = a }) new)
  unfolding path
  create_branch_helper-Amends {new = new} addr zero a h below =
      create_branch_helper-next 0 addr _ new (next_lem a 0 h below)
        (create_none-Amends (λ rest. create_branch_helper aux 0 addr rest new) addr a below)
  create_branch_helper-Amends {new = new} addr (suc bits) a h below =
      create_branch_helper-next (suc bits) addr _ new (next_lem a (suc bits) h below) (
        create_some-Amends (λ rest. create_branch_helper aux (suc bits) addr rest new) addr bits a _
          below (create_branch_helper-Amends addr bits _ (omega arith) (rest_lt a (suc bits))))

  create_child-Amends :
      {new : Operation c} (addr : Address) (bits a : ℕ)
      → bits ≤ 64
      → a < 2 ^ bits
      → Ensures (λ x. Amends s new a bits absent x.0 x.1) (create_child aux addr (path a bits) new)
  unfolding create_child path
  create_child-Amends addr zero a h below =
      Ensures-bind (create_leaf-Amends addr below) λ l m. returns m
  create_child-Amends addr (suc bits) a h below =
      Ensures-bind (create_branch_helper-Amends addr bits a (omega arith) below) λ b m. returns m

  kept_leaf-Amends :
      {new : Operation c} {a : ℕ} {p : c.Proof} {kind kind' : LeafKind c}
      → a < 2 ^ 0
      → Holds s (amended new (kind_objects kind)) (record { proof = p; kind = kind' })
      → Amends s new a 0
          (leaf (record { proof = p; kind = kind }))
          (leaf (record { proof = p; kind = kind' }))
          false
  unfolding view child_hash
  kept_leaf-Amends {a = a} below (holds shown hashes) = record {
    consistent = at_leaf (rw shown hashes);
    views = λ b h. rw (only_address a b below h) shown;
    old_kept = λ e. refl;
    new_kept = λ e. refl;
  }

  either-Amends :
      {new : Operation c} {a : ℕ} (p : c.Proof) (kind : LeafKind c) {x : SparseMerkleLeaf c × Bool}
      → a < 2 ^ 0
      → HoldsOrKept s (amended new (kind_objects kind)) p x
      → Amends s new a 0 (leaf (record { proof = p; kind = kind })) (leaf x.0) x.1
  unfolding view
  either-Amends p kind below (moved h) = leaf-Amends (kind_objects kind) below (λ b. refl) h
  either-Amends p kind below (unmoved h) = kept_leaf-Amends below h

  pub apply_child-branch :
      {P : Child c × Bool → Type 0} (b : SparseMerkleBranch c) (addr : Address) (a bits : ℕ)
      (new : Operation c)
      → {rest : Option AddressPath} {d : Dir}
      → next (record { height = bits; addr = a }) ≡ (rest, d)
      → Ensures (λ x. P (branch x.0, x.1)) (apply_operation_helper aux b addr rest d new)
      → Ensures P (apply_child aux (branch b) addr (path a (suc bits)) new)
  unfolding apply_operation_helper path
  apply_child-branch {P = P} b addr a bits new e h =
      subst
        (λ x.
          Ensures P (apply_operation_helper aux b addr x.0 x.1 new >>= λ x. ok (branch x.0, x.1)))
        (sym e) (Ensures-bind h λ x p. returns p)

  pub apply_child-Amends :
      {new : Operation c} (addr : Address) (bits a : ℕ) {t : Child c}
      → bits ≤ 64
      → a < 2 ^ bits
      → Consistent s bits t
      → Ensures (λ x. Amends s new a bits t x.0 x.1) (apply_child aux t addr (path a bits) new)
  unfolding apply_operation_helper path
  apply_child-Amends addr bits a h below nothing = create_child-Amends addr bits a h below
  apply_child-Amends {new = new} addr bits a h below (at_leaf {l = l} hashes) =
      Ensures-bind (apply_kind-Holds s ready l.proof l.kind addr new hashes)
        λ x k. returns (either-Amends l.proof l.kind below k)
  apply_child-Amends {new = new} addr (suc bits) a h below
        (at_branch {p = p} {l = l} {r = r} hl hr ho hf) =
      apply_child-branch (node bits p l r) addr a bits new (next_lem a bits (omega arith) below) (
        helper-Amends s ready below p hl hr ho hf addr (path (a % 2 ^ bits) bits) (side a bits) refl
          (apply_child-Amends addr bits _ (omega arith) (rest_lt a bits) hl)
          (apply_child-Amends addr bits _ (omega arith) (rest_lt a bits) hr))
