-- ===== src/Node/State/Takes.antt =====
-- node/src/block_proposer/state.rs: `apply_operation` comes to a new tree at every address whose leaf
-- takes the operation, and `AuxStateData::new` to the data that it needs.
use mozak_vm.Prelude.{
  ℕ, suc, ◌+◌, ◌-◌, ◌*◌, ◌%◌, ◌^◌, ◌≤◌, ◌<◌, Bool, true, Option, ◌≡◌, sym, subst, arith,
}
use mozak_vm.Node.Outcome.{ok, ◌>>=◌, Gives, gives, Gives-bind}
use mozak_vm.Node.Address.{Dir, left, right, Address, AddressPath, path, next}
use mozak_vm.Node.Address.Paths.{side, next_lem, next_step_lem}
use mozak_vm.Node.Address.Sides.{position, position_lem}
use mozak_vm.Node.Circuits.{Circuits}
use mozak_vm.Node.State.{Operation, SparseMerkleBranch, node, Child, branch, AuxStateData}
use mozak_vm.Node.State.Apply.{apply_operation_helper, apply_child, apply_operation}
use mozak_vm.Node.State.View.{choose}
use mozak_vm.Node.State.Reads.{rest_lt}
use mozak_vm.Node.State.Complete.{Complete, Equipped, ValidAt, Placed, no_child, leaf_at, branch_at}
use mozak_vm.Node.State.Legal.{legal_at, apply_kind-ValidAt}
use mozak_vm.Node.State.Runs.{at_end, rebuild-ValidAt, create_child-Placed}

module _ {c : Circuits} (k : Complete c) {depth : ℕ} {aux : AuxStateData c}
    (ready : Equipped k depth aux) (new : Operation c) (addr : Address) where
  -- what the child on a side comes to, if its leaf takes the operation
  Takes : ℕ → ℕ → Child c → ℕ → Option AddressPath → Type 0
  Takes bits q t a rest =
      addr ≡ q * 2 ^ bits + a
      → legal_at t a new ≡ true
      → Gives (λ x. Placed k bits q x.0) (apply_child aux t addr rest new)

  helper-Placed :
      (bits q : ℕ) (p : c.Proof) {l r : Child c} (a : ℕ) (rest : Option AddressPath) (d : Dir)
      → bits ≤ depth
      → Placed k bits (2 * q) l
      → Placed k bits (2 * q + 1) r
      → ValidAt k (suc bits) q p
      → addr ≡ position q d * 2 ^ bits + a
      → choose d (legal_at l a new) (legal_at r a new) ≡ true
      → Takes bits (2 * q) l a rest
      → Takes bits (2 * q + 1) r a rest
      → Gives
          (λ x. Placed k (suc bits) q (branch x.0))
          (apply_operation_helper aux (node bits p l r) addr rest d new)
  unfolding apply_operation_helper position choose Takes
  helper-Placed bits q p a rest left h hl hr v e fits tl tr =
      Gives-bind (tl e fits) λ (l', recalc) hl'. rebuild-ValidAt k ready bits q p recalc h hl' hr v
  helper-Placed bits q p a rest right h hl hr v e fits tl tr =
      Gives-bind (tr e fits) λ (r', recalc) hr'. rebuild-ValidAt k ready bits q p recalc h hl hr' v

  apply_child-branch :
      {P : Child c × Bool → Type 0} (b : SparseMerkleBranch c) (a bits : ℕ)
      {rest : Option AddressPath} {d : Dir}
      → next (record { height = bits; addr = a }) ≡ (rest, d)
      → Gives (λ x. P (branch x.0, x.1)) (apply_operation_helper aux b addr rest d new)
      → Gives P (apply_child aux (branch b) addr (path a (suc bits)) new)
  unfolding apply_operation_helper path
  apply_child-branch {P = P} b a bits e h =
      subst
        (λ x. Gives P (apply_operation_helper aux b addr x.0 x.1 new >>= λ x. ok (branch x.0, x.1)))
        (sym e) (Gives-bind h λ x p. gives p)

  module _ (bounded : addr < 2 ^ 64 - 2 ^ 32) where
    apply_child-Placed :
        (bits q a : ℕ) {t : Child c}
        → bits ≤ 64
        → bits ≤ suc depth
        → a < 2 ^ bits
        → Placed k bits q t
        → Takes bits q t a (path a bits)
    unfolding apply_operation_helper path legal_at Takes
    apply_child-Placed bits q a h h' below no_child e fits =
        create_child-Placed k ready new addr bounded bits q a h h' e below
    apply_child-Placed bits q a h h' below (leaf_at {l = l} v) e fits =
        let there = at_end k ready new addr bounded e below in
        Gives-bind (apply_kind-ValidAt k aux addr bounded l.proof l.kind new (rw there v) fits)
          λ x v'. gives (leaf_at (rw (sym there) v'))
    apply_child-Placed (suc bits) q a h h' below (branch_at {p = p} {l = l} {r = r} hl hr v) e
          fits =
        apply_child-branch (node bits p l r) a bits (next_lem a bits (omega arith) below) (
          helper-Placed bits q p (a % 2 ^ bits) (path (a % 2 ^ bits) bits) (side a bits)
            (omega arith) hl hr v (position_lem q bits a addr e below) fits
            (apply_child-Placed bits (2 * q) (a % 2 ^ bits) (omega arith) (omega arith)
              (rest_lt a bits) hl)
            (apply_child-Placed bits (2 * q + 1) (a % 2 ^ bits) (omega arith) (omega arith)
              (rest_lt a bits) hr))

    pub apply_operation-Placed :
        (debug : Bool) (bits : ℕ) {root : SparseMerkleBranch c}
        → bits < 64
        → bits ≤ depth
        → addr < 2 ^ suc bits
        → Placed k (suc bits) 0 (branch root)
        → legal_at (branch root) addr new ≡ true
        → Gives
            (λ root'. Placed k (suc bits) 0 (branch root'))
            (apply_operation aux debug root addr new)
    unfolding apply_operation legal_at Takes
    apply_operation-Placed debug bits h h' below (branch_at {p = p} {l = l} {r = r} hl hr v) fits =
        rw (next_step_lem debug addr bits h below) (
          Gives-bind
            (helper-Placed bits 0 p (addr % 2 ^ bits) (path (addr % 2 ^ bits) bits) (side addr bits)
              h' hl hr v (position_lem 0 bits addr addr (omega arith) below) fits
              (apply_child-Placed bits (2 * 0) _ (omega arith) (omega arith) (rest_lt addr bits) hl)
              (apply_child-Placed bits (2 * 0 + 1) _ (omega arith) (omega arith) (rest_lt addr bits)
                hr))
            λ x placed. gives placed)
