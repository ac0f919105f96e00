-- ===== src/Node/State/Runs.antt =====
-- node/src/block_proposer/state.rs: an operation that its leaf takes comes to a new tree.

use mozak_vm.Prelude.{
  ℕ, zero, suc, ◌+◌, ◌-◌, ◌*◌, ◌^◌, ◌≤◌, ◌<◌, Bool, true, false, Option, none, some, get_elem?, ◌≡◌,
  refl, sym, subst, arith,
}
use mozak_vm.Node.Outcome.{Outcome, ok, ◌>>=◌, expect, Gives, gives, Gives-bind, Gives-found}
use mozak_vm.Node.Address.{Dir, left, right, Address, AddressPath, path, next}
use mozak_vm.Node.Address.Paths.{side, next_lem}
use mozak_vm.Node.Address.Sides.{position, position_lem}
use mozak_vm.Node.Circuits.{Circuits}
use mozak_vm.Node.State.{
  Operation, SparseMerkleBranch, Child, branch, AuxStateData, branch_height, branch_proof,
}
use mozak_vm.Node.State.Apply.{
  with_empty, only_child, create_next, create_child, create_branch_helper, create_leaf_helper,
  rebuild,
}
use mozak_vm.Node.State.Reads.{rest_lt}
use mozak_vm.Node.State.Complete.{
  circuit_at, Complete, Equipped, ValidAt, unchanged, Placed, no_child, leaf_at, branch_at,
  joined-ValidAt, recalc_branch_helper-ValidAt,
}
use mozak_vm.Node.State.Legal.{create_leaf_helper-ValidAt}

module _ {c : Circuits} (k : Complete c) where
  placed_height :
      {bits q : ℕ} {b : SparseMerkleBranch c}
      → Placed k (suc bits) q (branch b)
      → branch_height b ≡ bits
  placed_height (branch_at _ _ _) = refl

  placed_proof :
      {bits q : ℕ} {b : SparseMerkleBranch c}
      → Placed k (suc bits) q (branch b)
      → ValidAt k (suc bits) q (branch_proof b)
  placed_proof (branch_at _ _ v) = v

module _ {c : Circuits} (k : Complete c) {depth : ℕ} {aux : AuxStateData c}
    (ready : Equipped k depth aux) where
  -- the two children, one of them new
  pub rebuild-ValidAt :
      (bits q : ℕ) (p : c.Proof) {l r : Child c} (recalc : Bool)
      → bits ≤ depth
      → Placed k bits (2 * q) l
      → Placed k bits (2 * q + 1) r
      → ValidAt k (suc bits) q p
      → Gives (λ x. Placed k (suc bits) q (branch x.0)) (rebuild aux bits p l r recalc)
  unfolding rebuild
  rebuild-ValidAt bits q p true h hl hr v =
      Gives-bind (recalc_branch_helper-ValidAt k ready bits q h hl hr)
        λ p' v'. gives (branch_at hl hr v')
  rebuild-ValidAt bits q p false h hl hr v = gives (branch_at hl hr v)

  only-Placed :
      (bits q : ℕ) (d : Dir) {t : Child c} {p e : c.Proof}
      → Placed k bits (position q d) t
      → ValidAt k bits (position q d) p
      → k.Valid bits none e
      → Gives
          (λ b. Placed k (suc bits) q (branch b))
          (c.prove_branch (circuit_at c bits) (with_empty d p e).0 (with_empty d p e).1 >>= λ proof.
            ok (only_child d bits proof t))
  unfolding position
  only-Placed bits q left h v w =
      Gives-bind (joined-ValidAt k bits q v (unchanged w)) λ p' v'. gives (branch_at h no_child v')
  only-Placed bits q right h v w =
      Gives-bind (joined-ValidAt k bits q (unchanged w) v) λ p' v'. gives (branch_at no_child h v')

module _ {c : Circuits} (k : Complete c) {depth : ℕ} {aux : AuxStateData c}
    (ready : Equipped k depth aux) (new : Operation c) (addr : Address)
    (bounded : addr < 2 ^ 64 - 2 ^ 32) where
  -- no bits are left at a leaf
  pub at_end : {q a : ℕ} → addr ≡ q * 2 ^ 0 + a → a < 2 ^ 0 → addr ≡ q
  at_end e h = omega arith

  create_leaf-Placed :
      (q : ℕ) → addr ≡ q → Gives (λ l. ValidAt k 0 q l.proof) (create_leaf_helper aux addr new)
  create_leaf-Placed q e = rw (sym e) (create_leaf_helper-ValidAt k aux addr bounded new)

  create_next-none :
      (deeper : AddressPath → Outcome (SparseMerkleBranch c)) (q a : ℕ)
      → addr ≡ q * 2 ^ 1 + a
      → a < 2 ^ 1
      → Gives (λ b. Placed k 1 q (branch b)) (create_next aux deeper addr new (none, side a 0))
  unfolding create_next
  create_next-none deeper q a e below =
      let there = at_end (position_lem q 0 a addr e below) (rest_lt a 0) in
      Gives-bind (create_leaf-Placed (position q (side a 0)) there) λ l v.
        Gives-bind
          (Gives-found {P = λ circuit. circuit ≡ circuit_at c 0} _ (ready.circuits 0 (omega arith))
            refl)
          λ circuit is. rw is (only-Placed k ready 0 q (side a 0) (leaf_at v) v ready.empty_leaf)

  create_next-some :
      (deeper : AddressPath → Outcome (SparseMerkleBranch c)) (bits q a : ℕ) (rest : AddressPath)
      → suc bits ≤ depth
      → Gives (λ b. Placed k (suc bits) (position q (side a (suc bits))) (branch b)) (deeper rest)
      → Gives
          (λ b. Placed k (suc (suc bits)) q (branch b))
          (create_next aux deeper addr new (some rest, side a (suc bits)))
  unfolding create_next
  create_next-some deeper bits q a rest h done =
      Gives-bind done λ b placed. above b placed (placed_height k placed)
    where
      above :
          (b : SparseMerkleBranch c)
          → Placed k (suc bits) (position q (side a (suc bits))) (branch b)
          → branch_height b ≡ bits
          → Gives
              (λ b. Placed k (suc (suc bits)) q (branch b))
              (expect (get_elem? aux.empty_branch_proofs (branch_height b)) >>= λ empty.
                expect (get_elem? aux.branch_circuits (suc (branch_height b))) >>= λ circuit.
                c.prove_branch circuit
                  (with_empty (side a (suc bits)) (branch_proof b) empty).0
                  (with_empty (side a (suc bits)) (branch_proof b) empty).1
                >>= λ proof.
                    ok (only_child (side a (suc bits)) (suc (branch_height b)) proof (branch b)))
      above b placed e =
          let (empty, found, v) = ready.empties bits (omega arith) in
          rw e (
            rw found (
              Gives-bind
                (Gives-found {P = λ circuit. circuit ≡ circuit_at c (suc bits)} _
                  (ready.circuits (suc bits) h) refl)
                λ circuit is. rw is (
                  only-Placed k ready (suc bits) q (side a (suc bits)) placed
                    (placed_proof k placed) v)))

  create_branch_helper-next :
      {P : SparseMerkleBranch c → Type 0} (bits : ℕ) (self : AddressPath)
      {x : Option AddressPath × Dir}
      → next self ≡ x
      → Gives P (create_next aux (λ rest. create_branch_helper aux bits addr rest new) addr new x)
      → Gives P (create_branch_helper aux (suc bits) addr self new)
  unfolding create_branch_helper
  create_branch_helper-next {P = P} bits self e h =
      subst
        (λ x.
          Gives P
            (create_next aux (λ rest. create_branch_helper aux bits addr rest new) addr new x))
        (sym e) h

  create_branch_helper-Placed :
      (bits q a : ℕ)
      → bits < 64
      → bits ≤ depth
      → addr ≡ q * 2 ^ suc bits + a
      → a < 2 ^ suc bits
      → Gives
          (λ b. Placed k (suc bits) q (branch b))
          (create_branch_helper aux (suc bits) addr (record { height = bits; addr = a }) new)
  unfolding path
  create_branch_helper-Placed zero q a h h' e below =
      create_branch_helper-next 0 _ (next_lem a 0 h below)
        (create_next-none (λ rest. create_branch_helper aux 0 addr rest new) q a e below)
  create_branch_helper-Placed (suc bits) q a h h' e below =
      create_branch_helper-next (suc bits) _ (next_lem a (suc bits) h below) (
        create_next-some (λ rest. create_branch_helper aux (suc bits) addr rest new) bits q a _ h'
          (create_branch_helper-Placed bits _ _ (omega arith) (omega arith)
            (position_lem q (suc bits) a addr e below) (rest_lt a (suc bits))))

  pub create_child-Placed :
      (bits q a : ℕ)
      → bits ≤ 64
      → bits ≤ suc depth
      → addr ≡ q * 2 ^ bits + a
      → a < 2 ^ bits
      → Gives (λ x. Placed k bits q x.0) (create_child aux addr (path a bits) new)
  unfolding create_child path
  create_child-Placed zero q a h h' e below =
      Gives-bind (create_leaf-Placed q (at_end e below)) λ l v. gives (leaf_at v)
  create_child-Placed (suc bits) q a h h' e below =
      Gives-bind (create_branch_helper-Placed bits q a (omega arith) (omega arith) e below)
        λ b v. gives v
