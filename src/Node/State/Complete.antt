-- ===== src/Node/State/Complete.antt =====
-- node/src/block_proposer/state.rs: when the circuits can prove what the state tree asks of them.
use mozak_vm.Prelude.{
  ℕ, zero, suc, ◌+◌, ◌-◌, ◌*◌, ◌^◌, ◌≤◌, ◌<◌, Option, none, some, get_elem?, ◌≡◌, refl, arith,
}
use mozak_vm.Node.Outcome.{Gives, Gives-bind, Gives-map, Gives-found}
use mozak_vm.Node.Circuits.{Circuits}
use mozak_vm.Node.State.{SparseMerkleLeaf, node, Child, absent, branch, leaf, AuxStateData}
use mozak_vm.Node.State.Apply.{recalc_branch_helper, prove_children, empty_branch}

-- The address of a proof that has changes below it: two children agree on their parent's.
pub data Parent (q : ℕ) : Option ℕ → Option ℕ → Option ℕ → Type 0 where
  neither : Parent q none none none
  only_left : Parent q (some (2 * q)) none (some q)
  only_right : Parent q none (some (2 * q + 1)) (some q)
  both : Parent q (some (2 * q)) (some (2 * q + 1)) (some q)

-- the circuit above `bits` levels of branches
unfoldable pub circuit_at : (c : Circuits) → ℕ → c.BranchCircuit
circuit_at c zero = c.from_leaf
circuit_at c (suc bits) = c.from_branch (circuit_at c bits)

-- The circuits prove every change of a leaf at an address below the field's -1, no change without an
-- address, and every branch whose children are proofs of its level with addresses that agree.
-- `Valid bits address p` says that `p` is such a proof.
pub record Complete (c : Circuits) : Type 1 where
  pub Valid : ℕ → Option ℕ → c.Proof → Type 0
  pub changed :
      (before after : c.Hash) (addr : ℕ)
      → addr < 2 ^ 64 - 2 ^ 32
      → Gives (Valid 0 (some addr)) (c.prove_leaf before after (some addr))
  pub same : (hash : c.Hash) → Gives (Valid 0 none) (c.prove_leaf hash hash none)
  pub joined :
      (bits q : ℕ) (l r : c.Proof) (x y z : Option ℕ)
      → Parent q x y z
      → Valid bits x l
      → Valid bits y r
      → Gives (Valid (suc bits) z) (c.prove_branch (circuit_at c bits) l r)

module _ {c : Circuits} (k : Complete c) where
  -- The data of `AuxStateData::new` for trees up to `depth`.
  pub record Equipped (depth : ℕ) (aux : AuxStateData c) : Type 0 where
    pub supported : aux.max_tree_depth ≡ depth
    pub empty_leaf : k.Valid 0 none aux.empty_leaf_proof
    pub circuits :
        (bits : ℕ) → bits ≤ depth → get_elem? aux.branch_circuits bits ≡ some (circuit_at c bits)
    pub empties :
        (bits : ℕ)
        → bits ≤ depth
        → (e : c.Proof) × (get_elem? aux.empty_branch_proofs bits ≡ some e)
          × k.Valid (suc bits) none e

  -- a proof at `q`, with or without changes below
  pub data ValidAt (bits q : ℕ) (p : c.Proof) : Type 0 where
    unchanged : k.Valid bits none p → ValidAt bits q p
    with_changes : k.Valid bits (some q) p → ValidAt bits q p

  pub data Placed : ℕ → ℕ → Child c → Type 0 where
    no_child : {bits q : ℕ} → Placed bits q absent
    leaf_at : {q : ℕ} → {l : SparseMerkleLeaf c} → ValidAt 0 q l.proof → Placed 0 q (leaf l)
    branch_at :
        {bits q : ℕ}
        → {p : c.Proof} → {l r : Child c} → Placed bits (2 * q) l
        → Placed bits (2 * q + 1) r
        → ValidAt (suc bits) q p
        → Placed (suc bits) q (branch (node bits p l r))

  pub joined-ValidAt :
      (bits q : ℕ) {l r : c.Proof}
      → ValidAt bits (2 * q) l
      → ValidAt bits (2 * q + 1) r
      → Gives (ValidAt (suc bits) q) (c.prove_branch (circuit_at c bits) l r)
  joined-ValidAt bits q (unchanged h) (unchanged h') =
      Gives-map (λ p v. unchanged v) (k.joined bits q _ _ none none none neither h h')
  joined-ValidAt bits q (with_changes h) (unchanged h') =
      Gives-map (λ p v. with_changes v)
        (k.joined bits q _ _ (some (2 * q)) none (some q) only_left h h')
  joined-ValidAt bits q (unchanged h) (with_changes h') =
      Gives-map (λ p v. with_changes v)
        (k.joined bits q _ _ none (some (2 * q + 1)) (some q) only_right h h')
  joined-ValidAt bits q (with_changes h) (with_changes h') =
      Gives-map (λ p v. with_changes v)
        (k.joined bits q _ _ (some (2 * q)) (some (2 * q + 1)) (some q) both h h')

  module _ {depth : ℕ} {aux : AuxStateData c} (ready : Equipped depth aux) where
    prove_children-ValidAt :
        (bits q : ℕ) {l r : Child c}
        → bits ≤ depth
        → Placed bits (2 * q) l
        → Placed bits (2 * q + 1) r
        → Gives
            (ValidAt (suc bits) q)
            (prove_children aux (circuit_at c bits) (empty_branch aux bits) l r)
    unfolding prove_children empty_branch
    prove_children-ValidAt zero q h no_child no_child =
        joined-ValidAt 0 q (unchanged ready.empty_leaf) (unchanged ready.empty_leaf)
    prove_children-ValidAt (suc bits) q h no_child no_child =
        let (e, found, v) = ready.empties bits (omega arith) in
        rw found (joined-ValidAt (suc bits) q (unchanged v) (unchanged v))
    prove_children-ValidAt zero q h no_child (leaf_at v) =
        joined-ValidAt 0 q (unchanged ready.empty_leaf) v
    prove_children-ValidAt zero q h (leaf_at v) no_child =
        joined-ValidAt 0 q v (unchanged ready.empty_leaf)
    prove_children-ValidAt zero q h (leaf_at v) (leaf_at v') = joined-ValidAt 0 q v v'
    prove_children-ValidAt (suc bits) q h no_child (branch_at _ _ v) =
        let (e, found, w) = ready.empties bits (omega arith) in
        rw found (joined-ValidAt (suc bits) q (unchanged w) v)
    prove_children-ValidAt (suc bits) q h (branch_at _ _ v) no_child =
        let (e, found, w) = ready.empties bits (omega arith) in
        rw found (joined-ValidAt (suc bits) q v (unchanged w))
    prove_children-ValidAt (suc bits) q h (branch_at _ _ v) (branch_at _ _ v') =
        joined-ValidAt (suc bits) q v v'

    pub recalc_branch_helper-ValidAt :
        (bits q : ℕ) {l r : Child c}
        → bits ≤ depth
        → Placed bits (2 * q) l
        → Placed bits (2 * q + 1) r
        → Gives (ValidAt (suc bits) q) (recalc_branch_helper aux bits l r)
    unfolding recalc_branch_helper
    recalc_branch_helper-ValidAt bits q h hl hr =
        Gives-bind
          (Gives-found {P = λ circuit. circuit ≡ circuit_at c bits} _ (ready.circuits bits h) refl)
          λ circuit e. rw e (prove_children-ValidAt bits q h hl hr)
