-- ===== src/Node/State/Finalize.antt =====
-- node/src/block_proposer/state.rs: the end of a block, and the reading of an object.
use mozak_vm.Prelude.{ℕ, Bool, Option, none, some}
use mozak_vm.Node.Outcome.{Outcome, ok, panic, ◌>>=◌, expect}
use mozak_vm.Node.Address.{
  Dir, left, right, Address, AddressPath, next, next_step, BranchAddress, Descent, inner, bottom,
  child, root,
}
use mozak_vm.Node.Circuits.{Circuits}
use mozak_vm.Node.State.{
  LeafKind, delete_empty_leaf, read_empty_leaf, being_created, unused, being_deleted, being_read,
  being_updated, SparseMerkleLeaf, SparseMerkleBranch, node, Child, absent, branch, leaf,
  FinalizeOutcome, prune, recalc, no_op, add, AuxStateData, branch_height,
}
use mozak_vm.Node.State.Apply.{recalc_branch_helper}

module _ {c : Circuits} (aux : AuxStateData c) where
  -- the leaf becomes unused: it keeps `object`, whose hash is `hash`
  unfoldable pub settled : c.Hash → c.Object → Outcome (SparseMerkleLeaf c × FinalizeOutcome c)
  settled hash object = do
    proof ← c.prove_leaf hash hash none
    ok (record { proof = proof; kind = unused object }, recalc)

  unfoldable pub finalize_kind :
      c.Proof → LeafKind c → Outcome (SparseMerkleLeaf c × FinalizeOutcome c)
  unfolding settled
  finalize_kind proof (unused object) = ok (record { proof = proof; kind = unused object }, no_op)
  finalize_kind proof delete_empty_leaf =
      ok (record { proof = proof; kind = delete_empty_leaf }, prune)
  finalize_kind proof read_empty_leaf = ok (record { proof = proof; kind = read_empty_leaf }, prune)
  finalize_kind proof (being_deleted object) =
      ok (record { proof = proof; kind = being_deleted object }, prune)
  finalize_kind proof (being_created new) = settled (c.fresh proof) new
  finalize_kind proof (being_updated before new) = settled (c.fresh proof) new
  finalize_kind proof (being_read object) = settled (c.old proof) object

  -- The address is not used.
  unfoldable pub finalize_leaf :
      SparseMerkleLeaf c → Address → Outcome (SparseMerkleLeaf c × FinalizeOutcome c)
  unfolding finalize_kind
  finalize_leaf self addr = finalize_kind self.proof self.kind

  -- A pruned child is dropped.
  abbrev pub kept_child : Child c → FinalizeOutcome c → Child c × FinalizeOutcome c
  kept_child child prune = (absent, prune)
  kept_child child recalc = (child, recalc)
  kept_child child no_op = (child, no_op)

  -- the branch with its new children, proved again if the outcome asks for it
  unfoldable pub recalculated :
      ℕ
      → c.Proof
      → Child c
      → Child c
      → FinalizeOutcome c
      → Outcome (SparseMerkleBranch c × FinalizeOutcome c)
  unfolding recalc_branch_helper
  recalculated h p l r recalc =
      recalc_branch_helper aux h l r >>= λ proof. ok (node h proof l r, recalc)
  recalculated h p l r prune = ok (node h p l r, prune)
  recalculated h p l r no_op = ok (node h p l r, no_op)

  unfoldable mutual
    unfolding child finalize_leaf add recalculated

    pub finalize_branch :
        SparseMerkleBranch c → BranchAddress → Outcome (SparseMerkleBranch c × FinalizeOutcome c)
    finalize_branch (node h p l r) addr = do
      (l, left_outcome) ← finalize_child l (child addr left)
      (r, right_outcome) ← finalize_child r (child addr right)
      recalculated h p l r (add c left_outcome right_outcome)

    -- the child after `take` and the assignment that follows, and its outcome
    pub finalize_child : Child c → Descent → Outcome (Child c × FinalizeOutcome c)
    finalize_child absent addr = ok (absent, prune)
    finalize_child (branch b) (inner addr) =
        finalize_branch b addr >>= λ (b, outcome). ok (kept_child (branch b) outcome)
    finalize_child (leaf l) (bottom addr) =
        finalize_leaf l addr >>= λ (l, outcome). ok (kept_child (leaf l) outcome)
    finalize_child (branch b) (bottom addr) = panic
    finalize_child (leaf l) (inner addr) = panic

  -- `State::finalize`
  unfoldable pub finalize : SparseMerkleBranch c → Outcome (SparseMerkleBranch c)
  unfolding root finalize_branch
  finalize self = do (self, outcome) ← finalize_branch self (root (branch_height self)); ok self

-- What `get_state` gives: the object before and after the block's operations.
abbrev pub Objects : Circuits → Type 0
Objects c = Option c.Object × Option c.Object

module _ {c : Circuits} where
  unfoldable pub kind_objects : LeafKind c → Objects c
  kind_objects delete_empty_leaf = (none, none)
  kind_objects read_empty_leaf = (none, none)
  kind_objects (being_created new) = (none, some new)
  kind_objects (unused object) = (some object, some object)
  kind_objects (being_read object) = (some object, some object)
  kind_objects (being_deleted object) = (some object, none)
  kind_objects (being_updated before new) = (some before, some new)

  unfoldable mutual
    unfolding next kind_objects

    pub get_state_helper : SparseMerkleBranch c → Option AddressPath → Dir → Outcome (Objects c)
    get_state_helper (node h p l r) path dir = elim dir [
      | left ↦ get_child l path
      | right ↦ get_child r path
    ]

    pub get_child : Child c → Option AddressPath → Outcome (Objects c)
    get_child absent path = ok (none, none)
    get_child (branch b) (some self) = let (path, dir) = next self in get_state_helper b path dir
    get_child (leaf l) none = ok (kind_objects l.kind)
    get_child (branch b) none = panic
    get_child (leaf l) (some self) = panic

  unfoldable pub get_state : Bool → SparseMerkleBranch c → Address → Outcome (Objects c)
  unfolding next_step get_state_helper
  get_state debug root addr = do
    (path, dir) ← expect (next_step debug addr (branch_height root))
    get_state_helper root path dir
