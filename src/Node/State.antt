-- ===== src/Node/State.antt =====
-- node/src/block_proposer/state.rs: the sparse Merkle tree of the objects, with a proof at each node.
pub mod Apply
pub mod Finalize
pub mod View
pub mod Reads
pub mod Proofs
pub mod Leaf
pub mod Amends
pub mod Applied
pub mod Merkle
pub mod Settled
pub mod Renewed
pub mod Committed
pub mod Block
pub mod Complete
pub mod Legal
pub mod Runs
pub mod Takes
pub mod Begins
pub mod Writes
pub mod Promises
use mozak_vm.Prelude.{
  ℕ, zero, suc, Bool, true, false, Option, none, some, List, [], ◌∷◌, get_elem?, leb,
}
use mozak_vm.Node.Outcome.{Outcome, ok, ◌>>=◌, ◌>>◌, assert, expect}
use mozak_vm.Node.Circuits.{Circuits}

module _ (c : Circuits) where
  pub data Operation : Type 0 where
    upsert : c.Object → Operation
    read : Operation
    delete : Operation

  pub data LeafKind : Type 0 where
    delete_empty_leaf : LeafKind
    read_empty_leaf : LeafKind
    being_created : c.Object → LeafKind
    unused : c.Object → LeafKind
    being_deleted : c.Object → LeafKind
    being_read : c.Object → LeafKind
    being_updated : c.Object → c.Object → LeafKind

  pub record SparseMerkleLeaf : Type 0 where
    pub proof : c.Proof
    pub kind : LeafKind

  -- `Child` is `Option<Box<SparseMerkleNode>>`; a branch has its height, its proof and two children.
  mutual
    pub data SparseMerkleBranch : Type 0 where
      node : ℕ → c.Proof → Child → Child → SparseMerkleBranch

    pub data Child : Type 0 where
      absent : Child
      branch : SparseMerkleBranch → Child
      leaf : SparseMerkleLeaf → Child

  pub data FinalizeOutcome : Type 0 where
    prune : FinalizeOutcome
    recalc : FinalizeOutcome
    no_op : FinalizeOutcome

  unfoldable pub add : FinalizeOutcome → FinalizeOutcome → FinalizeOutcome
  add recalc o = recalc
  add prune o = o
  add no_op recalc = recalc
  add no_op o = no_op

  pub record AuxStateData : Type 0 where
    pub max_tree_depth : ℕ
    pub empty_leaf_hash : c.Hash
    pub branch_circuits : List c.BranchCircuit
    pub empty_leaf_proof : c.Proof
    pub empty_branch_proofs : List c.Proof

module _ {c : Circuits} where
  abbrev pub branch_proof : SparseMerkleBranch c → c.Proof
  branch_proof (node h p l r) = p

  abbrev pub branch_height : SparseMerkleBranch c → ℕ
  branch_height (node h p l r) = h

module _ (c : Circuits) where
  -- `branch_circuits` of `AuxStateData::new`, which leaves the next circuit in `init`
  unfoldable pub circuits_from : ℕ → c.BranchCircuit → List c.BranchCircuit
  circuits_from zero init = []
  circuits_from (suc n) init = init ∷ circuits_from n (c.from_branch init)

  -- the proofs after `proof`, one for each remaining circuit
  unfoldable pub empty_proofs : c.Proof → List c.BranchCircuit → Outcome (List c.Proof)
  empty_proofs proof [] = ok []
  empty_proofs proof (circuit ∷ circuits) = do
    above ← c.prove_branch circuit proof proof
    rest ← empty_proofs above circuits
    ok (above ∷ rest)

  unfoldable pub new_aux : ℕ → Outcome (AuxStateData c)
  unfolding circuits_from empty_proofs
  new_aux max_tree_depth = do
    let empty_leaf_hash = c.hash c.default_object
    let branch_circuits = circuits_from (suc max_tree_depth) c.from_leaf
    empty_leaf_proof ← c.prove_leaf empty_leaf_hash empty_leaf_hash none
    empty_branch_proofs ← empty_proofs empty_leaf_proof branch_circuits
    ok record {
      max_tree_depth = max_tree_depth;
      empty_leaf_hash = empty_leaf_hash;
      branch_circuits = branch_circuits;
      empty_leaf_proof = empty_leaf_proof;
      empty_branch_proofs = empty_branch_proofs;
    }

  -- `State::new`; the state keeps `aux` beside its root.
  unfoldable pub new_state : AuxStateData c → ℕ → Outcome (SparseMerkleBranch c)
  new_state aux tree_depth = do
    assert (leb tree_depth aux.max_tree_depth)
    proof ← expect (get_elem? aux.empty_branch_proofs tree_depth)
    ok (node tree_depth proof absent absent)
