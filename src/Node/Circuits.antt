-- ===== src/Node/Circuits.antt =====
-- The interface of recproofs/src/circuits/state_update.rs that the state tree uses: the circuits
-- that prove a change of a leaf and of a branch, and what their proofs expose.
use mozak_vm.Prelude.{ℕ, Bool, Option, ◌≡◌, true}
use mozak_vm.Node.Outcome.{Outcome, Ensures}

-- `prove` stands for the method and the `unwrap` or `expect` that follows each of its calls.
pub record Circuits : Type 1 where
  pub Object : Type 0
  pub Hash : Type 0
  pub Proof : Type 0
  pub BranchCircuit : Type 0
  pub default_object : Object
  pub hash : Object → Hash
  pub same_object : Object → Object → Bool
  pub prove_leaf : Hash → Hash → Option ℕ → Outcome Proof
  pub from_leaf : BranchCircuit
  pub from_branch : BranchCircuit → BranchCircuit
  pub prove_branch : BranchCircuit → Proof → Proof → Outcome Proof
  pub old : Proof → Hash
  pub fresh : Proof → Hash

-- What the circuits promise of a proof's public inputs: those of a leaf are the hashes that it was
-- given, and those of a branch the hashes of its children's.
pub record Sound (c : Circuits) : Type 0 where
  pub hash_branch : c.Hash → c.Hash → c.Hash
  pub leaf_inputs :
      (old_hash new_hash : c.Hash) (address : Option ℕ)
      → Ensures
          (λ p. (c.old p ≡ old_hash) × (c.fresh p ≡ new_hash))
          (c.prove_leaf old_hash new_hash address)
  pub branch_inputs :
      (k : c.BranchCircuit) (l r : c.Proof)
      → Ensures
          (λ p.
            (c.old p ≡ hash_branch (c.old l) (c.old r))
            × (c.fresh p ≡ hash_branch (c.fresh l) (c.fresh r)))
          (c.prove_branch k l r)
  pub same_sound : (x y : c.Object) → c.same_object x y ≡ true → x ≡ y
