-- ===== src/Node/State/View.antt =====
-- node/src/block_proposer/state.rs: the tree as a function of addresses, which is what `get_state`
-- reads, and the invariant that ties the proofs to it.

use mozak_vm.Prelude.{ℕ, zero, suc, ◌+◌, ◌%◌, ◌^◌, Option, none, some, ◌≡◌}
use mozak_vm.Node.Address.{Dir, left, right}
use mozak_vm.Node.Address.Paths.{side}
use mozak_vm.Node.Circuits.{Circuits, Sound}
use mozak_vm.Node.State.{SparseMerkleLeaf, node, Child, absent, branch, leaf, branch_proof}
use mozak_vm.Node.State.Finalize.{Objects, kind_objects}

-- the part on a side
unfoldable pub choose {ℓ} : {A : Type ℓ} → Dir → A → A → A
choose left x y = x
choose right x y = y

module _ {c : Circuits} where
  unfoldable pub view : Child c → ℕ → Objects c
  unfolding side kind_objects choose
  view absent a = (none, none)
  view (leaf l) a = kind_objects l.kind
  view (branch (node h p l r)) a = choose (side a h) (view l (a % 2 ^ h)) (view r (a % 2 ^ h))

-- The hash of an object that may be missing, and of a tree with no object.
module _ {c : Circuits} (s : Sound c) where
  unfoldable pub object_hash : Option c.Object → c.Hash
  object_hash none = c.hash c.default_object
  object_hash (some object) = c.hash object

  -- the Merkle root of the objects at `bits` bits, the reference that the proofs are held to
  unfoldable pub merkle_root : ℕ → (ℕ → Option c.Object) → c.Hash
  unfolding object_hash
  merkle_root zero objects = object_hash (objects 0)
  merkle_root (suc bits) objects =
      s.hash_branch (merkle_root bits objects) (merkle_root bits (λ a. objects (2 ^ bits + a)))

  unfoldable pub empty_root : ℕ → c.Hash
  empty_root zero = c.hash c.default_object
  empty_root (suc bits) = s.hash_branch (empty_root bits) (empty_root bits)

  unfoldable pub child_hash : (c.Proof → c.Hash) → ℕ → Child c → c.Hash
  unfolding empty_root
  child_hash pick bits absent = empty_root bits
  child_hash pick bits (leaf l) = pick l.proof
  child_hash pick bits (branch b) = pick (branch_proof b)

  abbrev pub Hashes : (c.Proof → c.Hash) → ℕ → c.Proof → Child c → Child c → Type 0
  Hashes pick bits p l r = pick p ≡ s.hash_branch (child_hash pick bits l) (child_hash pick bits r)

  abbrev pub LeafHashes : c.Proof → Objects c → Type 0
  LeafHashes p (before, after) = (c.old p ≡ object_hash before) × (c.fresh p ≡ object_hash after)

  -- A child above `bits` levels: heights go down by one, and each proof is that of its children.
  pub data Consistent : ℕ → Child c → Type 0 where
    nothing : {bits : ℕ} → Consistent bits absent
    at_leaf :
        {l : SparseMerkleLeaf c} → LeafHashes l.proof (kind_objects l.kind) → Consistent 0 (leaf l)
    at_branch :
        {bits : ℕ}
        → {p : c.Proof} → {l r : Child c} → Consistent bits l
        → Consistent bits r
        → Hashes c.old bits p l r
        → Hashes c.fresh bits p l r
        → Consistent (suc bits) (branch (node bits p l r))

-- The shape alone: what is left of the invariant where proofs may be stale.
module _ {c : Circuits} where
  pub data Shaped : ℕ → Child c → Type 0 where
    no_child : {bits : ℕ} → Shaped bits absent
    leaf_child : {l : SparseMerkleLeaf c} → Shaped 0 (leaf l)
    branch_child :
        {bits : ℕ}
        → {p : c.Proof} → {l r : Child c} → Shaped bits l
        → Shaped bits r
        → Shaped (suc bits) (branch (node bits p l r))

  pub Consistent-Shaped :
      (s : Sound c) {bits : ℕ} {t : Child c} → Consistent s bits t → Shaped bits t
  Consistent-Shaped s nothing = no_child
  Consistent-Shaped s (at_leaf _) = leaf_child
  Consistent-Shaped s (at_branch l r _ _) =
      branch_child (Consistent-Shaped s l) (Consistent-Shaped s r)
