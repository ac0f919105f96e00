-- ===== src/Node/State/Apply.antt =====
-- node/src/block_proposer/state.rs: `apply_operation` and its helpers. A `&mut` argument is the value
-- after the call, which stands beside the call's result.
use mozak_vm.Prelude.{ℕ, zero, suc, Bool, true, false, Option, none, some, get_elem?}
use mozak_vm.Node.Outcome.{Outcome, ok, panic, ◌>>=◌, ◌>>◌, assert, expect}
use mozak_vm.Node.Address.{Dir, left, right, Address, AddressPath, next, next_step}
use mozak_vm.Node.Circuits.{Circuits}
use mozak_vm.Node.State.{
  Operation, upsert, read, delete, LeafKind, delete_empty_leaf, read_empty_leaf, being_created,
  unused, being_deleted, being_read, being_updated, SparseMerkleLeaf, SparseMerkleBranch, node,
  Child, absent, branch, leaf, AuxStateData, branch_proof, branch_height,
}

-- a child's proof on its side, and the empty one on the other
abbrev pub with_empty : {A : Type 0} → Dir → A → A → A × A
with_empty left proof empty = (proof, empty)
with_empty right proof empty = (empty, proof)

module _ {c : Circuits} where
  abbrev pub only_child : Dir → ℕ → c.Proof → Child c → SparseMerkleBranch c
  only_child left height proof only = node height proof only absent
  only_child right height proof only = node height proof absent only

module _ {c : Circuits} (aux : AuxStateData c) where
  -- a leaf of the kind, and its proof
  unfoldable pub proved : c.Hash → c.Hash → Address → LeafKind c → Outcome (SparseMerkleLeaf c)
  proved old_hash new_hash addr kind = do
    proof ← c.prove_leaf old_hash new_hash (some addr)
    ok record { proof = proof; kind = kind }

  unfoldable pub empty_leaf : Address → LeafKind c → Outcome (SparseMerkleLeaf c)
  unfolding proved
  empty_leaf addr kind = proved aux.empty_leaf_hash aux.empty_leaf_hash addr kind

  unfoldable pub being_created_leaf : Address → c.Object → Outcome (SparseMerkleLeaf c)
  unfolding proved
  being_created_leaf addr new_object =
      proved aux.empty_leaf_hash (c.hash new_object) addr (being_created new_object)

  unfoldable pub being_deleted_leaf : Address → c.Hash → c.Object → Outcome (SparseMerkleLeaf c)
  unfolding proved
  being_deleted_leaf addr old_hash object =
      proved old_hash aux.empty_leaf_hash addr (being_deleted object)

  unfoldable pub being_read_leaf : Address → c.Hash → c.Object → Outcome (SparseMerkleLeaf c)
  unfolding proved
  being_read_leaf addr old_hash object = proved old_hash old_hash addr (being_read object)

  unfoldable pub being_updated_leaf :
      Address → c.Hash → c.Object → c.Object → Outcome (SparseMerkleLeaf c)
  unfolding proved
  being_updated_leaf addr old_hash object new_object =
      proved old_hash (c.hash new_object) addr (being_updated object new_object)

  unfoldable pub create_leaf_helper : Address → Operation c → Outcome (SparseMerkleLeaf c)
  unfolding empty_leaf being_created_leaf
  create_leaf_helper addr delete = empty_leaf addr delete_empty_leaf
  create_leaf_helper addr read = empty_leaf addr read_empty_leaf
  create_leaf_helper addr (upsert object) = being_created_leaf addr object

  -- the leaf after a change, and whether the branches above are to be proved again
  abbrev changed : Outcome (SparseMerkleLeaf c) → Outcome (SparseMerkleLeaf c × Bool)
  changed m = m >>= λ l. ok (l, true)

  abbrev kept : c.Proof → LeafKind c → Outcome (SparseMerkleLeaf c × Bool)
  kept proof kind = ok (record { proof = proof; kind = kind }, false)

  unfoldable pub apply_kind :
      c.Proof → LeafKind c → Address → Operation c → Outcome (SparseMerkleLeaf c × Bool)
  unfolding being_read_leaf being_deleted_leaf being_created_leaf being_updated_leaf
  apply_kind proof (unused object) addr read = changed (being_read_leaf addr (c.old proof) object)
  apply_kind proof delete_empty_leaf addr read = kept proof delete_empty_leaf
  apply_kind proof read_empty_leaf addr read = kept proof read_empty_leaf
  apply_kind proof (being_created new) addr read = kept proof (being_created new)
  apply_kind proof (being_deleted object) addr read = kept proof (being_deleted object)
  apply_kind proof (being_read object) addr read = kept proof (being_read object)
  apply_kind proof (being_updated before new) addr read = kept proof (being_updated before new)
  apply_kind proof delete_empty_leaf addr delete = kept proof delete_empty_leaf
  apply_kind proof read_empty_leaf addr delete = kept proof read_empty_leaf
  apply_kind proof (being_deleted object) addr delete = kept proof (being_deleted object)
  apply_kind proof (unused object) addr delete =
      changed (being_deleted_leaf addr (c.old proof) object)
  apply_kind proof (being_read object) addr delete =
      changed (being_deleted_leaf addr (c.old proof) object)
  apply_kind proof (being_created new) addr delete = panic
  apply_kind proof (being_updated before new) addr delete = panic
  apply_kind proof read_empty_leaf addr (upsert object) = changed (being_created_leaf addr object)
  apply_kind proof (unused object) addr (upsert new) =
      changed (being_updated_leaf addr (c.old proof) object new)
  apply_kind proof (being_read object) addr (upsert new) =
      changed (being_updated_leaf addr (c.old proof) object new)
  apply_kind proof (being_created new) addr (upsert object) =
      assert (c.same_object object new) >> kept proof (being_created new)
  apply_kind proof (being_updated before new) addr (upsert object) =
      assert (c.same_object object new) >> kept proof (being_updated before new)
  apply_kind proof delete_empty_leaf addr (upsert object) = panic
  apply_kind proof (being_deleted before) addr (upsert object) = panic

  unfoldable pub apply_operation_leaf :
      SparseMerkleLeaf c → Address → Operation c → Outcome (SparseMerkleLeaf c × Bool)
  unfolding apply_kind
  apply_operation_leaf self addr new = apply_kind self.proof self.kind addr new

  -- `empty_branch` of the children of a branch
  unfoldable pub empty_branch : ℕ → Option c.Proof
  empty_branch zero = none
  empty_branch (suc h) = get_elem? aux.empty_branch_proofs h

  -- the `match` of `recalc_branch_helper`
  unfoldable pub prove_children :
      c.BranchCircuit → Option c.Proof → Child c → Child c → Outcome c.Proof
  prove_children k none absent absent = c.prove_branch k aux.empty_leaf_proof aux.empty_leaf_proof
  prove_children k (some e) absent absent = c.prove_branch k e e
  prove_children k (some e) absent (branch r) = c.prove_branch k e (branch_proof r)
  prove_children k e absent (leaf r) = c.prove_branch k aux.empty_leaf_proof r.proof
  prove_children k (some e) (branch l) absent = c.prove_branch k (branch_proof l) e
  prove_children k e (leaf l) absent = c.prove_branch k l.proof aux.empty_leaf_proof
  prove_children k e (branch l) (branch r) = c.prove_branch k (branch_proof l) (branch_proof r)
  prove_children k e (leaf l) (leaf r) = c.prove_branch k l.proof r.proof
  prove_children k none absent (branch r) = panic
  prove_children k none (branch l) absent = panic
  prove_children k e (branch l) (leaf r) = panic
  prove_children k e (leaf l) (branch r) = panic

  unfoldable pub recalc_branch_helper : ℕ → Child c → Child c → Outcome c.Proof
  unfolding empty_branch prove_children
  recalc_branch_helper height l r = do
    circuit ← expect (get_elem? aux.branch_circuits height)
    prove_children circuit (empty_branch height) l r

  -- the body of `create_branch_helper`, which calls itself as `deeper`
  unfoldable pub create_next :
      (AddressPath → Outcome (SparseMerkleBranch c))
      → Address
      → Operation c
      → Option AddressPath × Dir
      → Outcome (SparseMerkleBranch c)
  unfolding create_leaf_helper
  create_next deeper addr new (none, dir) = do
    created ← create_leaf_helper addr new
    let (l, r) = with_empty dir created.proof aux.empty_leaf_proof
    circuit ← expect (get_elem? aux.branch_circuits 0)
    proof ← c.prove_branch circuit l r
    ok (only_child dir 0 proof (leaf created))
  create_next deeper addr new (some rest, dir) = do
    created ← deeper rest
    let height = suc (branch_height created)
    empty ← expect (get_elem? aux.empty_branch_proofs (branch_height created))
    let (l, r) = with_empty dir (branch_proof created) empty
    circuit ← expect (get_elem? aux.branch_circuits height)
    proof ← c.prove_branch circuit l r
    ok (only_child dir height proof (branch created))

  -- The path loses a bit with each call, and `bits` are those left: see State/Applied.
  unfoldable pub create_branch_helper :
      ℕ → Address → AddressPath → Operation c → Outcome (SparseMerkleBranch c)
  unfolding next create_next
  create_branch_helper zero addr self new = panic
  create_branch_helper (suc bits) addr self new =
      create_next (λ rest. create_branch_helper bits addr rest new) addr new (next self)

  -- what an absent child becomes
  unfoldable pub create_child :
      Address → Option AddressPath → Operation c → Outcome (Child c × Bool)
  unfolding create_branch_helper create_leaf_helper
  create_child addr none new = create_leaf_helper addr new >>= λ l. ok (leaf l, true)
  create_child addr (some self) new =
      create_branch_helper (suc self.height) addr self new >>= λ b. ok (branch b, true)

  -- `if recalc { self.recalc_branch_helper(branch) }`
  unfoldable pub rebuild :
      ℕ → c.Proof → Child c → Child c → Bool → Outcome (SparseMerkleBranch c × Bool)
  unfolding recalc_branch_helper
  rebuild height proof l r true =
      recalc_branch_helper height l r >>= λ fresh. ok (node height fresh l r, true)
  rebuild height proof l r false = ok (node height proof l r, false)

  unfoldable mutual
    unfolding next create_child apply_operation_leaf rebuild

    pub apply_operation_helper :
        SparseMerkleBranch c
        → Address
        → Option AddressPath
        → Dir
        → Operation c
        → Outcome (SparseMerkleBranch c × Bool)
    apply_operation_helper (node h p l r) addr path dir new = elim dir [
      | left ↦ apply_child l addr path new >>= λ (l, recalc). rebuild h p l r recalc
      | right ↦ apply_child r addr path new >>= λ (r, recalc). rebuild h p l r recalc
    ]

    -- what happens to `*child`
    pub apply_child :
        Child c → Address → Option AddressPath → Operation c → Outcome (Child c × Bool)
    apply_child absent addr path new = create_child addr path new
    apply_child (branch b) addr (some self) new =
        let (path, dir) = next self in
        apply_operation_helper b addr path dir new >>= λ (b, recalc). ok (branch b, recalc)
    apply_child (leaf l) addr none new =
        apply_operation_leaf l addr new >>= λ (l, recalc). ok (leaf l, recalc)
    apply_child (branch b) addr none new = panic
    apply_child (leaf l) addr (some self) new = panic

  -- `State::apply_operation`; the flag is `debug_assertions`.
  unfoldable pub apply_operation :
      Bool → SparseMerkleBranch c → Address → Operation c → Outcome (SparseMerkleBranch c)
  unfolding next_step apply_operation_helper
  apply_operation debug root addr new = do
    (path, dir) ← expect (next_step debug addr (branch_height root))
    (root, recalc) ← apply_operation_helper root addr path dir new
    ok root
