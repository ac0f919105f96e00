-- ===== src/Node/State/Renewed.antt =====
-- node/src/block_proposer/state.rs: the proofs after `finalize`, where no object was deleted.
use native.Mathlib.Nat.{pow-suc}
use mozak_vm.Prelude.{ℕ, suc, ◌+◌, ◌^◌, ◌<◌, none, ◌≡◌, ◌≢◌, refl, ◌∙◌, sym, arith}
use mozak_vm.Node.Outcome.{Ensures, returns, Ensures-bind}
use mozak_vm.Node.Circuits.{Circuits, Sound}
use mozak_vm.Node.State.{
  LeafKind, delete_empty_leaf, read_empty_leaf, being_created, unused, being_deleted, being_read,
  being_updated, SparseMerkleLeaf, node, Child, branch, leaf, FinalizeOutcome, prune, recalc, no_op,
  AuxStateData,
}
use mozak_vm.Node.State.Finalize.{kind_objects, settled, finalize_kind, kept_child}
use mozak_vm.Node.State.View.{
  view, object_hash, empty_root, child_hash, LeafHashes, Consistent, nothing, at_leaf,
}
use mozak_vm.Node.State.Merkle.{view_left, view_right}

module _ {c : Circuits} where
  -- No object is there before the block and missing after it.
  abbrev pub Lasting : ℕ → Child c → Type 0
  Lasting bits t = (b : ℕ) → b < 2 ^ bits → (view t b).1 ≡ none → (view t b).0 ≡ none

  pub Lasting-left :
      (bits : ℕ) (p : c.Proof) (l r : Child c)
      → Lasting (suc bits) (branch (node bits p l r))
      → Lasting bits l
  Lasting-left bits p l r h b below =
      rw (sym (view_left bits p l r b below)) (h b (omega (arith, pow-suc 2 bits)))

  pub Lasting-right :
      (bits : ℕ) (p : c.Proof) (l r : Child c)
      → Lasting (suc bits) (branch (node bits p l r))
      → Lasting bits r
  Lasting-right bits p l r h b below =
      rw (sym (view_right bits p l r b below)) (h (2 ^ bits + b) (omega (arith, pow-suc 2 bits)))

module _ {c : Circuits} (s : Sound c) where
  -- The new child is consistent, its hashes are the old ones if the branch above is not proved again,
  -- and those of no object if it is pruned.
  pub record Upholds (bits : ℕ) (t t' : Child c) (outcome : FinalizeOutcome c) : Type 0 where
    pub consistent : Consistent s bits t'
    pub old_kept : outcome ≢ recalc → child_hash s c.old bits t' ≡ child_hash s c.old bits t
    pub new_kept : outcome ≢ recalc → child_hash s c.fresh bits t' ≡ child_hash s c.fresh bits t
    pub old_emptied : outcome ≡ prune → child_hash s c.old bits t ≡ empty_root s bits
    pub new_emptied : outcome ≡ prune → child_hash s c.fresh bits t ≡ empty_root s bits

  pub data LeafUpholds (p : c.Proof) (kind : LeafKind c)
      : SparseMerkleLeaf c × FinalizeOutcome c → Type 0 where
    anew :
        {l : SparseMerkleLeaf c}
        → LeafHashes s l.proof (kind_objects l.kind)
        → LeafUpholds p kind (l, recalc)
    as_before :
        LeafHashes s p (kind_objects kind)
        → LeafUpholds p kind (record { proof = p; kind = kind }, no_op)
    emptied : {l : SparseMerkleLeaf c} → LeafHashes s p (none, none) → LeafUpholds p kind (l, prune)

  module _ (aux : AuxStateData c) where
    settled-LeafUpholds :
        {p : c.Proof} {kind : LeafKind c} (hash : c.Hash) (object : c.Object)
        → hash ≡ c.hash object
        → Ensures (LeafUpholds p kind) (settled aux hash object)
    unfolding settled kind_objects object_hash
    settled-LeafUpholds hash object e =
        Ensures-bind (s.leaf_inputs hash hash none) λ p (o, f). returns (anew (o ∙ e, f ∙ e))

    pub finalize_kind-LeafUpholds :
        (p : c.Proof) (kind : LeafKind c)
        → LeafHashes s p (kind_objects kind)
        → ((kind_objects kind).1 ≡ none → (kind_objects kind).0 ≡ none)
        → Ensures (LeafUpholds p kind) (finalize_kind aux p kind)
    unfolding finalize_kind kind_objects object_hash
    finalize_kind-LeafUpholds p (unused object) h lasts = returns (as_before h)
    finalize_kind-LeafUpholds p delete_empty_leaf h lasts = returns (emptied h)
    finalize_kind-LeafUpholds p read_empty_leaf h lasts = returns (emptied h)
    finalize_kind-LeafUpholds p (being_deleted object) h lasts = let e = lasts refl in cc
    finalize_kind-LeafUpholds p (being_created new) h lasts =
        settled-LeafUpholds (c.fresh p) new h.1
    finalize_kind-LeafUpholds p (being_updated before new) h lasts =
        settled-LeafUpholds (c.fresh p) new h.1
    finalize_kind-LeafUpholds p (being_read object) h lasts =
        settled-LeafUpholds (c.old p) object h.0

    pub leaf-Upholds :
        {p : c.Proof} {kind : LeafKind c} (x : SparseMerkleLeaf c) (outcome : FinalizeOutcome c)
        → LeafUpholds p kind (x, outcome)
        → Upholds 0
            (leaf (record { proof = p; kind = kind }))
            (kept_child aux (leaf x) outcome).0
            (kept_child aux (leaf x) outcome).1
    unfolding child_hash object_hash empty_root
    leaf-Upholds x prune (emptied h) = record {
      consistent = nothing;
      old_kept = λ _. sym h.0;
      new_kept = λ _. sym h.1;
      old_emptied = λ _. h.0;
      new_emptied = λ _. h.1;
    }
    leaf-Upholds x recalc (anew h) = record {
      consistent = at_leaf h;
      old_kept = λ n. absurd (n refl);
      new_kept = λ n. absurd (n refl);
      old_emptied = λ e. cc;
      new_emptied = λ e. cc;
    }
    leaf-Upholds x no_op (as_before h) = record {
      consistent = at_leaf h;
      old_kept = λ _. refl;
      new_kept = λ _. refl;
      old_emptied = λ e. cc;
      new_emptied = λ e. cc;
    }
