-- ===== src/Node/State/Settled.antt =====
-- node/src/block_proposer/state.rs: `finalize` makes the objects after the block those before the next.
use mozak_vm.Prelude.{
  ℕ, zero, suc, ◌%◌, ◌^◌, false, Option, none, some, ◌==◌, ◌≡◌, ◌≢◌, refl, ◌∙◌, sym, ap, arith,
}
use mozak_vm.Node.Outcome.{Ensures, returns, Ensures-bind, Ensures-map, Ensures-any}
use mozak_vm.Node.Address.{Dir, left, right, BranchAddress, Descent, inner, bottom, child, root}
use mozak_vm.Node.Address.Paths.{side}
use mozak_vm.Node.Circuits.{Circuits}
use mozak_vm.Node.State.{
  LeafKind, delete_empty_leaf, read_empty_leaf, being_created, unused, being_deleted, being_read,
  being_updated, SparseMerkleLeaf, SparseMerkleBranch, node, Child, absent, branch, leaf,
  FinalizeOutcome, prune, recalc, no_op, add, AuxStateData,
}
use mozak_vm.Node.State.Apply.{recalc_branch_helper}
use mozak_vm.Node.State.Finalize.{
  kind_objects, settled, finalize_kind, finalize_leaf, recalculated, finalize_branch,
  finalize_child, finalize, kept_child,
}
use mozak_vm.Node.State.View.{view, choose, Shaped, no_child, leaf_child, branch_child}

-- Where the walk down stands: above a leaf, or at a height.
pub data At : ℕ → Descent → Type 0 where
  at_bottom : {addr : ℕ} → At 0 (bottom addr)
  at_inner : {bits : ℕ} → {addr : BranchAddress} → addr.height ≡ bits → At (suc bits) (inner addr)

positive : (n : ℕ) → (suc n == 0) ≡ false
positive n = ground arith

pub child-At :
    (bits : ℕ) (addr : BranchAddress) (dir : Dir) → addr.height ≡ bits → At bits (child addr dir)
unfolding child
child-At zero addr dir e = rw e at_bottom
child-At (suc bits) addr dir e = rw e (rw (positive bits) (at_inner (omega arith)))

-- the objects of the next block
unfoldable pub settle : {A : Type 0} → Option A × Option A → Option A × Option A
settle (before, after) = (after, after)

module _ {c : Circuits} where
  -- The child after `finalize`: its objects are settled, and a pruned one has none.
  pub record Settles (bits : ℕ) (t t' : Child c) (outcome : FinalizeOutcome c) : Type 0 where
    pub shaped : Shaped bits t'
    pub views : (b : ℕ) → view t' b ≡ settle (view t b)
    pub pruned : outcome ≡ prune → t' ≡ absent

  pub data LeafSettles (kind : LeafKind c) : SparseMerkleLeaf c × FinalizeOutcome c → Type 0 where
    stays :
        {l : SparseMerkleLeaf c}
        → {outcome : FinalizeOutcome c} → outcome ≢ prune
        → kind_objects l.kind ≡ settle (kind_objects kind)
        → LeafSettles kind (l, outcome)
    goes :
        {l : SparseMerkleLeaf c}
        → settle (kind_objects kind) ≡ (none, none)
        → LeafSettles kind (l, prune)

module _ {c : Circuits} (aux : AuxStateData c) where
  settled-LeafSettles :
      {kind : LeafKind c} (hash : c.Hash) (object : c.Object)
      → settle (kind_objects kind) ≡ (some object, some object)
      → Ensures (LeafSettles kind) (settled aux hash object)
  unfolding settled kind_objects
  settled-LeafSettles hash object e =
      Ensures-bind (Ensures-any (c.prove_leaf hash hash none))
        λ p _. returns (stays (λ x. cc) (sym e))

  finalize_kind-LeafSettles :
      (proof : c.Proof) (kind : LeafKind c)
      → Ensures (LeafSettles kind) (finalize_kind aux proof kind)
  unfolding finalize_kind kind_objects settle
  finalize_kind-LeafSettles proof (unused object) = returns (stays (λ x. cc) refl)
  finalize_kind-LeafSettles proof delete_empty_leaf = returns (goes refl)
  finalize_kind-LeafSettles proof read_empty_leaf = returns (goes refl)
  finalize_kind-LeafSettles proof (being_deleted object) = returns (goes refl)
  finalize_kind-LeafSettles proof (being_created new) = settled-LeafSettles (c.fresh proof) new refl
  finalize_kind-LeafSettles proof (being_updated before new) =
      settled-LeafSettles (c.fresh proof) new refl
  finalize_kind-LeafSettles proof (being_read object) =
      settled-LeafSettles (c.old proof) object refl

  leaf-Settles :
      {l : SparseMerkleLeaf c} (x : SparseMerkleLeaf c) (outcome : FinalizeOutcome c)
      → LeafSettles l.kind (x, outcome)
      → Settles 0 (leaf l) (kept_child aux (leaf x) outcome).0 (kept_child aux (leaf x) outcome).1
  unfolding view
  leaf-Settles x prune (goes e) = record {
    shaped = no_child;
    views = λ b. sym e;
    pruned = λ _. refl;
  }
  leaf-Settles x prune (stays n e) = absurd (n refl)
  leaf-Settles x recalc (stays n e) = record {
    shaped = leaf_child;
    views = λ b. e;
    pruned = λ k. cc;
  }
  leaf-Settles x no_op (stays n e) = record {
    shaped = leaf_child;
    views = λ b. e;
    pruned = λ k. cc;
  }

settle-choose :
    {A : Type 0} (d : Dir) {l' r' : Option A × Option A} (l r : Option A × Option A)
    → l' ≡ settle l
    → r' ≡ settle r
    → choose d l' r' ≡ settle (choose d l r)
unfolding choose
settle-choose left l r e e' = e
settle-choose right l r e e' = e'

none_both :
    {A : Type 0} (d : Dir) (l r : Option A × Option A)
    → settle l ≡ (none, none)
    → settle r ≡ (none, none)
    → settle (choose d l r) ≡ (none, none)
unfolding choose
none_both left l r e e' = e
none_both right l r e e' = e'

module _ {c : Circuits} where
  -- The branch after `finalize`: with the outcome `prune` it has no object.
  record BranchSettles (bits : ℕ) (t : Child c) (b' : SparseMerkleBranch c)
      (outcome : FinalizeOutcome c) : Type 0 where
    pub shaped : Shaped bits (branch b')
    pub views : (b : ℕ) → view (branch b') b ≡ settle (view t b)
    pub pruned : outcome ≡ prune → (b : ℕ) → settle (view t b) ≡ (none, none)

  pub data Renewed (bits : ℕ) (l r : Child c) (o : FinalizeOutcome c)
      : SparseMerkleBranch c × FinalizeOutcome c → Type 0 where
    renewed : {p : c.Proof} → Renewed bits l r o (node bits p l r, o)

  pub both_pruned : (o o' : FinalizeOutcome c) → add c o o' ≡ prune → (o ≡ prune) × (o' ≡ prune)
  unfolding add
  both_pruned prune prune e = (refl, refl)
  both_pruned prune recalc e = cc
  both_pruned prune no_op e = cc
  both_pruned recalc o' e = cc
  both_pruned no_op recalc e = cc
  both_pruned no_op prune e = cc
  both_pruned no_op no_op e = cc

  no_object :
      {bits : ℕ} {t t' : Child c} {o : FinalizeOutcome c}
      → Settles bits t t' o
      → o ≡ prune
      → (b : ℕ) → settle (view t b) ≡ (none, none)
  unfolding view
  no_object {t' = t'} m e b = sym (m.views b) ∙ ap (λ (t : Child c). view t b) (m.pruned e)

  module _ {bits : ℕ} {p : c.Proof} {l r l' r' : Child c} {o o' : FinalizeOutcome c}
      (ml : Settles bits l l' o) (mr : Settles bits r r' o') where
    Renewed-BranchSettles :
        {x : SparseMerkleBranch c × FinalizeOutcome c}
        → Renewed bits l' r' (add c o o') x
        → BranchSettles (suc bits) (branch (node bits p l r)) x.0 x.1
    unfolding view
    Renewed-BranchSettles renewed = record {
      shaped = branch_child ml.shaped mr.shaped;
      views =
          λ b. settle-choose (side b bits) _ _ (ml.views (b % 2 ^ bits)) (mr.views (b % 2 ^ bits));
      pruned = λ e b.
          let (el, er) = both_pruned o o' e in
          none_both (side b bits) _ _ (no_object ml el (b % 2 ^ bits))
            (no_object mr er (b % 2 ^ bits));
    }

module _ {c : Circuits} (aux : AuxStateData c) where
  pub recalculated-Renewed :
      (bits : ℕ) (p : c.Proof) (l r : Child c) (o : FinalizeOutcome c)
      → Ensures (Renewed bits l r o) (recalculated aux bits p l r o)
  unfolding recalculated
  recalculated-Renewed bits p l r recalc =
      Ensures-bind (Ensures-any (recalc_branch_helper aux bits l r)) λ p' _. returns renewed
  recalculated-Renewed bits p l r prune = returns renewed
  recalculated-Renewed bits p l r no_op = returns renewed

  branch-Settles :
      {bits : ℕ} {t : Child c} (b' : SparseMerkleBranch c) (o : FinalizeOutcome c)
      → BranchSettles bits t b' o
      → Settles bits t (kept_child aux (branch b') o).0 (kept_child aux (branch b') o).1
  unfolding view
  branch-Settles b' prune m = record {
    shaped = no_child;
    views = λ b. sym (m.pruned refl b);
    pruned = λ _. refl;
  }
  branch-Settles b' recalc m = record { shaped = m.shaped; views = m.views; pruned = λ e. cc }
  branch-Settles b' no_op m = record { shaped = m.shaped; views = m.views; pruned = λ e. cc }

  finalize_branch-BranchSettles :
      {bits : ℕ} (p : c.Proof) (l r : Child c) (addr : BranchAddress)
      → Ensures (λ x. Settles bits l x.0 x.1) (finalize_child aux l (child addr left))
      → Ensures (λ x. Settles bits r x.0 x.1) (finalize_child aux r (child addr right))
      → Ensures
          (λ x. BranchSettles (suc bits) (branch (node bits p l r)) x.0 x.1)
          (finalize_branch aux (node bits p l r) addr)
  unfolding finalize_branch
  finalize_branch-BranchSettles {bits = bits} p l r addr hl hr = Ensures-bind hl λ (l', o) ml.
      Ensures-bind hr λ (r', o') mr.
        Ensures-map (λ x. Renewed-BranchSettles ml mr)
          (recalculated-Renewed bits p l' r' (add c o o'))

  finalize_child-Settles :
      {bits : ℕ} {t : Child c} {d : Descent}
      → Shaped bits t
      → At bits d
      → Ensures (λ x. Settles bits t x.0 x.1) (finalize_child aux t d)
  unfolding finalize_branch finalize_leaf settle view
  finalize_child-Settles no_child at =
      returns record { shaped = no_child; views = λ b. refl; pruned = λ _. refl }
  finalize_child-Settles (leaf_child {l = l}) at_bottom =
      Ensures-bind (finalize_kind-LeafSettles aux l.proof l.kind)
        λ (x, o) h. returns (leaf-Settles aux x o h)
  finalize_child-Settles (branch_child {p = p} {l = l} {r = r} hl hr) (at_inner {addr = addr} e) =
      Ensures-bind
        (finalize_branch-BranchSettles p l r addr
          (finalize_child-Settles hl (child-At _ addr left e))
          (finalize_child-Settles hr (child-At _ addr right e)))
        λ (b, o) h. returns (branch-Settles b o h)

  pub finalize-Settles :
      {bits : ℕ} {root : SparseMerkleBranch c}
      → Shaped (suc bits) (branch root)
      → Ensures
          (λ root'.
            Shaped (suc bits) (branch root')
            × ((b : ℕ) → view (branch root') b ≡ settle (view (branch root) b)))
          (finalize aux root)
  unfolding finalize root
  finalize-Settles (branch_child {bits = bits} {p = p} {l = l} {r = r} hl hr) =
      Ensures-bind
        (finalize_branch-BranchSettles p l r (root bits)
          (finalize_child-Settles hl (child-At bits (root bits) left refl))
          (finalize_child-Settles hr (child-At bits (root bits) right refl)))
        λ (b, o) m. returns (m.shaped, m.views)
