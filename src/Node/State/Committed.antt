-- ===== src/Node/State/Committed.antt =====
-- node/src/block_proposer/state.rs: `finalize` on a whole tree, where no object was deleted.

use mozak_vm.Prelude.{ℕ, suc, ◌≡◌, ◌≢◌, refl, ◌∙◌, sym, arith}
use mozak_vm.Node.Outcome.{Ensures, returns, Ensures-bind}
use mozak_vm.Node.Address.{left, right, BranchAddress, Descent, child, root}
use mozak_vm.Node.Circuits.{Circuits, Sound}
use mozak_vm.Node.State.{
  SparseMerkleBranch, node, Child, absent, branch, FinalizeOutcome, prune, recalc, no_op, add,
  AuxStateData,
}
use mozak_vm.Node.State.Finalize.{
  finalize_leaf, recalculated, finalize_branch, finalize_child, finalize, kept_child,
}
use mozak_vm.Node.State.View.{
  view, empty_root, child_hash, Hashes, Consistent, nothing, at_leaf, at_branch,
}
use mozak_vm.Node.State.Proofs.{Ready, recalc_branch_helper-Joins}
use mozak_vm.Node.State.Settled.{At, at_bottom, at_inner, child-At, both_pruned}
use mozak_vm.Node.State.Renewed.{
  Lasting, Lasting-left, Lasting-right, Upholds, finalize_kind-LeafUpholds, leaf-Upholds,
}

module _ {c : Circuits} (s : Sound c) where
  module _ (aux : AuxStateData c) where
    branch-Upholds :
        {bits : ℕ} {t : Child c} (b' : SparseMerkleBranch c) (o : FinalizeOutcome c)
        → Upholds s bits t (branch b') o
        → Upholds s bits t (kept_child aux (branch b') o).0 (kept_child aux (branch b') o).1
    unfolding child_hash
    branch-Upholds b' prune m = record {
      consistent = nothing;
      old_kept = λ _. sym (m.old_emptied refl);
      new_kept = λ _. sym (m.new_emptied refl);
      old_emptied = m.old_emptied;
      new_emptied = m.new_emptied;
    }
    branch-Upholds b' recalc m = m
    branch-Upholds b' no_op m = m

  neither_recalc : (o o' : FinalizeOutcome c) → add c o o' ≢ recalc → (o ≢ recalc) × (o' ≢ recalc)
  unfolding add
  neither_recalc recalc o' n = absurd (n refl)
  neither_recalc prune o' n = (λ e. cc, n)
  neither_recalc no_op recalc n = absurd (n refl)
  neither_recalc no_op prune n = (λ e. cc, λ e. cc)
  neither_recalc no_op no_op n = (λ e. cc, λ e. cc)

  over : {h x y x' y' : c.Hash} → h ≡ s.hash_branch x y → x' ≡ x → y' ≡ y → h ≡ s.hash_branch x' y'
  over e e' e'' = cc

  module _ {aux : AuxStateData c} (ready : Ready s aux) {bits : ℕ} (p : c.Proof) (l r : Child c)
      {l' r' : Child c} (o o' : FinalizeOutcome c) (ml : Upholds s bits l l' o)
      (mr : Upholds s bits r r' o') (ho : Hashes s c.old bits p l r)
      (hf : Hashes s c.fresh bits p l r) where
    -- the branch as it was, with children of the same hashes
    same-Upholds :
        (o'' : FinalizeOutcome c)
        → o'' ≢ recalc
        → add c o o' ≡ o''
        → Upholds s (suc bits) (branch (node bits p l r)) (branch (node bits p l' r')) o''
    unfolding child_hash empty_root
    same-Upholds o'' n e =
        let (nl, nr) = neither_recalc o o' (λ k. n (sym e ∙ k)) in
        record {
          consistent =
              at_branch ml.consistent mr.consistent (over ho (ml.old_kept nl) (mr.old_kept nr))
                (over hf (ml.new_kept nl) (mr.new_kept nr));
          old_kept = λ _. refl;
          new_kept = λ _. refl;
          old_emptied = λ k.
              let (el, er) = both_pruned o o' (e ∙ k) in
              over ho (sym (ml.old_emptied el)) (sym (mr.old_emptied er));
          new_emptied = λ k.
              let (el, er) = both_pruned o o' (e ∙ k) in
              over hf (sym (ml.new_emptied el)) (sym (mr.new_emptied er));
        }

    recalculated-Upholds :
        (o'' : FinalizeOutcome c)
        → add c o o' ≡ o''
        → Ensures
            (λ x. Upholds s (suc bits) (branch (node bits p l r)) (branch x.0) x.1)
            (recalculated aux bits p l' r' o'')
    unfolding recalculated
    recalculated-Upholds prune e = returns (same-Upholds prune (λ k. cc) e)
    recalculated-Upholds no_op e = returns (same-Upholds no_op (λ k. cc) e)
    recalculated-Upholds recalc e =
        Ensures-bind (recalc_branch_helper-Joins s ready ml.consistent mr.consistent) λ p' (jo, jf).
          returns record {
            consistent = at_branch ml.consistent mr.consistent jo jf;
            old_kept = λ n. absurd (n refl);
            new_kept = λ n. absurd (n refl);
            old_emptied = λ k. cc;
            new_emptied = λ k. cc;
          }

  module _ {aux : AuxStateData c} (ready : Ready s aux) where
    finalize_branch-Upholds :
        {bits : ℕ} (p : c.Proof) (l r : Child c) (addr : BranchAddress)
        → Hashes s c.old bits p l r
        → Hashes s c.fresh bits p l r
        → Ensures (λ x. Upholds s bits l x.0 x.1) (finalize_child aux l (child addr left))
        → Ensures (λ x. Upholds s bits r x.0 x.1) (finalize_child aux r (child addr right))
        → Ensures
            (λ x. Upholds s (suc bits) (branch (node bits p l r)) (branch x.0) x.1)
            (finalize_branch aux (node bits p l r) addr)
    unfolding finalize_branch
    finalize_branch-Upholds p l r addr ho hf hl hr = Ensures-bind hl λ (l', o) ml.
        Ensures-bind hr λ (r', o') mr. recalculated-Upholds ready p l r o o' ml mr ho hf _ refl

    nothing-Upholds : {bits : ℕ} → Upholds s bits absent absent prune
    unfolding child_hash
    nothing-Upholds = record {
      consistent = nothing;
      old_kept = λ _. refl;
      new_kept = λ _. refl;
      old_emptied = λ _. refl;
      new_emptied = λ _. refl;
    }

    finalize_child-Upholds :
        {bits : ℕ} {t : Child c} {d : Descent}
        → Consistent s bits t
        → Lasting bits t
        → At bits d
        → Ensures (λ x. Upholds s bits t x.0 x.1) (finalize_child aux t d)
    unfolding finalize_branch finalize_leaf view
    finalize_child-Upholds nothing lasts at = returns nothing-Upholds
    finalize_child-Upholds (at_leaf {l = l} h) lasts at_bottom =
        Ensures-bind (finalize_kind-LeafUpholds s aux l.proof l.kind h (lasts 0 (omega arith)))
          λ (x, o) h. returns (leaf-Upholds s aux x o h)
    finalize_child-Upholds (at_branch {bits = bits} {p = p} {l = l} {r = r} hl hr ho hf) lasts
          (at_inner {addr = addr} e) =
        Ensures-bind
          (finalize_branch-Upholds p l r addr ho hf
            (finalize_child-Upholds hl (Lasting-left bits p l r lasts) (child-At bits addr left e))
            (finalize_child-Upholds hr (Lasting-right bits p l r lasts)
              (child-At bits addr right e)))
          λ (b, o) h. returns (branch-Upholds aux b o h)

    pub finalize-Upholds :
        {bits : ℕ} {root : SparseMerkleBranch c}
        → Consistent s (suc bits) (branch root)
        → Lasting (suc bits) (branch root)
        → Ensures (λ root'. Consistent s (suc bits) (branch root')) (finalize aux root)
    unfolding finalize root
    finalize-Upholds (at_branch {bits = bits} {p = p} {l = l} {r = r} hl hr ho hf) lasts =
        Ensures-bind
          (finalize_branch-Upholds p l r (root bits) ho hf
            (finalize_child-Upholds hl (Lasting-left bits p l r lasts)
              (child-At bits (root bits) left refl))
            (finalize_child-Upholds hr (Lasting-right bits p l r lasts)
              (child-At bits (root bits) right refl)))
          λ (b, o) m. returns m.consistent
