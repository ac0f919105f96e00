-- ===== src/Node/State/Merkle.antt =====
-- node/src/block_proposer/state.rs: the two hashes of the root's proof are the Merkle roots of the
-- objects before and after the block.
use native.Mathlib.Nat.{pow-suc}
use mozak_vm.Prelude.{ℕ, zero, suc, ◌+◌, ◌^◌, ◌<◌, Option, none, ◌≡◌, refl, ◌∙◌, sym, ap, arith}
use mozak_vm.Node.Address.{Dir}
use mozak_vm.Node.Address.Sides.{Located, lower, upper, located}
use mozak_vm.Node.Circuits.{Circuits, Sound}
use mozak_vm.Node.State.{SparseMerkleBranch, node, Child, branch, branch_proof}
use mozak_vm.Node.State.Finalize.{Objects}
use mozak_vm.Node.State.View.{
  view, choose, object_hash, merkle_root, empty_root, child_hash, Hashes, LeafHashes, Consistent,
  nothing, at_leaf, at_branch,
}

-- What stands to the left and to the right of a branch.
sides_located :
    {A : Type 0} {a bits low : ℕ} {d : Dir} (l r : ℕ → A)
    → Located a bits d low
    → a < 2 ^ bits
    → choose d (l low) (r low) ≡ l a
unfolding choose
sides_located l r (lower h) below = refl
sides_located l r (upper e h) below = absurd (omega arith)

right_located :
    {A : Type 0} {a bits low : ℕ} {d : Dir} (l r : ℕ → A)
    → Located (2 ^ bits + a) bits d low
    → a < 2 ^ bits
    → choose d (l low) (r low) ≡ r a
unfolding choose
right_located l r (lower h) below = absurd (omega arith)
right_located {a = a} l r (upper {low = low} e h) below = ap r (omega arith)

module _ {c : Circuits} where
  pub view_left :
      (bits : ℕ) (p : c.Proof) (l r : Child c) (a : ℕ)
      → a < 2 ^ bits
      → view (branch (node bits p l r)) a ≡ view l a
  unfolding view
  view_left bits p l r a below =
      sides_located (view l) (view r) (located a bits (omega (arith, pow-suc 2 bits))) below

  pub view_right :
      (bits : ℕ) (p : c.Proof) (l r : Child c) (a : ℕ)
      → a < 2 ^ bits
      → view (branch (node bits p l r)) (2 ^ bits + a) ≡ view r a
  unfolding view
  view_right bits p l r a below =
      right_located (view l) (view r) (located (2 ^ bits + a) bits (omega (arith, pow-suc 2 bits)))
        below

module _ {c : Circuits} (s : Sound c) where
  pub merkle_root-congr :
      (bits : ℕ) {f g : ℕ → Option c.Object}
      → ((a : ℕ) → a < 2 ^ bits → f a ≡ g a)
      → merkle_root s bits f ≡ merkle_root s bits g
  unfolding merkle_root
  merkle_root-congr zero same = ap (object_hash s) (same 0 (omega arith))
  merkle_root-congr (suc bits) same =
      let l = merkle_root-congr bits λ a h. same a (omega (arith, pow-suc 2 bits)) in
      let r = merkle_root-congr bits λ a h. same (2 ^ bits + a) (omega (arith, pow-suc 2 bits)) in
      cc

  merkle_root-none : (bits : ℕ) → empty_root s bits ≡ merkle_root s bits (λ _. none)
  unfolding merkle_root empty_root object_hash
  merkle_root-none zero = refl
  merkle_root-none (suc bits) = let h = merkle_root-none bits in cc

  both : {x x' y y' : c.Hash} → x ≡ x' → y ≡ y' → s.hash_branch x y ≡ s.hash_branch x' y'
  both e e' = cc

  -- `pick` is the hash before or after, and `part` the object then.
  module _ (pick : c.Proof → c.Hash) (part : Objects c → Option c.Object)
      (no_part : part (none, none) ≡ none)
      (of_leaf : (p : c.Proof) (o : Objects c) → LeafHashes s p o → pick p ≡ object_hash s (part o))
      (of_branch : (bits : ℕ) (p : c.Proof) (l r : Child c)
        → Hashes s c.old bits p l r
        → Hashes s c.fresh bits p l r
        → Hashes s pick bits p l r) where
    child_hash-merkle_root :
        {bits : ℕ} {t : Child c}
        → Consistent s bits t
        → child_hash s pick bits t ≡ merkle_root s bits (λ a. part (view t a))
    unfolding child_hash view merkle_root
    child_hash-merkle_root {bits = bits} nothing =
        merkle_root-none bits ∙ merkle_root-congr bits (λ a h. sym no_part)
    child_hash-merkle_root (at_leaf {l = l} h) = of_leaf l.proof _ h
    child_hash-merkle_root (at_branch {bits = bits} {p = p} {l = l} {r = r} hl hr ho hf) =
        let below =
          child_hash-merkle_root hl
          ∙ merkle_root-congr bits (λ a h. ap part (sym (view_left bits p l r a h))) in
        let above =
          child_hash-merkle_root hr
          ∙ merkle_root-congr bits (λ a h. ap part (sym (view_right bits p l r a h))) in
        of_branch bits p l r ho hf ∙ both below above

  pub old-merkle_root :
      {bits : ℕ} {root : SparseMerkleBranch c}
      → Consistent s (suc bits) (branch root)
      → c.old (branch_proof root) ≡ merkle_root s (suc bits) (λ a. (view (branch root) a).0)
  unfolding child_hash
  old-merkle_root =
      child_hash-merkle_root c.old (λ o. o.0) refl (λ p o h. h.0) (λ bits p l r ho hf. ho)

  pub new-merkle_root :
      {bits : ℕ} {root : SparseMerkleBranch c}
      → Consistent s (suc bits) (branch root)
      → c.fresh (branch_proof root) ≡ merkle_root s (suc bits) (λ a. (view (branch root) a).1)
  unfolding child_hash
  new-merkle_root =
      child_hash-merkle_root c.fresh (λ o. o.1) refl (λ p o h. h.1) (λ bits p l r ho hf. hf)
