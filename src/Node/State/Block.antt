-- ===== src/Node/State/Block.antt =====
-- node/src/block_proposer/state.rs: what the state promises of a block: its operations, in order, and
-- `finalize`.
use mozak_vm.Prelude.{
  ℕ, suc, get_elem?, ◌%◌, ◌^◌, ◌<◌, arith, Bool, none, List, [], ◌∷◌, ◌==◌, ◌≡◌, refl, ◌∙◌, sym, ap,
  Bool-cases, inl, inr,
}
use mozak_vm.Node.Outcome.{
  Outcome, ok, ◌>>=◌, Ensures, returns, Ensures-bind, Ensures-map, Ensures-found, Ensures-any,
  ok_injective,
}
use mozak_vm.Node.Address.{Address, path, root}
use mozak_vm.Node.Address.Paths.{side, next_step_lem}
use mozak_vm.Node.Circuits.{Circuits, Sound}
use mozak_vm.Node.State.{
  Operation, SparseMerkleBranch, node, absent, branch, AuxStateData, branch_proof, new_aux,
  new_state,
}
use mozak_vm.Node.State.Apply.{apply_operation}
use mozak_vm.Node.State.Finalize.{Objects, get_state, finalize}
use mozak_vm.Node.State.View.{
  view, merkle_root, empty_root, child_hash, Consistent, nothing, at_branch, Consistent-Shaped,
}
use mozak_vm.Node.State.Reads.{rest_lt, get_state_lem}
use mozak_vm.Node.State.Proofs.{Ready, new_aux-Ready}
use mozak_vm.Node.State.Leaf.{amended}
use mozak_vm.Node.State.Amends.{amended_at, helper-Amends}
use mozak_vm.Node.State.Applied.{apply_child-Amends, choose_same}
use mozak_vm.Node.State.Merkle.{merkle_root-congr, old-merkle_root, new-merkle_root}
use mozak_vm.Node.State.Settled.{settle, finalize-Settles}
use mozak_vm.Node.State.Committed.{finalize-Upholds}

-- A whole block: each operation at its address, in order.
unfoldable pub apply_operations :
    {c : Circuits}
    → AuxStateData c
    → Bool
    → SparseMerkleBranch c
    → List (Address × Operation c)
    → Outcome (SparseMerkleBranch c)
unfolding apply_operation
apply_operations aux debug root [] = ok root
apply_operations aux debug root ((addr, new) ∷ rest) =
    apply_operation aux debug root addr new >>= λ root. apply_operations aux debug root rest

unfoldable pub Within : {c : Circuits} → ℕ → List (Address × Operation c) → Type 0
Within bits [] = Unit
Within bits ((addr, new) ∷ rest) = (addr < 2 ^ bits) × Within bits rest

module _ {c : Circuits} (s : Sound c) where
  -- the objects at `b` after the operations, in order
  unfoldable pub amended_by : List (Address × Operation c) → ℕ → Objects c → Objects c
  amended_by [] b objects = objects
  amended_by ((addr, new) ∷ rest) b objects = amended_by rest b (amended_at s new addr b objects)

module _ {c : Circuits} (s : Sound c) {aux : AuxStateData c} (ready : Ready s aux) where
  pub apply_operation-Amends :
      {bits : ℕ} {root : SparseMerkleBranch c} (debug : Bool) (addr : Address) (new : Operation c)
      → bits < 64
      → addr < 2 ^ suc bits
      → Consistent s (suc bits) (branch root)
      → Ensures
          (λ root'.
            Consistent s (suc bits) (branch root')
            × ((b : ℕ)
                → b < 2 ^ suc bits
                → view (branch root') b ≡ amended_at s new addr b (view (branch root) b)))
          (apply_operation aux debug root addr new)
  unfolding apply_operation
  apply_operation-Amends {bits = bits} debug addr new h below (at_branch {p = p} hl hr ho hf) =
      rw (next_step_lem debug addr bits h below) (
        Ensures-bind
          (helper-Amends s ready below p hl hr ho hf addr (path (addr % 2 ^ bits) bits)
            (side addr bits) refl
            (apply_child-Amends s ready addr bits _ (omega arith) (rest_lt addr bits) hl)
            (apply_child-Amends s ready addr bits _ (omega arith) (rest_lt addr bits) hr))
          λ x m. returns (m.consistent, m.views))

  -- `apply_operation` keeps the tree consistent.
  pub apply_operation-Consistent :
      {bits : ℕ} {root : SparseMerkleBranch c} (debug : Bool) (addr : Address) (new : Operation c)
      → bits < 64
      → addr < 2 ^ suc bits
      → Consistent s (suc bits) (branch root)
      → Ensures
          (λ root'. Consistent s (suc bits) (branch root'))
          (apply_operation aux debug root addr new)
  apply_operation-Consistent debug addr new h below k =
      Ensures-map (λ x m. m.0) (apply_operation-Amends debug addr new h below k)

  -- What is read after an operation.
  pub get_state-apply_operation :
      {bits : ℕ} {root : SparseMerkleBranch c} (debug : Bool) (addr : Address) (new : Operation c)
      → bits < 64
      → addr < 2 ^ suc bits
      → Consistent s (suc bits) (branch root)
      → Ensures
          (λ root'.
            (b : ℕ) (objects : Objects c)
            → b < 2 ^ suc bits
            → get_state debug root b ≡ ok objects
            → get_state debug root' b ≡ ok (amended_at s new addr b objects))
          (apply_operation aux debug root addr new)
  get_state-apply_operation {root = root} debug addr new h below k =
      Ensures-map
        (λ root' (k', views) b objects below' e.
          let same : view (branch root) b ≡ objects =
            ok_injective (sym (get_state_lem debug b h below' (Consistent-Shaped s k)) ∙ e) in
          get_state_lem debug b h below' (Consistent-Shaped s k')
          ∙ ap ok (views b below' ∙ ap (amended_at s new addr b) same))
        (apply_operation-Amends debug addr new h below k)

  operations-Amends :
      {bits : ℕ} (debug : Bool) (new : List (Address × Operation c)) {root : SparseMerkleBranch c}
      → bits < 64
      → Within (suc bits) new
      → Consistent s (suc bits) (branch root)
      → Ensures
          (λ root'.
            Consistent s (suc bits) (branch root')
            × ((b : ℕ)
                → b < 2 ^ suc bits
                → view (branch root') b ≡ amended_by s new b (view (branch root) b)))
          (apply_operations aux debug root new)
  unfolding apply_operations amended_by Within
  operations-Amends debug [] h within k = returns (k, λ b _. refl)
  operations-Amends debug ((addr, new) ∷ rest) h (below, within) k =
      Ensures-bind (apply_operation-Amends debug addr new h below k) λ root' (k', views).
        Ensures-map
          (λ root'' (k'', views').
            (k'', λ b below'. views' b below' ∙ ap (amended_by s rest b) (views b below')))
          (operations-Amends debug rest h within k')

  amended_at-before :
      (new : Operation c) (a b : ℕ) (objects : Objects c)
      → (amended_at s new a b objects).0 ≡ objects.0
  unfolding amended
  amended_at-before new a b objects = elim (Bool-cases (a == b)) [
    | inl e ↦ rw e refl
    | inr e ↦ rw e refl
  ]

  amended_by-before :
      (new : List (Address × Operation c)) (b : ℕ) (objects : Objects c)
      → (amended_by s new b objects).0 ≡ objects.0
  unfolding amended_by
  amended_by-before [] b objects = refl
  amended_by-before ((addr, new) ∷ rest) b objects =
      amended_by-before rest b (amended_at s new addr b objects)
      ∙ amended_at-before new addr b objects

  -- Given sound circuits and the data of AuxStateData::new, for a tree of at most 64 bits: if
  -- the operations of a block, at addresses of the tree, all succeed from a consistent state,
  -- the old hash of the root's proof is still the one it was, and the new hash is the Merkle
  -- root of the objects after these operations, in their order.
  pub apply_operations-merkle_root :
      {bits : ℕ} {root : SparseMerkleBranch c} (debug : Bool) (new : List (Address × Operation c))
      → bits < 64
      → Within (suc bits) new
      → Consistent s (suc bits) (branch root)
      → Ensures
          (λ root'.
            (c.old (branch_proof root') ≡ c.old (branch_proof root))
            × (c.fresh (branch_proof root')
                ≡ merkle_root s (suc bits) (λ b. (amended_by s new b (view (branch root) b)).1)))
          (apply_operations aux debug root new)
  apply_operations-merkle_root {bits = bits} debug new h within k =
      Ensures-map
        (λ root' (k', views). (
          old-merkle_root s k'
              ∙ merkle_root-congr s (suc bits)
                  (λ b below. ap (λ o. o.0) (views b below) ∙ amended_by-before new b _)
              ∙ sym (old-merkle_root s k),
          new-merkle_root s k'
              ∙ merkle_root-congr s (suc bits) (λ b below. ap (λ o. o.1) (views b below)),
        ))
        (operations-Amends debug new h within k)

  -- What is read after `finalize`.
  pub get_state-finalize :
      {bits : ℕ} {root : SparseMerkleBranch c} (debug : Bool)
      → bits < 64
      → Consistent s (suc bits) (branch root)
      → Ensures
          (λ root'.
            (b : ℕ) (objects : Objects c)
            → b < 2 ^ suc bits
            → get_state debug root b ≡ ok objects
            → get_state debug root' b ≡ ok (settle objects))
          (finalize aux root)
  get_state-finalize {root = root} debug h k =
      Ensures-map
        (λ root' (shaped, views) b objects below e.
          let same : view (branch root) b ≡ objects =
            ok_injective (sym (get_state_lem debug b h below (Consistent-Shaped s k)) ∙ e) in
          get_state_lem debug b h below shaped ∙ ap ok (views b ∙ ap settle same))
        (finalize-Settles aux (Consistent-Shaped s k))

  -- Where no object was deleted, the next block begins with a proof of its state.
  pub finalize-merkle_root :
      {bits : ℕ} {root : SparseMerkleBranch c}
      → Consistent s (suc bits) (branch root)
      → ((b : ℕ)
          → b < 2 ^ suc bits
          → (view (branch root) b).1 ≡ none
          → (view (branch root) b).0 ≡ none)
      → Ensures
          (λ root'.
            Consistent s (suc bits) (branch root')
            × (c.old (branch_proof root')
                ≡ merkle_root s (suc bits) (λ b. (view (branch root') b).0)))
          (finalize aux root)
  finalize-merkle_root k lasts =
      Ensures-map (λ root' k'. (k', old-merkle_root s k')) (finalize-Upholds s ready k lasts)

  empty-Consistent :
      (bits : ℕ) (e : c.Proof)
      → c.old e ≡ empty_root s (suc bits)
      → c.fresh e ≡ empty_root s (suc bits)
      → Consistent s (suc bits) (branch (node bits e absent absent))
  unfolding child_hash empty_root
  empty-Consistent bits e o f = at_branch nothing nothing o f

  empty_view :
      (bits : ℕ) (e : c.Proof) (b : ℕ)
      → view {c = c} (branch (node bits e absent absent)) b ≡ (none, none)
  unfolding view
  empty_view bits e b = choose_same (side b bits) (none, none)

  pub new_state-Consistent :
      (debug : Bool) (tree_depth : ℕ)
      → tree_depth < 64
      → Ensures
          (λ root.
            Consistent s (suc tree_depth) (branch root)
            × ((b : ℕ) → b < 2 ^ suc tree_depth → get_state debug root b ≡ ok (none, none)))
          (new_state c aux tree_depth)
  unfolding new_state
  new_state-Consistent debug tree_depth h = Ensures-bind (Ensures-any _) λ _ _.
      Ensures-bind (Ensures-found (get_elem? aux.empty_branch_proofs tree_depth)) λ e found.
        let (o, f) = ready.empty_branch tree_depth e found in
        let k = empty-Consistent tree_depth e o f in
        returns (
          k,
          λ b below.
              get_state_lem debug b h below (Consistent-Shaped s k)
              ∙ ap ok (empty_view tree_depth e b),
        )

module _ {c : Circuits} (s : Sound c) where
  -- The state at the beginning.
  pub new_aux-new_state :
      (debug : Bool) (max_tree_depth tree_depth : ℕ)
      → tree_depth < 64
      → Ensures
          (λ root.
            Consistent s (suc tree_depth) (branch root)
            × ((b : ℕ) → b < 2 ^ suc tree_depth → get_state debug root b ≡ ok (none, none)))
          (new_aux c max_tree_depth >>= λ aux. new_state c aux tree_depth)
  new_aux-new_state debug max_tree_depth tree_depth h =
      Ensures-bind (new_aux-Ready s max_tree_depth)
        λ aux ready. new_state-Consistent s ready debug tree_depth h
