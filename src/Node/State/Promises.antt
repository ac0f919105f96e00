-- ===== src/Node/State/Promises.antt =====
-- node/src/block_proposer/state.rs: what the state promises to the block proposer.
use mozak_vm.Prelude.{ℕ, suc, ◌-◌, ◌^◌, ◌≤◌, ◌<◌, Bool, true, false, none, ◌≡◌, refl}
use mozak_vm.Node.Outcome.{ok, ◌>>=◌, Gives, Gives-bind, Gives-map, Gives-Ensures}
use mozak_vm.Node.Address.{Address, root}
use mozak_vm.Node.Circuits.{Circuits, Sound}
use mozak_vm.Node.State.{
  Operation, unused, being_deleted, SparseMerkleBranch, node, branch, leaf, AuxStateData,
  branch_proof, new_aux, new_state,
}
use mozak_vm.Node.State.Apply.{apply_operation}
use mozak_vm.Node.State.Finalize.{Objects, get_state, finalize, finalize_branch}
use mozak_vm.Node.State.View.{
  view, merkle_root, object_hash, child_hash, Consistent, at_leaf, at_branch,
}
use mozak_vm.Node.State.Proofs.{Ready, new_aux-Ready}
use mozak_vm.Node.State.Amends.{amended_at}
use mozak_vm.Node.State.Settled.{settle}
use mozak_vm.Node.State.Complete.{Complete, Equipped, Placed}
use mozak_vm.Node.State.Legal.{legal_at}
use mozak_vm.Node.State.Takes.{apply_operation-Placed}
use mozak_vm.Node.State.Begins.{finalize-Placed, new_aux-Equipped, new_state-Placed}
use mozak_vm.Node.State.Block.{
  apply_operation-Amends, get_state-apply_operation, get_state-finalize, finalize-merkle_root,
  new_state-Consistent,
}

module _ {c : Circuits} (s : Sound c) (k : Complete c) where
  -- the data that `AuxStateData::new` makes
  pub record Usable (depth : ℕ) (aux : AuxStateData c) : Type 0 where
    pub ready : Ready s aux
    pub equipped : Equipped k depth aux

  -- a state of `depth` whose proofs are those of its objects and will do for those above
  pub record Standing (bits : ℕ) (root : SparseMerkleBranch c) : Type 0 where
    pub consistent : Consistent s (suc bits) (branch root)
    pub placed : Placed k (suc bits) 0 (branch root)

  -- Given circuits that are sound and that prove what is asked of them, and the data of
  -- AuxStateData::new: an operation at an address of the tree that its leaf takes, and that the
  -- field can hold, comes to a new state without a panic. The new state is again one whose
  -- proofs are those of its objects; what is read at the address has the same object before the
  -- block, and after it the one that the operation makes; what is read anywhere else is the
  -- same.
  pub apply_operation-Gives :
      {depth : ℕ} {aux : AuxStateData c} (bits : ℕ) (root : SparseMerkleBranch c) (debug : Bool)
      (addr : Address) (new : Operation c)
      → Usable depth aux
      → Standing bits root
      → bits ≤ depth
      → bits < 64
      → addr < 2 ^ suc bits
      → addr < 2 ^ 64 - 2 ^ 32
      → legal_at (branch root) addr new ≡ true
      → Gives
          (λ root'.
            Standing bits root'
            × ((b : ℕ) (objects : Objects c)
                → b < 2 ^ suc bits
                → get_state debug root b ≡ ok objects
                → get_state debug root' b ≡ ok (amended_at s new addr b objects)))
          (apply_operation aux debug root addr new)
  apply_operation-Gives bits root debug addr new u st h h' below bounded fits =
      Gives-map
        (λ root' ((placed, m), reads). (record { consistent = m.0; placed = placed }, reads))
        (Gives-Ensures
          (Gives-Ensures
            (apply_operation-Placed k u.equipped new addr bounded debug bits h' h below st.placed
              fits)
            (apply_operation-Amends s u.ready debug addr new h' below st.consistent))
          (get_state-apply_operation s u.ready debug addr new h' below st.consistent))

  -- Given circuits that are sound and that prove what is asked of them, and the data of
  -- AuxStateData::new: finalize of a state whose proofs are those of its objects comes to a new
  -- state without a panic, its proofs will do for those of later operations, and at each
  -- address the object before and after the block is the one that was there after it.
  pub finalize-Gives :
      {depth : ℕ} {aux : AuxStateData c} (bits : ℕ) (root : SparseMerkleBranch c) (debug : Bool)
      → Usable depth aux
      → Standing bits root
      → bits ≤ depth
      → bits < 64
      → Gives
          (λ root'.
            Placed k (suc bits) 0 (branch root')
            × ((b : ℕ) (objects : Objects c)
                → b < 2 ^ suc bits
                → get_state debug root b ≡ ok objects
                → get_state debug root' b ≡ ok (settle objects)))
          (finalize aux root)
  finalize-Gives bits root debug u st h h' =
      Gives-Ensures (finalize-Placed k u.equipped bits h st.placed)
        (get_state-finalize s u.ready debug h' st.consistent)

  -- Given circuits that are sound and that prove what is asked of them, and the data of
  -- AuxStateData::new: if no object was there before the block and is missing after it,
  -- finalize comes to a state whose proofs are those of its objects.
  pub finalize-Standing :
      {depth : ℕ} {aux : AuxStateData c} (bits : ℕ) (root : SparseMerkleBranch c)
      → Usable depth aux
      → Standing bits root
      → bits ≤ depth
      → ((b : ℕ)
          → b < 2 ^ suc bits
          → (view (branch root) b).1 ≡ none
          → (view (branch root) b).0 ≡ none)
      → Gives (Standing bits) (finalize aux root)
  finalize-Standing bits root u st h lasts =
      Gives-map (λ root' (placed, m). record { consistent = m.0; placed = placed })
        (Gives-Ensures (finalize-Placed k u.equipped bits h st.placed)
          (finalize-merkle_root s u.ready st.consistent lasts))

  -- Given circuits that are sound and that prove what is asked of them: AuxStateData::new, and
  -- State::new at a depth below 64 that it supports, come to a state whose proofs are those of
  -- its objects and that has no object at any address.
  pub new_aux-new_state-Gives :
      (debug : Bool) (max_tree_depth tree_depth : ℕ)
      → tree_depth ≤ max_tree_depth
      → tree_depth < 64
      → Gives
          (λ root.
            Standing tree_depth root
            × ((b : ℕ) → b < 2 ^ suc tree_depth → get_state debug root b ≡ ok (none, none)))
          (new_aux c max_tree_depth >>= λ aux. new_state c aux tree_depth)
  new_aux-new_state-Gives debug max_tree_depth tree_depth h h' =
      Gives-bind
        (Gives-Ensures (new_aux-Equipped k max_tree_depth) (new_aux-Ready s max_tree_depth))
        λ aux (equipped, ready).
          Gives-map (λ root (placed, m). (record { consistent = m.0; placed = placed }, m.1))
            (Gives-Ensures (new_state-Placed k tree_depth equipped h)
              (new_state-Consistent s ready debug tree_depth h'))

module _ {c : Circuits} (s : Sound c) where
  -- Two leaves, one not touched by the block and the other deleted by it.
  abbrev pub deletion : c.Proof → c.Proof → c.Proof → c.Object → c.Object → SparseMerkleBranch c
  deletion p pl pr x y =
      node 0 p (leaf (record { proof = pl; kind = unused x }))
        (leaf (record { proof = pr; kind = being_deleted y }))

  hashes_of :
      {h l r l' r' : c.Hash} → h ≡ s.hash_branch l r → l ≡ l' → r ≡ r' → h ≡ s.hash_branch l' r'
  hashes_of e e' e'' = cc

  -- Given sound circuits: a consistent branch of two leaves, of which the block deletes the
  -- right object and does not touch the left one, is finalized with its old proof. The right
  -- object reads as missing, so that the Merkle root of the objects has an empty right leaf,
  -- and the proof's old hash still has the deleted object.
  pub finalize-stale :
      (aux : AuxStateData c) (p pl pr : c.Proof) (x y : c.Object)
      → Consistent s 1 (branch (deletion p pl pr x y))
      → (root' : SparseMerkleBranch c) × (finalize aux (deletion p pl pr x y) ≡ ok root')
        × (get_state false root' 1 ≡ ok (none, none))
        × (merkle_root s 1 (λ b. (view (branch root') b).0)
            ≡ s.hash_branch (c.hash x) (c.hash c.default_object))
        × (c.old (branch_proof root') ≡ s.hash_branch (c.hash x) (c.hash y))
  unfolding finalize root finalize_branch get_state merkle_root view child_hash object_hash
  finalize-stale aux p pl pr x y (at_branch (at_leaf hl) (at_leaf hr) ho hf) =
      (_, refl, refl, refl, hashes_of ho hl.0 hr.0)
