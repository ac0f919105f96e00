-- ===== src/Node/State/Begins.antt =====
-- node/src/block_proposer/state.rs: `AuxStateData::new`, `State::new` and `finalize` come to a value.
use mozak_vm.Prelude.{
  ℕ, zero, suc, ◌+◌, ◌*◌, ◌≤◌, ◌<◌, true, none, some, List, ◌∷◌, get_elem?, leb, ◌≡◌, refl, sym,
  arith,
}
use mozak_vm.Node.Outcome.{Gives, gives, Gives-bind}
use mozak_vm.Node.Address.{left, right, BranchAddress, Descent, child, root}
use mozak_vm.Node.Circuits.{Circuits}
use mozak_vm.Node.State.{
  LeafKind, delete_empty_leaf, read_empty_leaf, being_created, unused, being_deleted, being_read,
  being_updated, SparseMerkleBranch, node, Child, branch, leaf, AuxStateData, FinalizeOutcome,
  prune, recalc, no_op, circuits_from, empty_proofs, new_aux, new_state,
}
use mozak_vm.Node.State.Finalize.{
  finalize_kind, finalize_leaf, settled, recalculated, finalize_branch, finalize_child, finalize,
  kept_child,
}
use mozak_vm.Node.State.Complete.{
  circuit_at, neither, Complete, Equipped, ValidAt, unchanged, Placed, no_child, leaf_at, branch_at,
  recalc_branch_helper-ValidAt,
}
use mozak_vm.Node.State.Settled.{At, at_bottom, at_inner, child-At}

module _ {c : Circuits} (k : Complete c) {depth : ℕ} {aux : AuxStateData c}
    (ready : Equipped k depth aux) where
  settled-Placed :
      (q : ℕ) (hash : c.Hash) (object : c.Object)
      → Gives (λ x. Placed k 0 q (kept_child aux (leaf x.0) x.1).0) (settled aux hash object)
  unfolding settled
  settled-Placed q hash object = Gives-bind (k.same hash) λ p v. gives (leaf_at (unchanged v))

  finalize_kind-Placed :
      (q : ℕ) (p : c.Proof) (kind : LeafKind c)
      → ValidAt k 0 q p
      → Gives (λ x. Placed k 0 q (kept_child aux (leaf x.0) x.1).0) (finalize_kind aux p kind)
  unfolding finalize_kind
  finalize_kind-Placed q p (unused object) v = gives (leaf_at v)
  finalize_kind-Placed q p delete_empty_leaf v = gives no_child
  finalize_kind-Placed q p read_empty_leaf v = gives no_child
  finalize_kind-Placed q p (being_deleted object) v = gives no_child
  finalize_kind-Placed q p (being_created new) v = settled-Placed q _ new
  finalize_kind-Placed q p (being_updated before new) v = settled-Placed q _ new
  finalize_kind-Placed q p (being_read object) v = settled-Placed q _ object

  recalculated-Placed :
      (bits q : ℕ) {p : c.Proof} {l r : Child c} (o : FinalizeOutcome c)
      → bits ≤ depth
      → Placed k bits (2 * q) l
      → Placed k bits (2 * q + 1) r
      → ValidAt k (suc bits) q p
      → Gives (λ x. Placed k (suc bits) q (branch x.0)) (recalculated aux bits p l r o)
  unfolding recalculated
  recalculated-Placed bits q recalc h hl hr v =
      Gives-bind (recalc_branch_helper-ValidAt k ready bits q h hl hr)
        λ p' v'. gives (branch_at hl hr v')
  recalculated-Placed bits q prune h hl hr v = gives (branch_at hl hr v)
  recalculated-Placed bits q no_op h hl hr v = gives (branch_at hl hr v)

  kept-Placed :
      {bits q : ℕ} {b : SparseMerkleBranch c} (o : FinalizeOutcome c)
      → Placed k bits q (branch b)
      → Placed k bits q (kept_child aux (branch b) o).0
  kept-Placed prune h = no_child
  kept-Placed recalc h = h
  kept-Placed no_op h = h

  finalize_branch-Placed :
      (bits q : ℕ) {p : c.Proof} (l r : Child c) (addr : BranchAddress)
      → bits ≤ depth
      → ValidAt k (suc bits) q p
      → Gives (λ x. Placed k bits (2 * q) x.0) (finalize_child aux l (child addr left))
      → Gives (λ x. Placed k bits (2 * q + 1) x.0) (finalize_child aux r (child addr right))
      → Gives (λ x. Placed k (suc bits) q (branch x.0)) (finalize_branch aux (node bits p l r) addr)
  unfolding finalize_branch
  finalize_branch-Placed bits q l r addr h v hl hr =
      Gives-bind hl
        λ (l', o) hl'. Gives-bind hr λ (r', o') hr'. recalculated-Placed bits q _ h hl' hr' v

  finalize_child-Placed :
      {bits q : ℕ} {t : Child c} {d : Descent}
      → bits ≤ suc depth
      → Placed k bits q t
      → At bits d
      → Gives (λ x. Placed k bits q x.0) (finalize_child aux t d)
  unfolding finalize_branch finalize_leaf
  finalize_child-Placed h no_child at = gives no_child
  finalize_child-Placed {q = q} h (leaf_at {l = l} v) at_bottom =
      Gives-bind (finalize_kind-Placed q l.proof l.kind v) λ x placed. gives placed
  finalize_child-Placed h (branch_at {bits = bits} {q = q} {l = l} {r = r} hl hr v)
        (at_inner {addr = addr} e) =
      Gives-bind
        (finalize_branch-Placed bits q l r addr (omega arith) v
          (finalize_child-Placed (omega arith) hl (child-At bits addr left e))
          (finalize_child-Placed (omega arith) hr (child-At bits addr right e)))
        λ (b, o) placed. gives (kept-Placed o placed)

  pub finalize-Placed :
      (bits : ℕ) {root : SparseMerkleBranch c}
      → bits ≤ depth
      → Placed k (suc bits) 0 (branch root)
      → Gives (λ root'. Placed k (suc bits) 0 (branch root')) (finalize aux root)
  unfolding finalize root
  finalize-Placed bits h (branch_at {l = l} {r = r} hl hr v) =
      Gives-bind
        (finalize_branch-Placed bits 0 l r (root bits) h v
          (finalize_child-Placed (omega arith) hl (child-At bits (root bits) left refl))
          (finalize_child-Placed (omega arith) hr (child-At bits (root bits) right refl)))
        λ (b, o) placed. gives placed

module _ (c : Circuits) where
  circuits_from-get :
      (f : ℕ → c.BranchCircuit) (n i : ℕ)
      → ((j : ℕ) → f (suc j) ≡ c.from_branch (f j))
      → i < n
      → get_elem? (circuits_from c n (f 0)) i ≡ some (f i)
  unfolding circuits_from
  circuits_from-get f zero i grow h = absurd (omega arith)
  circuits_from-get f (suc n) zero grow h = refl
  circuits_from-get f (suc n) (suc i) grow h =
      rw (sym (grow 0)) (circuits_from-get (λ j. f (suc j)) n i (λ j. grow (suc j)) (omega arith))

  -- an empty proof of each level below `n`
  abbrev Empties : (ℕ → c.Proof → Type 0) → ℕ → List c.Proof → Type 0
  Empties V n proofs = (i : ℕ) → i < n → (e : c.Proof) × (get_elem? proofs i ≡ some e) × V (suc i) e

  Empties-more :
      (V : ℕ → c.Proof → Type 0) (n : ℕ) (e : c.Proof) (proofs : List c.Proof)
      → V 1 e
      → Empties (λ i. V (suc i)) n proofs
      → Empties V (suc n) (e ∷ proofs)
  Empties-more V n e proofs v rest zero h = (e, refl, v)
  Empties-more V n e proofs v rest (suc i) h = rest i (omega arith)

  empty_proofs-Empties :
      (V : ℕ → c.Proof → Type 0) (f : ℕ → c.BranchCircuit) (n : ℕ) (p : c.Proof)
      → ((j : ℕ) → f (suc j) ≡ c.from_branch (f j))
      → ((j : ℕ) (e : c.Proof) → V j e → Gives (V (suc j)) (c.prove_branch (f j) e e))
      → V 0 p
      → Gives (Empties V n) (empty_proofs c p (circuits_from c n (f 0)))
  unfolding empty_proofs circuits_from
  empty_proofs-Empties V f zero p grow step v = gives λ i h. absurd (omega arith)
  empty_proofs-Empties V f (suc n) p grow step v = Gives-bind (step 0 p v) λ e w.
      rw (sym (grow 0)) (
        Gives-bind
          (empty_proofs-Empties (λ i. V (suc i)) (λ j. f (suc j)) n e (λ j. grow (suc j))
            (λ j. step (suc j)) w)
          λ proofs rest. gives (Empties-more V n e proofs w rest))

leb_of_le : (a b : ℕ) → a ≤ b → leb a b ≡ true
leb_of_le a b h = ground arith

module _ {c : Circuits} where
  pub new_aux-Equipped :
      (k : Complete c) (max_tree_depth : ℕ)
      → Gives (Equipped k max_tree_depth) (new_aux c max_tree_depth)
  unfolding new_aux circuit_at
  new_aux-Equipped k max_tree_depth =
      let empty = c.hash c.default_object in
      let n = suc max_tree_depth in
      Gives-bind (k.same empty) λ p v.
        Gives-bind
          (empty_proofs-Empties c (λ i. k.Valid i none) (circuit_at c) n p (λ j. refl)
            (λ j e w. k.joined j 0 e e none none none neither w w) v)
          λ proofs empties. gives (record {
            supported = refl;
            empty_leaf = v;
            circuits =
                λ bits h. circuits_from-get c (circuit_at c) n bits (λ j. refl) (omega arith);
            empties = λ bits h. empties bits (omega arith);
          })

  pub new_state-Placed :
      (k : Complete c) {depth : ℕ} {aux : AuxStateData c} (tree_depth : ℕ)
      → Equipped k depth aux
      → tree_depth ≤ depth
      → Gives (λ root. Placed k (suc tree_depth) 0 (branch root)) (new_state c aux tree_depth)
  unfolding new_state
  new_state-Placed k {aux = aux} tree_depth ready h =
      let (e, found, v) = ready.empties tree_depth h in
      rw (leb_of_le tree_depth aux.max_tree_depth (omega (arith, h, ready.supported)))
        (rw found (gives (branch_at no_child no_child (unchanged v))))
