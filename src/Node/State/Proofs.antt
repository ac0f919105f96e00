-- ===== src/Node/State/Proofs.antt =====
-- node/src/block_proposer/state.rs: the proofs that `recalc_branch_helper` and `AuxStateData::new`
-- build expose the hashes of what they stand for.
use mozak_vm.Prelude.{ℕ, zero, suc, none, some, ◌≡◌, refl, ◌∙◌, sym, get_elem?, List, [], ◌∷◌}
use mozak_vm.Node.Outcome.{Ensures, returns, Ensures-bind, Ensures-map, Ensures-found}
use mozak_vm.Node.Circuits.{Circuits, Sound}
use mozak_vm.Node.State.{Child, AuxStateData, circuits_from, empty_proofs, new_aux}
use mozak_vm.Node.State.Apply.{empty_branch, prove_children, recalc_branch_helper}
use mozak_vm.Node.State.View.{
  empty_root, child_hash, Hashes, Consistent, nothing, at_leaf, at_branch,
}

module _ {c : Circuits} (s : Sound c) where
  -- the two hashes that a proof exposes
  abbrev pub Exposes : c.Hash → c.Hash → c.Proof → Type 0
  Exposes before after p = (c.old p ≡ before) × (c.fresh p ≡ after)

  -- The empty proofs stand for empty trees, and there is one below each circuit.
  pub record Ready (aux : AuxStateData c) : Type 0 where
    pub empty_hash : aux.empty_leaf_hash ≡ c.hash c.default_object
    pub empty_leaf : Exposes (empty_root s 0) (empty_root s 0) aux.empty_leaf_proof
    pub empty_branch :
        (h : ℕ) (e : c.Proof)
        → get_elem? aux.empty_branch_proofs h ≡ some e
        → Exposes (empty_root s (suc h)) (empty_root s (suc h)) e
    pub covered :
        (h : ℕ) (k : c.BranchCircuit)
        → get_elem? aux.branch_circuits (suc h) ≡ some k
        → (e : c.Proof) × (get_elem? aux.empty_branch_proofs h ≡ some e)

  pub joined :
      {lb la rb ra : c.Hash} (k : c.BranchCircuit) (x y : c.Proof)
      → Exposes lb la x
      → Exposes rb ra y
      → Ensures (Exposes (s.hash_branch lb rb) (s.hash_branch la ra)) (c.prove_branch k x y)
  joined k x y (ox, fx) (oy, fy) = Ensures-map (λ p (ho, hf). (cc, cc)) (s.branch_inputs k x y)

module _ {c : Circuits} (s : Sound c) {aux : AuxStateData c} (ready : Ready s aux) where
  abbrev Joins : ℕ → Child c → Child c → c.Proof → Type 0
  Joins bits l r p = Hashes s c.old bits p l r × Hashes s c.fresh bits p l r

  -- `recalc_branch_helper` proves the hash of the two children.
  prove_children_lem :
      {bits : ℕ} {l r : Child c} (k : c.BranchCircuit)
      → get_elem? aux.branch_circuits bits ≡ some k
      → Consistent s bits l
      → Consistent s bits r
      → Ensures (Joins bits l r) (prove_children aux k (empty_branch aux bits) l r)
  unfolding prove_children child_hash empty_branch
  prove_children_lem {bits = zero} k found nothing nothing =
      joined s k _ _ ready.empty_leaf ready.empty_leaf
  prove_children_lem {bits = suc bits} k found nothing nothing =
      let (e, there) = ready.covered bits k found in
      let empty = ready.empty_branch bits e there in rw there (joined s k _ _ empty empty)
  prove_children_lem k found nothing (at_leaf _) = joined s k _ _ ready.empty_leaf (refl, refl)
  prove_children_lem k found nothing (at_branch {bits = bits} _ _ _ _) =
      let (e, there) = ready.covered bits k found in
      rw there (joined s k _ _ (ready.empty_branch bits e there) (refl, refl))
  prove_children_lem k found (at_leaf _) nothing = joined s k _ _ (refl, refl) ready.empty_leaf
  prove_children_lem k found (at_leaf _) (at_leaf _) = joined s k _ _ (refl, refl) (refl, refl)
  prove_children_lem k found (at_branch {bits = bits} _ _ _ _) nothing =
      let (e, there) = ready.covered bits k found in
      rw there (joined s k _ _ (refl, refl) (ready.empty_branch bits e there))
  prove_children_lem k found (at_branch _ _ _ _) (at_branch _ _ _ _) =
      joined s k _ _ (refl, refl) (refl, refl)

  pub recalc_branch_helper-Joins :
      {bits : ℕ} {l r : Child c}
      → Consistent s bits l
      → Consistent s bits r
      → Ensures (Joins bits l r) (recalc_branch_helper aux bits l r)
  unfolding recalc_branch_helper
  recalc_branch_helper-Joins {bits = bits} hl hr =
      Ensures-bind (Ensures-found (get_elem? aux.branch_circuits bits))
        λ k found. prove_children_lem k found hl hr

-- `AuxStateData::new` builds what the tree needs.
module _ {c : Circuits} (s : Sound c) where
  record Covers (root : ℕ → c.Hash) (circuits : List c.BranchCircuit) (proofs : List c.Proof)
      : Type 0 where
    pub expose :
        (h : ℕ) (e : c.Proof)
        → get_elem? proofs h ≡ some e
        → Exposes s (root (suc h)) (root (suc h)) e
    pub enough :
        (h : ℕ) (k : c.BranchCircuit)
        → get_elem? circuits (suc h) ≡ some k
        → (e : c.Proof) × (get_elem? proofs h ≡ some e)

  none_covered : (root : ℕ → c.Hash) → Covers root [] []
  none_covered root = record { expose = λ h e found. cc; enough = λ h k found. cc }

  one_more :
      {root : ℕ → c.Hash} {k : c.BranchCircuit} {circuits : List c.BranchCircuit} {p : c.Proof}
      {proofs : List c.Proof}
      → Exposes s (root 1) (root 1) p
      → Covers (λ n. root (suc n)) circuits proofs
      → Covers root (k ∷ circuits) (p ∷ proofs)
  one_more {root = root} {circuits = circuits} {p = p} {proofs = proofs} first rest = record {
    expose = expose;
    enough = enough;
  }
    where
      expose :
          (h : ℕ) (e : c.Proof)
          → get_elem? (p ∷ proofs) h ≡ some e
          → Exposes s (root (suc h)) (root (suc h)) e
      expose zero e found = let (b, a) = first in (cc, cc)
      expose (suc h) e found = rest.expose h e found

      enough :
          (h : ℕ) (k' : c.BranchCircuit)
          → get_elem? circuits h ≡ some k'
          → (e : c.Proof) × (get_elem? (p ∷ proofs) h ≡ some e)
      enough zero k' found = (p, refl)
      enough (suc h) k' found = rest.enough h k' found

  empty_proofs-Covers :
      (root : ℕ → c.Hash) (p : c.Proof) (circuits : List c.BranchCircuit)
      → ((n : ℕ) → root (suc n) ≡ s.hash_branch (root n) (root n))
      → Exposes s (root 0) (root 0) p
      → Ensures (Covers root circuits) (empty_proofs c p circuits)
  unfolding empty_proofs
  empty_proofs-Covers root p [] grow h = returns (none_covered root)
  empty_proofs-Covers root p (k ∷ circuits) grow h =
      Ensures-bind (joined s k p p h h) λ above (b, a).
        let first : Exposes s (root 1) (root 1) above = (b ∙ sym (grow 0), a ∙ sym (grow 0)) in
        Ensures-bind
          (empty_proofs-Covers (λ n. root (suc n)) above circuits (λ n. grow (suc n)) first)
          λ rest covers. returns (one_more first covers)

  pub new_aux-Ready : (max_tree_depth : ℕ) → Ensures (Ready s) (new_aux c max_tree_depth)
  unfolding new_aux empty_root
  new_aux-Ready max_tree_depth =
      let empty = c.hash c.default_object in
      let circuits = circuits_from c (suc max_tree_depth) c.from_leaf in
      Ensures-bind (s.leaf_inputs empty empty none) λ p exposes.
        Ensures-bind (empty_proofs-Covers (empty_root s) p circuits (λ n. refl) exposes)
          λ proofs covers. returns (record {
            empty_hash = refl;
            empty_leaf = exposes;
            empty_branch = covers.expose;
            covered = covers.enough;
          })
