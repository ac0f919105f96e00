-- ===== src/Node/State/Leaf.antt =====
-- node/src/block_proposer/state.rs: what `apply_operation_leaf` and `create_leaf_helper` do to the
-- objects of a leaf and to the hashes that its proof exposes.
use mozak_vm.Prelude.{Bool, true, false, Option, none, some, ◌≡◌, refl, ◌∙◌, Bool-cases, inl, inr}
use mozak_vm.Node.Outcome.{Outcome, ok, ◌>>=◌, ◌>>◌, assert, Ensures, returns, panics, Ensures-bind}
use mozak_vm.Node.Address.{Address}
use mozak_vm.Node.Circuits.{Circuits, Sound}
use mozak_vm.Node.State.{
  Operation, upsert, read, delete, LeafKind, delete_empty_leaf, read_empty_leaf, being_created,
  unused, being_deleted, being_read, being_updated, SparseMerkleLeaf, AuxStateData,
}
use mozak_vm.Node.State.Apply.{proved, apply_kind, create_leaf_helper}
use mozak_vm.Node.State.Finalize.{Objects, kind_objects}
use mozak_vm.Node.State.View.{object_hash, LeafHashes}
use mozak_vm.Node.State.Proofs.{Ready}

-- What an operation makes of the object at its address.
unfoldable pub result : {c : Circuits} → Operation c → Option c.Object → Option c.Object
result read o = o
result delete o = none
result (upsert object) o = some object

-- The object before the block stays; the one after it is the operation's result.
unfoldable pub amended : {c : Circuits} → Operation c → Objects c → Objects c
unfolding result
amended new (before, after) = (before, result new after)

module _ {c : Circuits} (s : Sound c) where
  -- a leaf whose proof exposes the hashes of `objects`, which are its own
  pub data Holds (objects : Objects c) : SparseMerkleLeaf c → Type 0 where
    holds :
        {p : c.Proof}
        → {kind : LeafKind c} → kind_objects kind ≡ objects
        → LeafHashes s p objects
        → Holds objects (record { proof = p; kind = kind })

  -- ...and which is as it was if the branches above are not proved again
  pub data HoldsOrKept (objects : Objects c) (proof : c.Proof)
      : SparseMerkleLeaf c × Bool → Type 0 where
    moved : {l : SparseMerkleLeaf c} → Holds objects l → HoldsOrKept objects proof (l, true)
    unmoved :
        {kind : LeafKind c}
        → Holds objects (record { proof = proof; kind = kind })
        → HoldsOrKept objects proof (record { proof = proof; kind = kind }, false)

module _ {c : Circuits} (s : Sound c) {aux : AuxStateData c} (ready : Ready s aux) where
  proved-Holds :
      {before after : Option c.Object} {old_hash new_hash : c.Hash} (addr : Address)
      (kind : LeafKind c)
      → kind_objects kind ≡ (before, after)
      → old_hash ≡ object_hash s before
      → new_hash ≡ object_hash s after
      → Ensures (Holds s (before, after)) (proved aux old_hash new_hash addr kind)
  unfolding proved
  proved-Holds addr kind shown old_is new_is =
      Ensures-bind (s.leaf_inputs _ _ (some addr))
        λ p (o, f). returns (holds shown (o ∙ old_is, f ∙ new_is))

  pub create_leaf_helper-Holds :
      (addr : Address) (new : Operation c)
      → Ensures (Holds s (amended new (none, none))) (create_leaf_helper aux addr new)
  unfolding create_leaf_helper amended kind_objects object_hash
  create_leaf_helper-Holds addr read =
      proved-Holds addr read_empty_leaf refl ready.empty_hash ready.empty_hash
  create_leaf_helper-Holds addr delete =
      proved-Holds addr delete_empty_leaf refl ready.empty_hash ready.empty_hash
  create_leaf_helper-Holds addr (upsert object) =
      proved-Holds addr (being_created object) refl ready.empty_hash refl

  changed-Holds :
      {objects : Objects c} {m : Outcome (SparseMerkleLeaf c)} (proof : c.Proof)
      → Ensures (Holds s objects) m
      → Ensures (HoldsOrKept s objects proof) (m >>= λ l. ok (l, true))
  changed-Holds proof h = Ensures-bind h λ l h. returns (moved h)

  -- a duplicate of the update that was made
  repeated :
      {before : Option c.Object} (proof : c.Proof) (kind : LeafKind c) (object new : c.Object)
      → kind_objects kind ≡ (before, some new)
      → LeafHashes s proof (before, some new)
      → Ensures
          (HoldsOrKept s (before, some object) proof)
          (assert (c.same_object object new) >> ok (record { proof = proof; kind = kind }, false))
  repeated proof kind object new shown h = elim (Bool-cases (c.same_object object new)) [
    | inl e ↦
        let same = s.same_sound object new e in rw e (rw same (returns (unmoved (holds shown h))))
    | inr e ↦ rw e panics
  ]

  pub apply_kind-Holds :
      (proof : c.Proof) (kind : LeafKind c) (addr : Address) (new : Operation c)
      → LeafHashes s proof (kind_objects kind)
      → Ensures
          (HoldsOrKept s (amended new (kind_objects kind)) proof)
          (apply_kind aux proof kind addr new)
  unfolding apply_kind amended kind_objects object_hash
  apply_kind-Holds proof (unused object) addr read h =
      changed-Holds proof (proved-Holds addr (being_read object) refl h.0 h.0)
  apply_kind-Holds proof delete_empty_leaf addr read h = returns (unmoved (holds refl h))
  apply_kind-Holds proof read_empty_leaf addr read h = returns (unmoved (holds refl h))
  apply_kind-Holds proof (being_created new) addr read h = returns (unmoved (holds refl h))
  apply_kind-Holds proof (being_deleted object) addr read h = returns (unmoved (holds refl h))
  apply_kind-Holds proof (being_read object) addr read h = returns (unmoved (holds refl h))
  apply_kind-Holds proof (being_updated before new) addr read h = returns (unmoved (holds refl h))
  apply_kind-Holds proof delete_empty_leaf addr delete h = returns (unmoved (holds refl h))
  apply_kind-Holds proof read_empty_leaf addr delete h = returns (unmoved (holds refl h))
  apply_kind-Holds proof (being_deleted object) addr delete h = returns (unmoved (holds refl h))
  apply_kind-Holds proof (unused object) addr delete h =
      changed-Holds proof (proved-Holds addr (being_deleted object) refl h.0 ready.empty_hash)
  apply_kind-Holds proof (being_read object) addr delete h =
      changed-Holds proof (proved-Holds addr (being_deleted object) refl h.0 ready.empty_hash)
  apply_kind-Holds proof (being_created new) addr delete h = panics
  apply_kind-Holds proof (being_updated before new) addr delete h = panics
  apply_kind-Holds proof read_empty_leaf addr (upsert object) h =
      changed-Holds proof (proved-Holds addr (being_created object) refl ready.empty_hash refl)
  apply_kind-Holds proof (unused object) addr (upsert new) h =
      changed-Holds proof (proved-Holds addr (being_updated object new) refl h.0 refl)
  apply_kind-Holds proof (being_read object) addr (upsert new) h =
      changed-Holds proof (proved-Holds addr (being_updated object new) refl h.0 refl)
  apply_kind-Holds proof (being_created new) addr (upsert object) h =
      repeated proof (being_created new) object new refl h
  apply_kind-Holds proof (being_updated before new) addr (upsert object) h =
      repeated proof (being_updated before new) object new refl h
  apply_kind-Holds proof delete_empty_leaf addr (upsert object) h = panics
  apply_kind-Holds proof (being_deleted before) addr (upsert object) h = panics
