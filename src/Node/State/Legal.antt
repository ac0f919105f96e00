-- ===== src/Node/State/Legal.antt =====
-- node/src/block_proposer/state.rs: which operations a leaf takes, and that the tree takes them.

use mozak_vm.Prelude.{ℕ, ◌-◌, ◌%◌, ◌^◌, ◌<◌, Bool, true, false, ◌≡◌}
use mozak_vm.Node.Outcome.{Outcome, ok, ◌>>=◌, Gives, gives, Gives-bind}
use mozak_vm.Node.Address.{Address}
use mozak_vm.Node.Address.Paths.{side}
use mozak_vm.Node.Circuits.{Circuits}
use mozak_vm.Node.State.{
  Operation, upsert, read, delete, LeafKind, delete_empty_leaf, read_empty_leaf, being_created,
  unused, being_deleted, being_read, being_updated, SparseMerkleLeaf, node, Child, absent, branch,
  leaf, AuxStateData,
}
use mozak_vm.Node.State.Apply.{proved, apply_kind, create_leaf_helper}
use mozak_vm.Node.State.View.{choose}
use mozak_vm.Node.State.Complete.{Complete, ValidAt, with_changes}

module _ {c : Circuits} where
  -- Not after a deletion in the block, no deletion after an update, and updates repeat the first.
  unfoldable pub legal_kind : LeafKind c → Operation c → Bool
  legal_kind kind read = true
  legal_kind (being_created new) delete = false
  legal_kind (being_updated before new) delete = false
  legal_kind delete_empty_leaf delete = true
  legal_kind read_empty_leaf delete = true
  legal_kind (unused object) delete = true
  legal_kind (being_deleted object) delete = true
  legal_kind (being_read object) delete = true
  legal_kind delete_empty_leaf (upsert object) = false
  legal_kind (being_deleted before) (upsert object) = false
  legal_kind read_empty_leaf (upsert object) = true
  legal_kind (unused before) (upsert object) = true
  legal_kind (being_read before) (upsert object) = true
  legal_kind (being_created new) (upsert object) = c.same_object object new
  legal_kind (being_updated before new) (upsert object) = c.same_object object new

  -- ...at an address of the tree
  unfoldable pub legal_at : Child c → ℕ → Operation c → Bool
  unfolding side choose legal_kind
  legal_at absent a new = true
  legal_at (leaf l) a new = legal_kind l.kind new
  legal_at (branch (node h p l r)) a new =
      choose (side a h) (legal_at l (a % 2 ^ h) new) (legal_at r (a % 2 ^ h) new)

module _ {c : Circuits} (k : Complete c) where
  abbrev pub LeafAt : ℕ → SparseMerkleLeaf c × Bool → Type 0
  LeafAt addr x = ValidAt k 0 addr x.0.proof

  changed-ValidAt :
      {addr : ℕ} {m : Outcome (SparseMerkleLeaf c)}
      → Gives (λ l. ValidAt k 0 addr l.proof) m
      → Gives (LeafAt addr) (m >>= λ l. ok (l, true))
  changed-ValidAt h = Gives-bind h λ l v. gives v

module _ {c : Circuits} (k : Complete c) (aux : AuxStateData c) (addr : Address)
    (bounded : addr < 2 ^ 64 - 2 ^ 32) where
  proved-ValidAt :
      (before after : c.Hash) (kind : LeafKind c)
      → Gives (λ l. ValidAt k 0 addr l.proof) (proved aux before after addr kind)
  unfolding proved
  proved-ValidAt before after kind =
      Gives-bind (k.changed before after addr bounded) λ p v. gives (with_changes v)

  pub create_leaf_helper-ValidAt :
      (new : Operation c) → Gives (λ l. ValidAt k 0 addr l.proof) (create_leaf_helper aux addr new)
  unfolding create_leaf_helper
  create_leaf_helper-ValidAt read = proved-ValidAt _ _ _
  create_leaf_helper-ValidAt delete = proved-ValidAt _ _ _
  create_leaf_helper-ValidAt (upsert object) = proved-ValidAt _ _ _

  pub apply_kind-ValidAt :
      (proof : c.Proof) (kind : LeafKind c) (new : Operation c)
      → ValidAt k 0 addr proof
      → legal_kind kind new ≡ true
      → Gives (LeafAt k addr) (apply_kind aux proof kind addr new)
  unfolding apply_kind legal_kind
  apply_kind-ValidAt proof (unused object) read v e = changed-ValidAt k (proved-ValidAt _ _ _)
  apply_kind-ValidAt proof delete_empty_leaf read v e = gives v
  apply_kind-ValidAt proof read_empty_leaf read v e = gives v
  apply_kind-ValidAt proof (being_created new) read v e = gives v
  apply_kind-ValidAt proof (being_deleted object) read v e = gives v
  apply_kind-ValidAt proof (being_read object) read v e = gives v
  apply_kind-ValidAt proof (being_updated before new) read v e = gives v
  apply_kind-ValidAt proof delete_empty_leaf delete v e = gives v
  apply_kind-ValidAt proof read_empty_leaf delete v e = gives v
  apply_kind-ValidAt proof (being_deleted object) delete v e = gives v
  apply_kind-ValidAt proof (unused object) delete v e = changed-ValidAt k (proved-ValidAt _ _ _)
  apply_kind-ValidAt proof (being_read object) delete v e = changed-ValidAt k (proved-ValidAt _ _ _)
  apply_kind-ValidAt proof (being_created new) delete v e = cc
  apply_kind-ValidAt proof (being_updated before new) delete v e = cc
  apply_kind-ValidAt proof read_empty_leaf (upsert object) v e =
      changed-ValidAt k (proved-ValidAt _ _ _)
  apply_kind-ValidAt proof (unused object) (upsert new) v e =
      changed-ValidAt k (proved-ValidAt _ _ _)
  apply_kind-ValidAt proof (being_read object) (upsert new) v e =
      changed-ValidAt k (proved-ValidAt _ _ _)
  apply_kind-ValidAt proof (being_created new) (upsert object) v e = rw e (gives v)
  apply_kind-ValidAt proof (being_updated before new) (upsert object) v e = rw e (gives v)
  apply_kind-ValidAt proof delete_empty_leaf (upsert object) v e = cc
  apply_kind-ValidAt proof (being_deleted before) (upsert object) v e = cc
