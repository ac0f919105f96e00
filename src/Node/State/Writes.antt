-- ===== src/Node/State/Writes.antt =====
-- node/src/block_proposer/state.rs: the operations of a block on an object that was there before it.
use mozak_vm.Prelude.{
  ◌-◌, ◌^◌, ◌<◌, Bool, true, false, Option, none, some, List, [], ◌∷◌, ◌≡◌, refl, if◌then◌else◌,
  subst, sym,
}
use mozak_vm.Node.Outcome.{Outcome, ok, panic, ◌>>=◌, ◌>>◌, assert, Gives, gives, Gives-bind}
use mozak_vm.Node.Address.{Address}
use mozak_vm.Node.Circuits.{Circuits}
use mozak_vm.Node.State.{
  Operation, upsert, read, delete, LeafKind, unused, being_deleted, being_read, being_updated,
  SparseMerkleLeaf, AuxStateData,
}
use mozak_vm.Node.State.Apply.{proved, apply_kind, apply_operation_leaf}
use mozak_vm.Node.State.Finalize.{kind_objects}
use mozak_vm.Node.State.Complete.{Complete}

module _ {c : Circuits} where
  unfoldable only_deletes : List (Operation c) → Bool
  only_deletes [] = true
  only_deletes (read ∷ rest) = only_deletes rest
  only_deletes (delete ∷ rest) = only_deletes rest
  only_deletes (upsert object ∷ rest) = false

  unfoldable only_updates : c.Object → List (Operation c) → Bool
  only_updates new [] = true
  only_updates new (read ∷ rest) = only_updates new rest
  only_updates new (delete ∷ rest) = false
  only_updates new (upsert object ∷ rest) =
      let others = only_updates new rest in if c.same_object object new then others else false

  -- What the operations write is written by the first of them that does not only read.
  unfoldable pub one_write : List (Operation c) → Bool
  unfolding only_deletes only_updates
  one_write [] = true
  one_write (read ∷ rest) = one_write rest
  one_write (delete ∷ rest) = only_deletes rest
  one_write (upsert object ∷ rest) = only_updates object rest

  unfoldable pub written : c.Object → List (Operation c) → Option c.Object
  written object [] = some object
  written object (read ∷ rest) = written object rest
  written object (delete ∷ rest) = none
  written object (upsert new ∷ rest) = some new

  -- The outcome is a value that satisfies `P`, or a panic.
  abbrev pub Verdict : Bool → (SparseMerkleLeaf c → Type 0) → Outcome (SparseMerkleLeaf c) → Type 0
  Verdict true P m = Gives P m
  Verdict false P m = m ≡ panic

module _ {c : Circuits} (aux : AuxStateData c) where
  -- the operations on one leaf, in their order
  unfoldable pub apply_to_leaf :
      Address → List (Operation c) → SparseMerkleLeaf c → Outcome (SparseMerkleLeaf c)
  unfolding apply_operation_leaf
  apply_to_leaf addr [] l = ok l
  apply_to_leaf addr (new ∷ rest) l =
      apply_operation_leaf aux l addr new >>= λ (l', _). apply_to_leaf addr rest l'

  -- the object before and after the block
  abbrev pub Holds : Option c.Object → Option c.Object → SparseMerkleLeaf c → Type 0
  Holds before after l = kind_objects l.kind ≡ (before, after)

  Is : LeafKind c → SparseMerkleLeaf c → Type 0
  Is kind l = (p : c.Proof) × (l ≡ record { proof = p; kind = kind })

module _ {c : Circuits} (k : Complete c) (aux : AuxStateData c) (addr : Address)
    (bounded : addr < 2 ^ 64 - 2 ^ 32) where
  proved-Is :
      (before after : c.Hash) (kind : LeafKind c)
      → Gives (Is aux kind) (proved aux before after addr kind)
  unfolding proved Is
  proved-Is before after kind =
      Gives-bind (k.changed before after addr bounded) λ p _. gives (p, refl)

  module _ (object : c.Object) where
    deleted :
        (ops : List (Operation c)) (p : c.Proof)
        → Verdict
            (only_deletes ops)
            (Holds aux (some object) none)
            (apply_to_leaf aux addr ops (record { proof = p; kind = being_deleted object }))
    unfolding only_deletes apply_to_leaf kind_objects
    deleted [] p = gives refl
    deleted (read ∷ rest) p = deleted rest p
    deleted (delete ∷ rest) p = deleted rest p
    deleted (upsert new ∷ rest) p = refl

    updated :
        (new : c.Object) (ops : List (Operation c)) (p : c.Proof)
        → Verdict
            (only_updates new ops)
            (Holds aux (some object) (some new))
            (apply_to_leaf aux addr ops (record { proof = p; kind = being_updated object new }))
    unfolding only_updates apply_to_leaf kind_objects
    updated new [] p = gives refl
    updated new (read ∷ rest) p = updated new rest p
    updated new (delete ∷ rest) p = refl
    updated new (upsert x ∷ rest) p = go (c.same_object x new) (updated new rest p)
      where
        go :
            (b : Bool)
            → Verdict (only_updates new rest) (Holds aux (some object) (some new)) (
                apply_to_leaf aux addr rest (record { proof = p; kind = being_updated object new }))
            → Verdict
                (if b then only_updates new rest else false)
                (Holds aux (some object) (some new))
                ((assert b >> ok (record { proof = p; kind = being_updated object new }, false))
                  >>= λ (x : SparseMerkleLeaf c × Bool). apply_to_leaf aux addr rest x.0)
        go true h = h
        go false h = refl

    -- a step to a leaf of another kind
    becomes :
        (b : Bool) (before after : c.Hash) (kind : LeafKind c) (rest : List (Operation c))
        (P : SparseMerkleLeaf c → Type 0)
        → ((p : c.Proof)
            → Verdict b P (apply_to_leaf aux addr rest (record { proof = p; kind = kind })))
        → Verdict b P (
            (proved aux before after addr kind >>= λ l. ok (l, true)) >>= λ (l', _).
            apply_to_leaf aux addr rest l')
    unfolding Is
    becomes b before after kind rest P next = go (proved-Is before after kind)
      where
        go :
            {m : Outcome (SparseMerkleLeaf c)}
            → Gives (Is aux kind) m
            → Verdict b P ((m >>= λ l. ok (l, true)) >>= λ (l', _). apply_to_leaf aux addr rest l')
        go (gives (p, e)) =
            subst (λ l. Verdict b P (apply_to_leaf aux addr rest l)) (sym e) (next p)

    looked_at :
        (ops : List (Operation c)) (p : c.Proof)
        → Verdict
            (one_write ops)
            (Holds aux (some object) (written object ops))
            (apply_to_leaf aux addr ops (record { proof = p; kind = being_read object }))
    unfolding one_write written apply_to_leaf kind_objects apply_kind
    looked_at [] p = gives refl
    looked_at (read ∷ rest) p = looked_at rest p
    looked_at (delete ∷ rest) p = becomes (only_deletes rest) _ _ _ rest _ (deleted rest)
    looked_at (upsert new ∷ rest) p =
        becomes (only_updates new rest) _ _ _ rest _ (updated new rest)

    -- Given circuits that prove what is asked of them: the operations of a block on a leaf
    -- whose object the block has not touched yet, at an address that the field can hold, come
    -- to a leaf without a panic, or to a panic. They come to a leaf if the first operation that
    -- is not a read is a deletion and no update follows it, or an update and no deletion and
    -- only updates to the same object follow it, or there is none; the leaf has the object
    -- before the block, and after it none, the new one, or the same. In every other case they
    -- panic.
    pub apply_to_leaf-Verdict :
        (ops : List (Operation c)) (p : c.Proof)
        → Verdict
            (one_write ops)
            (Holds aux (some object) (written object ops))
            (apply_to_leaf aux addr ops (record { proof = p; kind = unused object }))
    unfolding one_write written apply_to_leaf kind_objects apply_kind
    apply_to_leaf-Verdict [] p = gives refl
    apply_to_leaf-Verdict (read ∷ rest) p = becomes (one_write rest) _ _ _ rest _ (looked_at rest)
    apply_to_leaf-Verdict (delete ∷ rest) p =
        becomes (only_deletes rest) _ _ _ rest _ (deleted rest)
    apply_to_leaf-Verdict (upsert new ∷ rest) p =
        becomes (only_updates new rest) _ _ _ rest _ (updated new rest)
