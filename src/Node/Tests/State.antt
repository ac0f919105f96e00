-- ===== src/Node/Tests/State.antt =====
-- A state of two levels with objects at two addresses.
use mozak_vm.Prelude.{
  ℕ, ◌%◌, ◌^◌, ◌<◌, true, false, Option, none, some, List, [], ◌∷◌, ◌≡◌, refl, arith,
}
use mozak_vm.Node.Outcome.{ok, ◌>>=◌, Ensures, Ensures-ok, Gives, Gives-ok}
use mozak_vm.Node.Address.{Dir, left, right, Address}
use mozak_vm.Node.Address.Paths.{side}
use mozak_vm.Node.State.{
  Operation, upsert, read, being_created, unused, being_deleted, SparseMerkleBranch, node, absent,
  branch, leaf, AuxStateData, branch_proof, new_aux, new_state,
}
use mozak_vm.Node.State.Apply.{apply_operation}
use mozak_vm.Node.State.Finalize.{Objects, kind_objects, get_state, finalize}
use mozak_vm.Node.State.View.{
  view, choose, object_hash, child_hash, merkle_root, Consistent, at_leaf, at_branch,
}
use mozak_vm.Node.State.Proofs.{new_aux-Ready}
use mozak_vm.Node.State.Amends.{amended_at}
use mozak_vm.Node.State.Settled.{settle}
use mozak_vm.Node.State.Complete.{Placed}
use mozak_vm.Node.State.Legal.{legal_at}
use mozak_vm.Node.State.Writes.{one_write, written, Holds, apply_to_leaf, apply_to_leaf-Verdict}
use mozak_vm.Node.State.Begins.{new_aux-Equipped}
use mozak_vm.Node.State.Promises.{
  Usable, Standing, apply_operation-Gives, finalize-Gives, finalize-Standing,
  new_aux-new_state-Gives, deletion, finalize-stale,
}
use mozak_vm.Node.State.Block.{apply_operations, Within, amended_by, apply_operations-merkle_root}
use mozak_vm.Node.Tests.Toy.{toy, toy_sound, toy_complete, Inputs}

abbrev two_levels : AuxStateData toy
two_levels = record {
  max_tree_depth = 1;
  empty_leaf_hash = 1;
  branch_circuits = tt ∷ tt ∷ [];
  empty_leaf_proof = record { before = 1; after = 1; address = none };
  empty_branch_proofs =
      record { before = 9; after = 9; address = none }
      ∷ record { before = 73; after = 73; address = none }
      ∷ [];
}

built : new_aux toy 1 ≡ ok two_levels
unfolding new_aux
built = refl

usable : Usable toy_sound toy_complete 1 two_levels
usable = record {
  ready = Ensures-ok (new_aux-Ready toy_sound 1) built;
  equipped = Gives-ok (new_aux-Equipped toy_complete 1) built;
}

abbrev first_root : SparseMerkleBranch toy
first_root = node 1 (record { before = 73; after = 73; address = none }) absent absent

started : (new_aux toy 1 >>= λ aux. new_state toy aux 1) ≡ ok first_root
unfolding new_aux new_state
started = refl

first_Standing : Standing toy_sound toy_complete 1 first_root
first_Standing =
    (Gives-ok (new_aux-new_state-Gives toy_sound toy_complete true 1 1 (omega arith) (omega arith))
      started).0

-- ...with the object 7 created at the address 1
abbrev second_root : SparseMerkleBranch toy
second_root =
    node 1 (record { before = 73; after = 178; address = some 0 })
      (branch (
        node 0 (record { before = 9; after = 44; address = some 0 }) absent
          (leaf (record {
            proof = record { before = 1; after = 8; address = some 1 };
            kind = being_created 7;
          }))))
      absent

created : apply_operation two_levels true first_root 1 (upsert 7) ≡ ok second_root
unfolding apply_operation
created = refl

second_Standing : Standing toy_sound toy_complete 1 second_root
unfolding legal_at
second_Standing =
    (Gives-ok
      (apply_operation-Gives toy_sound toy_complete 1 first_root true 1 (upsert 7) usable
        first_Standing (omega arith) (omega arith) (omega arith) (omega arith) refl)
      created).0

apply_operation-Gives_example :
    Gives
      (λ root'.
        Standing toy_sound toy_complete 1 root'
        × ((b : ℕ) (objects : Objects toy)
            → b < 2 ^ 2
            → get_state true second_root b ≡ ok objects
            → get_state true root' b ≡ ok (amended_at toy_sound (upsert 5) 2 b objects)))
      (apply_operation two_levels true second_root 2 (upsert 5))
unfolding legal_at
apply_operation-Gives_example =
    apply_operation-Gives toy_sound toy_complete 1 second_root true 2 (upsert 5) usable
      second_Standing (omega arith) (omega arith) (omega arith) (omega arith) refl

finalize-Gives_example :
    Gives
      (λ root'.
        Placed toy_complete 2 0 (branch root')
        × ((b : ℕ) (objects : Objects toy)
            → b < 2 ^ 2
            → get_state true second_root b ≡ ok objects
            → get_state true root' b ≡ ok (settle objects)))
      (finalize two_levels second_root)
finalize-Gives_example =
    finalize-Gives toy_sound toy_complete 1 second_root true usable second_Standing (omega arith)
      (omega arith)

none_first : (d : Dir) (x y : Objects toy) → x.0 ≡ none → y.0 ≡ none → (choose d x y).0 ≡ none
unfolding choose
none_first left x y e e' = e
none_first right x y e e' = e'

nothing_before :
    (b : ℕ)
    → b < 2 ^ 2
    → (view (branch second_root) b).1 ≡ none
    → (view (branch second_root) b).0 ≡ none
unfolding view
nothing_before b below e =
    none_first (side b 1) _ _ (none_first (side (b % 2 ^ 1) 0) _ _ refl refl) refl

finalize-Standing_example :
    Gives (Standing toy_sound toy_complete 1) (finalize two_levels second_root)
finalize-Standing_example =
    finalize-Standing toy_sound toy_complete 1 second_root usable second_Standing (omega arith)
      nothing_before

new_aux-new_state-Gives_example :
    Gives
      (λ root.
        Standing toy_sound toy_complete 1 root
        × ((b : ℕ) → b < 2 ^ 2 → get_state true root b ≡ ok (none, none)))
      (new_aux toy 3 >>= λ aux. new_state toy aux 1)
new_aux-new_state-Gives_example =
    new_aux-new_state-Gives toy_sound toy_complete true 3 1 (omega arith) (omega arith)

abbrev two_operations : List (Address × Operation toy)
two_operations = (1, upsert 7) ∷ (2, read) ∷ []

apply_operations-merkle_root_example :
    Ensures
      (λ root'.
        (toy.old (branch_proof root') ≡ 73)
        × (toy.fresh (branch_proof root')
            ≡ merkle_root toy_sound 2
                (λ b. (amended_by toy_sound two_operations b (view (branch first_root) b)).1)))
      (apply_operations two_levels true first_root two_operations)
unfolding Within
apply_operations-merkle_root_example =
    apply_operations-merkle_root toy_sound usable.ready true two_operations (omega arith)
      (omega arith, (omega arith, tt)) first_Standing.consistent

-- A read, an update, and the same update once more; then an update after a deletion.
apply_to_leaf-Verdict_example : Gives (Holds two_levels (some 5) (some 7)) (
    apply_to_leaf two_levels 1
      (read ∷ upsert 7 ∷ read ∷ upsert 7 ∷ [])
      (record { proof = record { before = 6; after = 6; address = none }; kind = unused 5 }))
unfolding one_write written
apply_to_leaf-Verdict_example =
    apply_to_leaf-Verdict toy_complete two_levels 1 (omega arith) 5
      (read ∷ upsert 7 ∷ read ∷ upsert 7 ∷ []) (record { before = 6; after = 6; address = none })

abbrev inputs : ℕ → ℕ → Option ℕ → Inputs
inputs before after address = record { before = before; after = after; address = address }

deletion-Consistent : Consistent toy_sound 1 (
    branch (deletion toy_sound (inputs 51 21 (some 0)) (inputs 5 5 none) (inputs 7 1 (some 1)) 4 6))
unfolding child_hash object_hash kind_objects
deletion-Consistent =
    at_branch {p = inputs 51 21 (some 0)}
      (at_leaf {l = record { proof = inputs 5 5 none; kind = unused 4 }} (refl, refl))
      (at_leaf {l = record { proof = inputs 7 1 (some 1); kind = being_deleted 6 }} (refl, refl))
      refl refl

finalize-stale_example :
    (root' : SparseMerkleBranch toy) × (finalize two_levels
        (deletion toy_sound (inputs 51 21 (some 0)) (inputs 5 5 none) (inputs 7 1 (some 1)) 4 6)
      ≡ ok root')
    × (get_state false root' 1 ≡ ok (none, none))
    × (merkle_root toy_sound 1 (λ b. (view (branch root') b).0) ≡ 21)
    × (toy.old (branch_proof root') ≡ 51)
finalize-stale_example =
    finalize-stale toy_sound two_levels (inputs 51 21 (some 0)) (inputs 5 5 none)
      (inputs 7 1 (some 1)) 4 6 deletion-Consistent
