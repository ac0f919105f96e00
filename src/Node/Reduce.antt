-- ===== src/Node/Reduce.antt =====
-- node/src/block_proposer.rs: the reduction of a sequence of proofs to one. The closures are
-- functions; a sequence that an iterator gives is a list, and the top of a stack is its head.
pub mod Order
pub mod Chunks
pub mod Rounds
pub mod Leaves
use mozak_vm.Prelude.{
  ℕ, zero, suc, ◌+◌, Bool, Option, none, some, List, [], ◌∷◌, ◌==◌, if◌then◌else◌, map,
}

module _ {T R : Type 0} (make_ret : T → R) (make_t : R → T) (merge : T → T → R) where
  -- the inner `while`, and the `push` that follows it
  unfoldable pub climb : List (R × ℕ) → R → ℕ → List (R × ℕ)
  climb [] v c = (v, c) ∷ []
  climb ((pv, pc) ∷ rest) v c =
      let merged = climb rest (merge (make_t pv) (make_t v)) (c + pc) in
      if pc == c then merged else (v, c) ∷ (pv, pc) ∷ rest

  -- the `loop`, which takes two items at a time: the stack at its end, and the item that is left
  unfoldable pub consume : List T → List (R × ℕ) → List (R × ℕ) × Option T
  unfolding climb
  consume [] stack = (stack, none)
  consume (v0 ∷ []) stack = (stack, some v0)
  consume (v0 ∷ v1 ∷ rest) stack = consume rest (climb stack (merge v0 v1) 2)

  -- the last `while`
  unfoldable pub unwind : List (R × ℕ) → R → R
  unwind [] v = v
  unwind ((pv, pc) ∷ rest) v = unwind rest (merge (make_t pv) (make_t v))

  unfoldable pub finish : List (R × ℕ) × Option T → Option R
  unfolding unwind
  finish ([], none) = none
  finish ((pv, pc) ∷ rest, none) = some (unwind rest pv)
  finish ([], some v) = some (make_ret v)
  finish ((pv, pc) ∷ rest, some v) = some (unwind rest (merge (make_t pv) v))

  unfoldable pub reduce_tree : List T → Option R
  unfolding consume finish
  reduce_tree iter = finish (consume iter [])

-- `chunk_by` of itertools, on the first components
abbrev pub ChunkBy : Type 0 → Type 0 → Type 0
ChunkBy A T = List (A × T) → List (A × List T)

module _ {A T : Type 0} (chunk_by : ChunkBy A T) (addr_inc : A → A) (merge : A → T → T → T) where
  -- A chunk has an item; `none` is the panic of `unwrap` on one that has not.
  abbrev pub with_chunk : A → Option T → Option (List (A × T)) → Option (List (A × T))
  with_chunk address none rest = none
  with_chunk address (some t) none = none
  with_chunk address (some t) (some rest) = some ((address, t) ∷ rest)

  unfoldable pub reduce_chunks : List (A × List T) → Option (List (A × T))
  unfolding reduce_tree
  reduce_chunks [] = some []
  reduce_chunks ((address, ts) ∷ chunks) =
      with_chunk (addr_inc address) (reduce_tree (λ x. x) (λ x. x) (merge address) ts)
        (reduce_chunks chunks)

  unfoldable pub reduce_tree_by_address_step : List (A × T) → Option (List (A × T))
  unfolding reduce_chunks
  reduce_tree_by_address_step iter = reduce_chunks (chunk_by iter)

  abbrev pub after_step :
      (List (A × T) → Option (Option (A × T))) → Option (List (A × T)) → Option (Option (A × T))
  after_step rounds none = none
  after_step rounds (some iter) = rounds iter

  -- The loop of `reduce_tree_by_address` with fuel, one unit for each look at the length. `none` is
  -- that the fuel has run out, or a panic.
  unfoldable pub reduce_rounds : ℕ → List (A × T) → Option (Option (A × T))
  unfolding reduce_tree_by_address_step
  reduce_rounds zero iter = none
  reduce_rounds (suc n) [] = some none
  reduce_rounds (suc n) (x ∷ []) = some (some x)
  reduce_rounds (suc n) (x ∷ y ∷ rest) =
      after_step (λ iter. reduce_rounds n iter) (reduce_tree_by_address_step (x ∷ y ∷ rest))
