-- ===== src/Node/Reduce/Leaves.antt =====
-- node/src/block_proposer.rs: `reduce_tree_by_address` as the block proposer calls it, on proofs at
-- leaves, with `parent(1)` as the step.
use native.Mathlib.Nat.{pow-suc}
use mozak_vm.Prelude.{ℕ, suc, ◌+◌, ◌^◌, ◌<◌, some, List, [], ◌∷◌, ◌++◌, ◌≡◌, ◌∙◌, ap, arith}
use mozak_vm.Node.Address.{BranchAddress, parent, root}
use mozak_vm.Node.Reduce.{ChunkBy, reduce_rounds}
use mozak_vm.Node.Reduce.Order.{concat_map}
use mozak_vm.Node.Reduce.Chunks.{IsChunkBy, AllAt}
use mozak_vm.Node.Reduce.Rounds.{rounds-Ends}

-- `k` levels below the root of a tree of `depth` levels
abbrev Below : ℕ → ℕ → BranchAddress → Type 0
Below depth k a = (a.height + k ≡ depth) × (a.addr < 2 ^ k)

parent-Below :
    (depth k : ℕ) (a : BranchAddress) → Below depth (suc k) a → Below depth k (parent a 1)
unfolding parent
parent-Below depth k a (h, below) = (omega arith, omega (arith, pow-suc 2 k))

root-Below : (depth : ℕ) (a : BranchAddress) → Below depth 0 a → a ≡ root depth
unfolding root
root-Below depth a (h, below) =
    let same : a.height ≡ depth = omega arith in
    let zero_addr : a.addr ≡ 0 = omega arith in
    ap (λ (h : ℕ). record { height = h; addr = a.addr }) same
    ∙ ap (λ (n : ℕ). record { height = depth; addr = n }) zero_addr

-- Leaves of a tree of some depth, with addresses of as many bits, are reduced by
-- reduce_tree_by_address with parent(1) to one value in at most one round more than the depth,
-- and the value has the items of all the leaves in their order, if a merge has the items of its
-- left and then of its right side; given that chunk_by groups consecutive items of one address.
pub reduce_leaves :
    {T X : Type 0} (merge : BranchAddress → T → T → T) (items : T → List X)
    → ((a : BranchAddress) (l r : T) → items (merge a l r) ≡ items l ++ items r)
    → (chunk_by : ChunkBy BranchAddress T) → IsChunkBy chunk_by
    → (depth : ℕ) (x : BranchAddress × T) (iter : List (BranchAddress × T))
    → AllAt (λ a. (a.height ≡ 0) × (a.addr < 2 ^ depth)) (x ∷ iter)
    → (a : BranchAddress) × (t : T) × (reduce_rounds chunk_by
          (λ a. parent a 1)
          merge
          (suc (suc depth))
          (x ∷ iter)
        ≡ some (some (a, t)))
      × (items t ≡ concat_map (λ (x : BranchAddress × T). items x.1) (x ∷ iter))
unfolding AllAt
reduce_leaves {T = T} merge items merged chunk_by law depth x iter leaves =
    rounds-Ends (λ a. parent a 1) merge items merged chunk_by law (Below depth) (root depth)
      (parent-Below depth) (root-Below depth) depth x iter (leaves_below (x ∷ iter) leaves)
  where
    leaves_below :
        (iter : List (BranchAddress × T))
        → AllAt (λ a. (a.height ≡ 0) × (a.addr < 2 ^ depth)) iter
        → AllAt (Below depth depth) iter
    leaves_below [] all = tt
    leaves_below ((a, t) ∷ rest) ((h, below), all) = ((omega arith, below), leaves_below rest all)
