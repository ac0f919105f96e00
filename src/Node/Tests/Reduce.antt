-- ===== src/Node/Tests/Reduce.antt =====
-- Three leaves of a tree of two levels reduced to one list.
use mozak_vm.Prelude.{
  ℕ, Bool, true, ◌&&◌, some, List, [], ◌∷◌, ◌++◌, ◌==◌, if◌then◌else◌, ◌≡◌, refl, ◌∙◌, ap, arith,
  Bool-cases, inl, inr,
}
use mozak_vm.Node.Address.{BranchAddress, parent, root}
use mozak_vm.Node.Address.Walks.{walk, walk-path}
use mozak_vm.Node.Reduce.{ChunkBy, reduce_rounds, reduce_tree}
use mozak_vm.Node.Reduce.Order.{concat_map, reduce_tree-items}
use mozak_vm.Node.Reduce.Chunks.{tagged, spread, Inhabited, no_chunk, chunk, IsChunkBy, AllAt}
use mozak_vm.Node.Reduce.Leaves.{reduce_leaves}

same_node : BranchAddress → BranchAddress → Bool
same_node a b = (a.height == b.height) && (a.addr == b.addr)

same_node_refl : (a : BranchAddress) → same_node a a ≡ true
unfolding same_node
same_node_refl a = ground arith

same_node_eq : (a b : BranchAddress) → same_node a b ≡ true → a ≡ b
unfolding same_node
same_node_eq a b e =
    let h : a.height ≡ b.height = ground arith in
    let n : a.addr ≡ b.addr = ground arith in
    ap (λ (h : ℕ). record { height = h; addr = a.addr }) h
    ∙ ap (λ (n : ℕ). record { height = b.height; addr = n }) n

module _ {T : Type 0} where
  put : BranchAddress → T → List (BranchAddress × List T) → List (BranchAddress × List T)
  unfolding same_node
  put a t [] = (a, t ∷ []) ∷ []
  put a t ((b, ts) ∷ rest) =
      if same_node a b then (a, t ∷ ts) ∷ rest else (a, t ∷ []) ∷ (b, ts) ∷ rest

  chunks : ChunkBy BranchAddress T
  unfolding put
  chunks [] = []
  chunks ((a, t) ∷ rest) = put a t (chunks rest)

  spread-put :
      (a : BranchAddress) (t : T) (cs : List (BranchAddress × List T))
      → spread (put a t cs) ≡ (a, t) ∷ spread cs
  unfolding put spread
  spread-put a t [] = refl
  spread-put a t ((b, ts) ∷ rest) = elim (Bool-cases (same_node a b)) [
    | inl e ↦
        let same = same_node_eq a b e in
        rw e (ap (λ (b : BranchAddress). (a, t) ∷ (tagged b ts ++ spread rest)) same)
    | inr e ↦ rw e refl
  ]

  put-Inhabited :
      (a : BranchAddress) (t : T) (cs : List (BranchAddress × List T))
      → Inhabited cs
      → Inhabited (put a t cs)
  unfolding put
  put-Inhabited a t [] h = chunk no_chunk
  put-Inhabited a t ((b, []) ∷ rest) h = elim h [ ]
  put-Inhabited a t ((b, t' ∷ ts) ∷ rest) (chunk h) = elim (Bool-cases (same_node a b)) [
    | inl e ↦ rw e (chunk h)
    | inr e ↦ rw e (chunk (chunk h))
  ]

  spread-chunks : (iter : List (BranchAddress × T)) → spread (chunks iter) ≡ iter
  unfolding chunks spread
  spread-chunks [] = refl
  spread-chunks ((a, t) ∷ rest) =
      spread-put a t (chunks rest)
      ∙ ap (λ (xs : List (BranchAddress × T)). (a, t) ∷ xs) (spread-chunks rest)

  chunks-Inhabited : (iter : List (BranchAddress × T)) → Inhabited (chunks iter)
  unfolding chunks
  chunks-Inhabited [] = no_chunk
  chunks-Inhabited ((a, t) ∷ rest) = put-Inhabited a t (chunks rest) (chunks-Inhabited rest)

  chunks-tagged :
      (a : BranchAddress) (t : T) (ts : List T) → chunks (tagged a (t ∷ ts)) ≡ (a, t ∷ ts) ∷ []
  unfolding chunks tagged put
  chunks-tagged a t [] = refl
  chunks-tagged a t (t' ∷ ts) = ap (put a t) (chunks-tagged a t' ts) ∙ rw (same_node_refl a) refl

  chunks_law : IsChunkBy chunks
  chunks_law = record {
    whole = spread-chunks;
    inhabited = chunks-Inhabited;
    together = chunks-tagged;
  }

abbrev leaf_at : ℕ → BranchAddress × List ℕ
leaf_at a = (record { height = 0; addr = a }, a ∷ [])

reduce_leaves_example :
    (a : BranchAddress) × (t : List ℕ) × (reduce_rounds chunks
        (λ a. parent a 1)
        (λ a l r. l ++ r)
        4
        (leaf_at 0 ∷ leaf_at 1 ∷ leaf_at 3 ∷ [])
      ≡ some (some (a, t)))
    × (t ≡ 0 ∷ 1 ∷ 3 ∷ [])
unfolding AllAt concat_map
reduce_leaves_example =
    reduce_leaves (λ a l r. l ++ r) (λ xs. xs) (λ a l r. refl) chunks chunks_law 2 (leaf_at 0)
      (leaf_at 1 ∷ leaf_at 3 ∷ [])
      ((refl, omega arith), ((refl, omega arith), ((refl, omega arith), tt)))

reduce_tree-items_example :
    (r : List ℕ) × (reduce_tree
        (λ t. t)
        (λ r. r)
        (λ l r. l ++ r)
        ((5 ∷ []) ∷ (6 ∷ []) ∷ (7 ∷ []) ∷ [])
      ≡ some r)
    × (r ≡ 5 ∷ 6 ∷ 7 ∷ [])
unfolding concat_map
reduce_tree-items_example =
    reduce_tree-items (λ t. t) (λ r. r) (λ l r. l ++ r) (λ xs. xs) (λ xs. xs) (λ t. refl)
      (λ r. refl) (λ l r. refl) (5 ∷ []) ((6 ∷ []) ∷ (7 ∷ []) ∷ [])

walk-path_example : walk 3 (record { height = 2; addr = 5 }) (root 2) ≡ some 5
walk-path_example = walk-path 2 5 (omega arith) (omega arith)
