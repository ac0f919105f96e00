-- ===== src/Node/Reduce/Rounds.antt =====
-- node/src/block_proposer.rs: `reduce_tree_by_address` comes to an end, and keeps the order of the items.

use mozak_vm.Prelude.{
  ℕ, zero, suc, Option, some, List, [], ◌∷◌, ◌++◌, ◌≡◌, refl, ◌∙◌, sym, ap, append-nil,
}
use mozak_vm.Node.Reduce.{
  ChunkBy, after_step, reduce_chunks, reduce_tree_by_address_step, reduce_rounds,
}
use mozak_vm.Node.Reduce.Chunks.{
  tagged, IsChunkBy, AllAt, AllAt-tagged, contents, one_chunk, reduce_chunks-Reduced,
  contents-Reduced, Reduced-some, AllAt-Reduced,
}
use mozak_vm.Node.Reduce.Order.{concat_map, reduce_tree-items}

module _ {A T X : Type 0} (addr_inc : A → A) (merge : A → T → T → T) (items : T → List X)
    (merged : (a : A) (l r : T) → items (merge a l r) ≡ items l ++ items r) where
  abbrev held : List (A × T) → List X
  held = contents addr_inc merge items merged

  module _ (chunk_by : ChunkBy A T) (law : IsChunkBy chunk_by) (P : ℕ → A → Type 0) (top : A)
      (up : (k : ℕ) (a : A) → P (suc k) a → P k (addr_inc a))
      (at_top : (a : A) → P 0 a → a ≡ top) where
    step-lem :
        (Q Q' : A → Type 0) (x : A × T) (iter : List (A × T))
        → ((a : A) → Q a → Q' (addr_inc a))
        → AllAt Q (x ∷ iter)
        → (o : A × T) × (os : List (A × T)) × (reduce_tree_by_address_step chunk_by addr_inc merge
              (x ∷ iter)
            ≡ some (o ∷ os))
          × (held (o ∷ os) ≡ held (x ∷ iter))
          × AllAt Q' (o ∷ os)
    unfolding reduce_tree_by_address_step
    step-lem Q Q' x iter grow all =
        let whole = law.whole (x ∷ iter) in
        let filled = law.inhabited (x ∷ iter) in
        let (out, found, r) =
          reduce_chunks-Reduced addr_inc merge items merged chunk_by (chunk_by (x ∷ iter)) filled in
        let (o, os, e) = Reduced-some addr_inc merge items merged r whole in
        (
          o,
          os,
          found ∙ ap some e,
          ap held (sym e) ∙ contents-Reduced addr_inc merge items merged r ∙ ap held whole,
          rw e at (AllAt-Reduced addr_inc merge items merged Q Q' grow filled (rw whole all) r),
        )

    -- All items at one address become one.
    last-lem :
        (t : T) (ts : List T)
        → (r : T) × (reduce_tree_by_address_step chunk_by addr_inc merge (tagged top (t ∷ ts))
            ≡ some ((addr_inc top, r) ∷ []))
          × (items r ≡ concat_map items (t ∷ ts))
    unfolding reduce_tree_by_address_step reduce_chunks
    last-lem t ts =
        let (r, found, e) =
          reduce_tree-items (λ x. x) (λ x. x) (merge top) items items (λ t. refl) (λ t. refl)
            (merged top) t ts in
        (
          r,
          rw (law.together top t ts)
              (one_chunk addr_inc merge items merged chunk_by top (t ∷ ts) [] found refl),
          e,
        )

    contents-all : (t : T) (ts : List T) → held (tagged top (t ∷ ts)) ≡ concat_map items (t ∷ ts)
    unfolding concat_map tagged
    contents-all t [] = refl
    contents-all t (t' ∷ ts) = ap (λ (xs : List X). items t ++ xs) (contents-all t' ts)

    abbrev pub Ends : ℕ → List (A × T) → Type 0
    Ends n iter =
        (a : A) × (t : T) × (reduce_rounds chunk_by addr_inc merge n iter ≡ some (some (a, t)))
        × (items t ≡ held iter)

    single-Ends : (n : ℕ) (x : A × T) → Ends (suc n) (x ∷ [])
    unfolding reduce_rounds concat_map
    single-Ends n (a, t) = (a, t, refl, sym (append-nil (items t)))

    -- a round, and the rounds after it
    round-Ends :
        (n : ℕ) (x y : A × T) (rest : List (A × T)) {out : List (A × T)}
        → reduce_tree_by_address_step chunk_by addr_inc merge (x ∷ y ∷ rest) ≡ some out
        → held out ≡ held (x ∷ y ∷ rest)
        → Ends n out
        → Ends (suc n) (x ∷ y ∷ rest)
    unfolding reduce_rounds
    round-Ends n x y rest found e (a, t, done, e') = (
      a,
      t,
      ap
            (λ (o : Option (List (A × T))).
              after_step chunk_by addr_inc merge
                (λ iter. reduce_rounds chunk_by addr_inc merge n iter) o)
            found
          ∙ done,
      e' ∙ e,
    )

    AllAt-map : (iter : List (A × T)) → AllAt (P 0) iter → AllAt (λ a. a ≡ top) iter
    unfolding AllAt
    AllAt-map [] all = tt
    AllAt-map ((a, t) ∷ rest) (h, all) = (at_top a h, AllAt-map rest all)

    same_address :
        (x y : A × T) (rest : List (A × T))
        → (ts : List T) × (x ∷ y ∷ rest ≡ tagged top ts)
        → Ends 2 (x ∷ y ∷ rest)
    unfolding tagged concat_map
    same_address x y rest ([], e) = cc
    same_address x y rest (t ∷ ts, e) =
        let (r, found, e') = last-lem t ts in
        round-Ends 1 x y rest (ap (reduce_tree_by_address_step chunk_by addr_inc merge) e ∙ found)
          (append-nil (items r) ∙ e' ∙ sym (contents-all t ts) ∙ ap held (sym e))
          (single-Ends 0 (addr_inc top, r))

    -- items whose addresses are `k` steps below the top
    pub rounds-Ends :
        (k : ℕ) (x : A × T) (iter : List (A × T))
        → AllAt (P k) (x ∷ iter)
        → Ends (suc (suc k)) (x ∷ iter)
    rounds-Ends k x [] all = single-Ends (suc k) x
    rounds-Ends zero x (y ∷ rest) all =
        same_address x y rest (AllAt-tagged top (x ∷ y ∷ rest) (AllAt-map (x ∷ y ∷ rest) all))
    rounds-Ends (suc k) x (y ∷ rest) all =
        let (o, os, found, e, all') = step-lem (P (suc k)) (P k) x (y ∷ rest) (up k) all in
        round-Ends (suc (suc k)) x y rest found e (rounds-Ends k o os all')
