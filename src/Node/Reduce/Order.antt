-- ===== src/Node/Reduce/Order.antt =====
-- node/src/block_proposer.rs: `reduce_tree` keeps the order of the items and loses none.
use mozak_vm.Prelude.{
  ℕ, ◌+◌, Option, none, some, List, [], ◌∷◌, ◌++◌, ◌==◌, ◌≡◌, refl, ◌∙◌, sym, ap, append-nil,
  append_assoc, Bool-cases, inl, inr,
}
use mozak_vm.Node.Reduce.{climb, consume, unwind, finish, reduce_tree}

-- What the items are made of, in order.
unfoldable pub concat_map {ℓ κ} : {A : Type ℓ} {B : Type κ} → (A → List B) → List A → List B
concat_map f [] = []
concat_map f (x ∷ xs) = f x ++ concat_map f xs

module _ {T R X : Type 0} (make_ret : T → R) (make_t : R → T) (merge : T → T → R)
    (items : T → List X) (items_of : R → List X)
    (returned : (t : T) → items_of (make_ret t) ≡ items t)
    (made : (r : R) → items (make_t r) ≡ items_of r)
    (merged : (l r : T) → items_of (merge l r) ≡ items l ++ items r) where
  -- the items of the stack, the bottom first
  stacked : List (R × ℕ) → List X
  stacked [] = []
  stacked ((v, c) ∷ rest) = stacked rest ++ items_of v

  merged_made : (l r : R) → items_of (merge (make_t l) (make_t r)) ≡ items_of l ++ items_of r
  merged_made l r = rw (merged (make_t l) (make_t r)) (rw (made l) (rw (made r) refl))

  stacked-climb :
      (stack : List (R × ℕ)) (v : R) (c : ℕ)
      → stacked (climb make_ret make_t merge stack v c) ≡ stacked stack ++ items_of v
  unfolding climb stacked
  stacked-climb [] v c = refl
  stacked-climb ((pv, pc) ∷ rest) v c = elim (Bool-cases (pc == c)) [
    | inl e ↦ rw e (
        stacked-climb rest (merge (make_t pv) (make_t v)) (c + pc)
        ∙ ap (λ (xs : List X). stacked rest ++ xs) (merged_made pv v)
        ∙ sym (append_assoc (stacked rest) (items_of pv) (items_of v)))
    | inr e ↦ rw e refl
  ]

  left_over : Option T → List X
  left_over none = []
  left_over (some t) = items t

  stacked-consume :
      (iter : List T) (stack : List (R × ℕ))
      → stacked (consume make_ret make_t merge iter stack).0
          ++ left_over (consume make_ret make_t merge iter stack).1
        ≡ stacked stack ++ concat_map items iter
  unfolding consume stacked left_over concat_map
  stacked-consume [] stack = refl
  stacked-consume (v0 ∷ []) stack =
      ap (λ (xs : List X). stacked stack ++ xs) (sym (append-nil (items v0)))
  stacked-consume (v0 ∷ v1 ∷ rest) stack =
      stacked-consume rest (climb make_ret make_t merge stack (merge v0 v1) 2)
      ∙ ap (λ (xs : List X). xs ++ concat_map items rest) (stacked-climb stack (merge v0 v1) 2)
      ∙ ap (λ (xs : List X). (stacked stack ++ xs) ++ concat_map items rest) (merged v0 v1)
      ∙ append_assoc (stacked stack) (items v0 ++ items v1) (concat_map items rest)
      ∙ ap (λ (xs : List X). stacked stack ++ xs)
          (append_assoc (items v0) (items v1) (concat_map items rest))

  items_of-unwind :
      (stack : List (R × ℕ)) (v : R)
      → items_of (unwind make_ret make_t merge stack v) ≡ stacked stack ++ items_of v
  unfolding unwind stacked
  items_of-unwind [] v = refl
  items_of-unwind ((pv, pc) ∷ rest) v =
      items_of-unwind rest (merge (make_t pv) (make_t v))
      ∙ ap (λ (xs : List X). stacked rest ++ xs) (merged_made pv v)
      ∙ sym (append_assoc (stacked rest) (items_of pv) (items_of v))

  -- There is something to finish.
  data Begun : List (R × ℕ) × Option T → Type 0 where
    stack_begun : {x : R × ℕ} → {rest : List (R × ℕ)} → {o : Option T} → Begun (x ∷ rest, o)
    item_begun : {stack : List (R × ℕ)} → {t : T} → Begun (stack, some t)

  items_of-finish :
      (stack : List (R × ℕ)) (o : Option T)
      → Begun (stack, o)
      → (r : R) × (finish make_ret make_t merge (stack, o) ≡ some r)
        × (items_of r ≡ stacked stack ++ left_over o)
  unfolding finish stacked left_over
  items_of-finish ((pv, pc) ∷ rest) none begun =
      (_, refl, items_of-unwind rest pv ∙ sym (append-nil (stacked rest ++ items_of pv)))
  items_of-finish [] (some t) begun = (_, refl, returned t)
  items_of-finish ((pv, pc) ∷ rest) (some t) begun = (
    _,
    refl,
    items_of-unwind rest (merge (make_t pv) t)
        ∙ ap (λ (xs : List X). stacked rest ++ xs)
            (merged (make_t pv) t ∙ ap (λ (xs : List X). xs ++ items t) (made pv))
        ∙ sym (append_assoc (stacked rest) (items_of pv) (items t)),
  )
  items_of-finish [] none begun = elim begun [ ]

  data Grown : List (R × ℕ) → Type 0 where
    grown : {x : R × ℕ} → {rest : List (R × ℕ)} → Grown (x ∷ rest)

  climb-Grown :
      (stack : List (R × ℕ)) (v : R) (c : ℕ) → Grown (climb make_ret make_t merge stack v c)
  unfolding climb
  climb-Grown [] v c = grown
  climb-Grown ((pv, pc) ∷ rest) v c = elim (Bool-cases (pc == c)) [
    | inl e ↦ rw e (climb-Grown rest (merge (make_t pv) (make_t v)) (c + pc))
    | inr e ↦ rw e grown
  ]

  consume-Begun :
      (iter : List T) (stack : List (R × ℕ))
      → Grown stack
      → Begun (consume make_ret make_t merge iter stack)
  unfolding consume
  consume-Begun [] stack grown = stack_begun
  consume-Begun (v0 ∷ []) stack h = item_begun
  consume-Begun (v0 ∷ v1 ∷ rest) stack h =
      consume-Begun rest (climb make_ret make_t merge stack (merge v0 v1) 2)
        (climb-Grown stack (merge v0 v1) 2)

  consume_some-Begun : (t : T) (ts : List T) → Begun (consume make_ret make_t merge (t ∷ ts) [])
  unfolding consume climb
  consume_some-Begun t [] = item_begun
  consume_some-Begun t (t' ∷ ts) = consume-Begun ts ((merge t t', 2) ∷ []) grown

  -- If a merge has the items of its left and then of its right side, and make_ret and make_t
  -- keep them, reduce_tree of one item or more comes to a value that has the items of all, in
  -- order.
  pub reduce_tree-items :
      (t : T) (ts : List T)
      → (r : R) × (reduce_tree make_ret make_t merge (t ∷ ts) ≡ some r)
        × (items_of r ≡ concat_map items (t ∷ ts))
  unfolding reduce_tree stacked
  reduce_tree-items t ts =
      let (r, found, e) = items_of-finish _ _ (consume_some-Begun t ts) in
      (r, found, e ∙ stacked-consume (t ∷ ts) [])
