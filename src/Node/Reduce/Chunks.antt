-- ===== src/Node/Reduce/Chunks.antt =====
-- node/src/block_proposer.rs: what one step of `reduce_tree_by_address` does to the items and to their addresses.

use mozak_vm.Prelude.{Option, some, List, [], ◌∷◌, ◌++◌, ◌≡◌, refl, ◌∙◌, sym, ap, append_assoc}
use mozak_vm.Node.Reduce.{reduce_tree, ChunkBy, with_chunk, reduce_chunks}
use mozak_vm.Node.Reduce.Order.{concat_map, reduce_tree-items}

module _ {A T : Type 0} where
  unfoldable pub tagged : A → List T → List (A × T)
  tagged a [] = []
  tagged a (t ∷ ts) = (a, t) ∷ tagged a ts

  -- the items of the chunks, with their addresses
  unfoldable pub spread : List (A × List T) → List (A × T)
  unfolding tagged
  spread [] = []
  spread ((a, ts) ∷ chunks) = tagged a ts ++ spread chunks

  pub data Inhabited : List (A × List T) → Type 0 where
    no_chunk : Inhabited []
    chunk :
        {a : A}
        → {t : T} → {ts : List T} → {rest : List (A × List T)} → Inhabited rest
        → Inhabited ((a, t ∷ ts) ∷ rest)

  -- What `chunk_by` is documented to do: its chunks are the items in order, none is empty, and items
  -- of one address stay together.
  pub record IsChunkBy (chunk_by : ChunkBy A T) : Type 0 where
    pub whole : (iter : List (A × T)) → spread (chunk_by iter) ≡ iter
    pub inhabited : (iter : List (A × T)) → Inhabited (chunk_by iter)
    pub together : (a : A) (t : T) (ts : List T) → chunk_by (tagged a (t ∷ ts)) ≡ (a, t ∷ ts) ∷ []

  -- `P` of every address
  unfoldable pub AllAt : (A → Type 0) → List (A × T) → Type 0
  AllAt P [] = Unit
  AllAt P ((a, t) ∷ rest) = P a × AllAt P rest

  AllAt-right :
      (P : A → Type 0) (a : A) (ts : List T) (rest : List (A × T))
      → AllAt P (tagged a ts ++ rest)
      → AllAt P rest
  unfolding AllAt tagged
  AllAt-right P a [] rest h = h
  AllAt-right P a (t ∷ ts) rest h = AllAt-right P a ts rest h.1

  -- Items at one address.
  pub AllAt-tagged :
      (r : A) (iter : List (A × T)) → AllAt (λ a. a ≡ r) iter → (ts : List T) × (iter ≡ tagged r ts)
  unfolding AllAt tagged
  AllAt-tagged r [] h = ([], refl)
  AllAt-tagged r ((a, t) ∷ rest) (e, h) =
      let (ts, e') = AllAt-tagged r rest h in (t ∷ ts, rw e (rw e' refl))

module _ {A T X : Type 0} (addr_inc : A → A) (merge : A → T → T → T) (items : T → List X)
    (merged : (a : A) (l r : T) → items (merge a l r) ≡ items l ++ items r) where
  abbrev pub contents : List (A × T) → List X
  contents iter = concat_map (λ (x : A × T). items x.1) iter

  pub data Reduced : List (A × List T) → List (A × T) → Type 0 where
    none_reduced : Reduced [] []
    one_reduced :
        {a : A}
        → {t : T} → {ts : List T} → {chunks : List (A × List T)} → {out : List (A × T)}
        → items t ≡ concat_map items ts
        → Reduced chunks out
        → Reduced ((a, ts) ∷ chunks) ((addr_inc a, t) ∷ out)

  pub one_chunk :
      (chunk_by : ChunkBy A T) (a : A) (ts : List T) (chunks : List (A × List T)) {r : T}
      {out : List (A × T)}
      → reduce_tree (λ x. x) (λ x. x) (merge a) ts ≡ some r
      → reduce_chunks chunk_by addr_inc merge chunks ≡ some out
      → reduce_chunks chunk_by addr_inc merge ((a, ts) ∷ chunks) ≡ some ((addr_inc a, r) ∷ out)
  unfolding reduce_chunks
  one_chunk chunk_by a ts chunks {r = r} e e' =
      ap
        (λ (o : Option T).
          with_chunk chunk_by addr_inc merge (addr_inc a) o
            (reduce_chunks chunk_by addr_inc merge chunks))
        e
      ∙ ap
          (λ (o : Option (List (A × T))).
            with_chunk chunk_by addr_inc merge (addr_inc a) (some r) o)
          e'

  pub reduce_chunks-Reduced :
      (chunk_by : ChunkBy A T) (chunks : List (A × List T))
      → Inhabited chunks
      → (out : List (A × T)) × (reduce_chunks chunk_by addr_inc merge chunks ≡ some out)
        × Reduced chunks out
  unfolding reduce_chunks
  reduce_chunks-Reduced chunk_by [] h = ([], refl, none_reduced)
  reduce_chunks-Reduced chunk_by ((a, []) ∷ chunks) h = elim h [ ]
  reduce_chunks-Reduced chunk_by ((a, t ∷ ts) ∷ chunks) (chunk h) =
      let (r, found, e) =
        reduce_tree-items (λ x. x) (λ x. x) (merge a) items items (λ t. refl) (λ t. refl) (merged a)
          t ts in
      let (out, found', rest) = reduce_chunks-Reduced chunk_by chunks h in
      ((addr_inc a, r) ∷ out, one_chunk chunk_by a (t ∷ ts) chunks found found', one_reduced e rest)

  contents-tagged :
      (a : A) (ts : List T) (rest : List (A × T))
      → contents (tagged a ts ++ rest) ≡ concat_map items ts ++ contents rest
  unfolding concat_map tagged
  contents-tagged a [] rest = refl
  contents-tagged a (t ∷ ts) rest =
      ap (λ (xs : List X). items t ++ xs) (contents-tagged a ts rest)
      ∙ sym (append_assoc (items t) (concat_map items ts) (contents rest))

  pub contents-Reduced :
      {chunks : List (A × List T)} {out : List (A × T)}
      → Reduced chunks out
      → contents out ≡ contents (spread chunks)
  unfolding concat_map spread
  contents-Reduced none_reduced = refl
  contents-Reduced (one_reduced {a = a} {t = t} {ts = ts} {chunks = chunks} {out = out} e rest) =
      ap (λ (xs : List X). items t ++ xs) (contents-Reduced rest)
      ∙ ap (λ (xs : List X). xs ++ contents (spread chunks)) e
      ∙ sym (contents-tagged a ts (spread chunks))

  pub Reduced-some :
      {chunks : List (A × List T)} {out : List (A × T)} {x : A × T} {iter : List (A × T)}
      → Reduced chunks out
      → spread chunks ≡ x ∷ iter
      → (o : A × T) × (os : List (A × T)) × (out ≡ o ∷ os)
  unfolding spread
  Reduced-some none_reduced e = cc
  Reduced-some (one_reduced e' rest) e = (_, _, refl)

  pub AllAt-Reduced :
      (P Q : A → Type 0) {chunks : List (A × List T)} {out : List (A × T)}
      → ((a : A) → P a → Q (addr_inc a))
      → Inhabited chunks
      → AllAt P (spread chunks)
      → Reduced chunks out
      → AllAt Q out
  unfolding AllAt spread
  AllAt-Reduced P Q up h all none_reduced = tt
  AllAt-Reduced P Q up (chunk {t = t} {ts = ts} h) all
        (one_reduced {a = a} {chunks = chunks} e rest) =
      (up a all.0, AllAt-Reduced P Q up h (AllAt-right P a (t ∷ ts) (spread chunks) all) rest)
