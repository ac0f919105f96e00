-- ===== src/Runner/HashMap.antt =====
-- The maps and sets with 32-bit keys of the `im` crate, as association lists with one entry for
-- each key: `get`, `insert`, `extend` and `keys`, with their laws.
use mozak_vm.Prelude.{
  ℕ, ◌≡◌, refl, Bool, true, false, ◌||◌, Option, none, some, List, [], ◌∷◌, arith, ◌==◌,
  if◌then◌else◌,
}

abbrev pub HashMap {ℓ} : Type ℓ → Type ℓ
HashMap V = List (ℕ × V)

abbrev pub HashSet : Type 0
HashSet = List ℕ

module _ {ℓ} {V : Type ℓ} where
  unfoldable pub get : HashMap V → ℕ → Option V
  get [] k = none
  get ((j, v) ∷ m) k = if j == k then some v else get m k

  unfoldable pub insert : ℕ → V → HashMap V → HashMap V
  insert k v [] = (k, v) ∷ []
  insert k v ((j, w) ∷ m) = if j == k then (k, v) ∷ m else (j, w) ∷ insert k v m

  -- the entries are inserted in order, each over an older one with its key
  unfoldable pub extend : HashMap V → HashMap V → HashMap V
  extend m [] = m
  extend m ((k, v) ∷ l) = extend (insert k v m) l

  unfoldable pub keys : HashMap V → HashSet
  keys [] = []
  keys ((k, v) ∷ m) = k ∷ keys m

  pub get-insert :
      (k : ℕ) (v : V) (m : HashMap V) (j : ℕ)
      → get (insert k v m) j ≡ (if k == j then some v else get m j)
  unfolding get insert
  get-insert k v [] j = refl
  get-insert k v ((i, w) ∷ m) j = ground (arith, get-insert k v m j)

unfoldable pub contains : HashSet → ℕ → Bool
contains [] k = false
contains (j ∷ s) k = j == k || contains s k

-- An `im` map has one entry for each key.
abbrev pub IsUnique {ℓ} : {V : Type ℓ} → HashMap V → Type ℓ
IsUnique [] = Unit
IsUnique ((k, v) ∷ m) = (contains (keys m) k ≡ false) × IsUnique m

module _ {ℓ} {V : Type ℓ} where
  -- What is not among the keys is not there, and the other way round.
  pub contains-keys :
      (m : HashMap V) (k : ℕ)
      → contains (keys m) k ≡ elim (get m k) [ none ↦ false | some _ ↦ true ]
  unfolding contains keys get
  contains-keys [] k = refl
  contains-keys ((j, v) ∷ m) k = ground (arith, contains-keys m k)

  -- The entries of the second map win.
  pub get-extend :
      (m l : HashMap V) (k : ℕ)
      → IsUnique l
      → get (extend m l) k ≡ elim (get l k) [ none ↦ get m k | some v ↦ some v ]
  unfolding get extend
  get-extend m [] k u = refl
  get-extend m ((j, v) ∷ l) k (fresh, u) =
      ground (arith, get-extend (insert j v m) l k u, get-insert j v m k, contains-keys l j, fresh)
