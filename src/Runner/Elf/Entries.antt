-- ===== src/Runner/Elf/Entries.antt =====
-- runner/src/elf.rs: entries of a map that later ones replace, and slices of a list by position.
use mozak_vm.Prelude.{
  ℕ, zero, suc, ◌+◌, ◌-◌, ◌^◌, ◌≤◌, ◌<◌, ◌≡◌, ◌∙◌, refl, sym, subst, ◌%◌, arith, Bool, true, false,
  Option, none, some, List, [], ◌∷◌, ◌++◌, length, take, drop, replicate, ltb, leb, ◌==◌,
  if◌then◌else◌, get_elem?, Bool-cases, inl, inr, ◌⊎◌,
}
use mozak_vm.Runner.Outcome.{
  Build, ok, panic, Ensures, returns, panics, Ensures-bind, arithmetic_overflow, add_checked,
}
use mozak_vm.Runner.HashMap.{HashMap, get, insert, extend, get-insert}
use mozak_vm.Runner.Loader.{zip_range}

abbrev pub or_else : Option ℕ → Option ℕ → Option ℕ
or_else none o = o
or_else (some b) o = some b

-- the last entry for an address
unfoldable pub latest : List (ℕ × ℕ) → ℕ → Option ℕ
latest [] a = none
latest ((k, v) ∷ l) a = or_else (latest l a) (if k == a then some v else none)

or_else_assoc : (x y z : Option ℕ) → or_else (or_else x y) z ≡ or_else x (or_else y z)
or_else_assoc none y z = refl
or_else_assoc (some b) y z = refl

pub latest-append :
    (l m : List (ℕ × ℕ)) (a : ℕ) → latest (l ++ m) a ≡ or_else (latest m a) (latest l a)
unfolding latest
latest-append [] m a = go (latest m a)
  where
    go : (o : Option ℕ) → o ≡ or_else o none
    go none = refl
    go (some b) = refl
latest-append ((k, v) ∷ l) m a =
    rw (latest-append l m a)
      (or_else_assoc (latest m a) (latest l a) (if k == a then some v else none))

pub get-extend-latest :
    (m : HashMap ℕ) (l : List (ℕ × ℕ)) (a : ℕ) → get (extend m l) a ≡ or_else (latest l a) (get m a)
unfolding extend latest
get-extend-latest m [] a = refl
get-extend-latest m ((k, v) ∷ l) a =
    get-extend-latest (insert k v m) l a ∙ rw (get-insert k v m a) (go (latest l a) (k == a))
  where
    go :
        (o : Option ℕ) (b : Bool)
        → or_else o (if b then some v else get m a)
          ≡ or_else (or_else o (if b then some v else none)) (get m a)
    go none true = refl
    go none false = refl
    go (some w) b = refl

-- the byte of a list that starts at an address
unfoldable pub placed : ℕ → List ℕ → ℕ → Option ℕ
placed start [] a = none
placed start (b ∷ bs) a = if start == a then some b else placed (start + 1) bs a

add_fits :
    (build : Build) (a : ℕ)
    → build.overflow_checks ≡ true
    → Ensures (λ next. next ≡ a + 1) (add_checked build 32 a 1)
unfolding add_checked
add_fits build a e = rw e (go (Bool-cases (leb (2 ^ 32) (a + 1))))
  where
    go :
        ((leb (2 ^ 32) (a + 1) ≡ true) ⊎ (leb (2 ^ 32) (a + 1) ≡ false))
        → Ensures
            (λ next. next ≡ a + 1)
            (if leb (2 ^ 32) (a + 1) then panic arithmetic_overflow else ok ((a + 1) % 2 ^ 32))
    go (inl over) = rw over panics
    go (inr fits) = rw fits (returns (ground arith))

placed-later : (start : ℕ) (bs : List ℕ) (a : ℕ) → a < start → placed start bs a ≡ none
unfolding placed
placed-later start [] a lt = refl
placed-later start (b ∷ bs) a lt = ground (arith, placed-later (start + 1) bs a)

pub zip_range-latest :
    (build : Build) (start : ℕ) (bs : List ℕ)
    → build.overflow_checks ≡ true
    → Ensures (λ es. (a : ℕ) → latest es a ≡ placed start bs a) (zip_range build start bs)
unfolding zip_range latest placed
zip_range-latest build start [] e = Ensures-bind (add_fits build start e) λ _ _. returns λ a. refl
zip_range-latest build start (b ∷ bs) e = Ensures-bind (add_fits build start e) λ next en.
    Ensures-bind
      (subst
        (λ n.
          Ensures (λ es. (a : ℕ) → latest es a ≡ placed (start + 1) bs a) (zip_range build n bs))
        (sym en) (zip_range-latest build (start + 1) bs e))
      λ rest h. returns λ a. rw (h a) (choice a (Bool-cases (start == a)))
  where
    choice :
        (a : ℕ)
        → ((start == a) ≡ true) ⊎ ((start == a) ≡ false)
        → or_else (placed (start + 1) bs a) (if start == a then some b else none)
          ≡ (if start == a then some b else placed (start + 1) bs a)
    choice a (inl q) =
        let same : start ≡ a = ground arith in
        rw q (rw (placed-later (start + 1) bs a (omega arith)) refl)
    choice a (inr q) = rw q (go (placed (start + 1) bs a))
      where
        go : (o : Option ℕ) → or_else o none ≡ o
        go none = refl
        go (some w) = refl

pub placed_lem :
    (start : ℕ) (bs : List ℕ) (a : ℕ)
    → placed start bs a ≡ (if leb start a then get_elem? bs (a - start) else none)
unfolding placed
placed_lem start [] a = ground arith
placed_lem start (b ∷ bs) a =
    go (a - start) (Bool-cases (start == a)) (placed_lem (start + 1) bs a) refl
  where
    go :
        (i : ℕ)
        → ((start == a) ≡ true) ⊎ ((start == a) ≡ false)
        → placed (start + 1) bs a
          ≡ (if leb (start + 1) a then get_elem? bs (a - (start + 1)) else none)
        → a - start ≡ i
        → (if start == a then some b else placed (start + 1) bs a)
          ≡ (if leb start a then get_elem? (b ∷ bs) i else none)
    go zero (inl q) ih e = let le : leb start a ≡ true = ground arith in rw (q, le) refl
    go (suc i) (inl q) ih e = let same : start ≡ a = ground arith in absurd (omega arith)
    go zero (inr q) ih e =
        let lt : a < start = ground arith in
        let le : leb start a ≡ false = ground arith in
        rw (q, le) (placed-later (start + 1) bs a (omega arith))
    go (suc i) (inr q) ih e =
        let le : leb start a ≡ true = ground arith in
        let le' : leb (start + 1) a ≡ true = ground arith in
        let ei : a - (start + 1) ≡ i = omega arith in rw (q, le) (ih ∙ rw (le', ei) refl)

pub get_elem?-drop : (n : ℕ) (xs : List ℕ) (i : ℕ) → get_elem? (drop n xs) i ≡ get_elem? xs (n + i)
get_elem?-drop zero xs i = let e : 0 + i ≡ i = omega arith in rw e refl
get_elem?-drop (suc n) [] i = refl
get_elem?-drop (suc n) (x ∷ xs) i =
    let e : suc n + i ≡ suc (n + i) = omega arith in rw e (get_elem?-drop n xs i)

pub get_elem?-take :
    (n : ℕ) (xs m : List ℕ) (i : ℕ)
    → n ≤ length xs
    → get_elem? (take n xs ++ m) i ≡ (if ltb i n then get_elem? xs i else get_elem? m (i - n))
get_elem?-take zero xs m i le = let e : i - 0 ≡ i = omega arith in rw e (ground arith)
get_elem?-take (suc n) [] m i le = absurd (omega arith)
get_elem?-take (suc n) (x ∷ xs) m zero le = ground arith
get_elem?-take (suc n) (x ∷ xs) m (suc i) le =
    get_elem?-take n xs m i (omega arith)
    ∙ (let e : suc i - suc n ≡ i - n = omega arith in
        let e' : ltb (suc i) (suc n) ≡ ltb i n = ground arith in rw (e, e') refl)

pub get_elem?-zeros :
    (n i : ℕ) → get_elem? {A = ℕ} (replicate n 0) i ≡ (if ltb i n then some 0 else none)
get_elem?-zeros zero i = ground arith
get_elem?-zeros (suc n) zero = ground arith
get_elem?-zeros (suc n) (suc i) =
    get_elem?-zeros n i ∙ (let e : ltb (suc i) (suc n) ≡ ltb i n = ground arith in rw e refl)
