-- ===== src/Runner/State/Tapes.antt =====
-- runner/src/state.rs: reading from a tape.
use mozak_vm.Prelude.{
  ℕ, zero, suc, ◌+◌, ◌-◌, ◌≤◌, ◌≡◌, ◌∙◌, refl, sym, ap, List, [], ◌∷◌, ◌++◌, take, drop, length,
  min, arith, ltb, if_false,
}
use mozak_vm.Runner.Outcome.{ok, ◌>>=◌}
use mozak_vm.Runner.State.{read_bytes}

drop-nil : (k : ℕ) → drop {A = ℕ} k [] ≡ []
drop-nil zero = refl
drop-nil (suc k) = refl

take-nil : (k : ℕ) → take {A = ℕ} k [] ≡ []
take-nil zero = refl
take-nil (suc k) = refl

drop-drop : (i a : ℕ) (xs : List ℕ) → drop (i + a) xs ≡ drop a (drop i xs)
drop-drop zero a xs = ap (λ (k : ℕ). drop k xs) (omega arith)
drop-drop (suc i) a [] = drop-nil (suc i + a) ∙ sym (drop-nil a)
drop-drop (suc i) a (x ∷ xs) =
    ap (λ (k : ℕ). drop k (x ∷ xs)) {x = suc i + a} {y = suc (i + a)} (omega arith)
    ∙ drop-drop i a xs

take-append-drop : (a b : ℕ) (xs : List ℕ) → take (a + b) xs ≡ take a xs ++ take b (drop a xs)
take-append-drop zero b xs = ap (λ (k : ℕ). take k xs) (omega arith)
take-append-drop (suc a) b [] = take-nil (suc a + b) ∙ sym (take-nil b)
take-append-drop (suc a) b (x ∷ xs) =
    ap (λ (k : ℕ). take k (x ∷ xs)) {x = suc a + b} {y = suc (a + b)} (omega arith)
    ∙ ap (λ l. x ∷ l) (take-append-drop a b xs)

-- What a read from a position on the tape gives.
read_bytes-ok :
    (buf : List ℕ) (i n : ℕ)
    → i ≤ length buf
    → read_bytes buf i n
      ≡ ok (take (min n (length buf - i)) (drop i buf), i + min n (length buf - i))
unfolding read_bytes
read_bytes-ok buf i n h = if_false (ltb (length buf) i) _ _ (ground arith)

-- A read of n + m bytes from a position on the tape gives what a read of n and then one of m
-- bytes give, and ends at the same position.
pub read_bytes-append :
    (buf : List ℕ) (i n m : ℕ)
    → i ≤ length buf
    → read_bytes buf i (n + m)
      ≡ (read_bytes buf i n >>= λ (xs, j). read_bytes buf j m >>= λ (ys, k). ok (xs ++ ys, k))
read_bytes-append buf i n m h =
    let a = min n (length buf - i) in
    let b = min m (length buf - (i + a)) in
    let total : min (n + m) (length buf - i) ≡ a + b = omega arith in
    read_bytes-ok buf i (n + m) h
    ∙ rw (read_bytes-ok buf i n h, read_bytes-ok buf (i + a) m (omega arith), total)
        (rw (take-append-drop a b (drop i buf), drop-drop i a buf)
          (ap (λ (k : ℕ). ok (take a (drop i buf) ++ take b (drop a (drop i buf)), k))
            (omega arith)))
