-- ===== src/Prelude/Bits/Step.antt =====
-- Recursion on binary digits: induction by halving, and the three operations one digit at a time.
use Prim.Native.Nat.{digits, bitwise, max, differ, bit_and-bitwise, bit_or-bitwise, bit_xor-bitwise}
use mathlib.Core.WellFounded
use mozak_vm.Prelude.{
  ℕ, zero, suc, ◌+◌, ◌*◌, ◌/◌, ◌%◌, ◌≤◌, ◌<◌, min, bit_and, bit_or, bit_xor, ◌≡◌, ◌∙◌, sym, ap,
  refl, arith,
}
use mozak_vm.Prelude.Order.{lt_wf}

pub halving : (P : ℕ → Type 0) → P 0 → ((n : ℕ) → P (suc n / 2) → P (suc n)) → (n : ℕ) → P n
halving P base step n = WellFounded.induction lt_wf n go
  where
    go : (m : ℕ) → ((j : ℕ) → j < m → P j) → P m
    go zero ih = base
    go (suc m) ih = step m (ih (suc m / 2) (omega arith))

-- `z` is the result for an empty first number, `f` that on two digits.
module _ (z : ℕ → ℕ) (f : ℕ → ℕ → ℕ) where
  abbrev Enough : ℕ → Type 0
  Enough a = (n b : ℕ) → a ≤ n → digits z f n a b ≡ bitwise z f a b

  enough : (a : ℕ) → Enough a
  enough = halving Enough (λ n b h. nothing n b) more
    where
      nothing : (n b : ℕ) → digits z f n 0 b ≡ z b
      nothing zero b = refl
      nothing (suc n) b = refl

      more : (a : ℕ) → Enough (suc a / 2) → Enough (suc a)
      more a ih zero b h = absurd (omega arith)
      more a ih (suc n) b h =
          ap (λ (t : ℕ). t * 2 + f (suc a % 2) (b % 2))
            (ih n (b / 2) (omega arith) ∙ sym (ih a (b / 2) (omega arith)))

  pub bitwise_step :
      ((b : ℕ) → z b ≡ z (b / 2) * 2 + f 0 (b % 2))
      → (a b : ℕ) → bitwise z f a b ≡ bitwise z f (a / 2) (b / 2) * 2 + f (a % 2) (b % 2)
  bitwise_step tail zero b = tail b
  bitwise_step tail (suc a) b =
      ap (λ (t : ℕ). t * 2 + f (suc a % 2) (b % 2)) (enough (suc a / 2) a (b / 2) (omega arith))

-- An operation that works on each digit by `f`.
pub record Digitwise (op f : ℕ → ℕ → ℕ) : Type 0 where
  pub empty : op 0 0 ≡ 0
  pub step : (a b : ℕ) → op a b ≡ op (a / 2) (b / 2) * 2 + f (a % 2) (b % 2)
  pub digit : (x y : ℕ) → x < 2 → y < 2 → f x y < 2

pub bit_and-Digitwise : Digitwise bit_and min
bit_and-Digitwise = record {
  empty = refl;
  step = λ a b. simp bit_and-bitwise (bitwise_step (λ _. 0) min (λ b. omega arith) a b);
  digit = λ x y p q. omega arith;
}

pub bit_or-Digitwise : Digitwise bit_or max
bit_or-Digitwise = record {
  empty = refl;
  step = λ a b. simp bit_or-bitwise (bitwise_step (λ y. y) max (λ b. omega arith) a b);
  digit = λ x y p q. omega arith;
}

differ_digit : (x y : ℕ) → x < 2 → y < 2 → differ x y < 2
differ_digit zero y p q = q
differ_digit (suc zero) zero p q = p
differ_digit (suc zero) (suc y) p q = omega arith
differ_digit (suc (suc x)) y p q = absurd (omega arith)

pub bit_xor-Digitwise : Digitwise bit_xor differ
bit_xor-Digitwise = record {
  empty = refl;
  step = λ a b. simp bit_xor-bitwise (bitwise_step (λ y. y) differ (λ b. omega arith) a b);
  digit = differ_digit;
}
