-- ===== src/Prelude/Bits.antt =====
-- `|` of disjoint fields, `&` with a mask and the width of results, as arithmetic.
mod Step
use Step.{halving, Digitwise, bit_and-Digitwise, bit_or-Digitwise, bit_xor-Digitwise}
use Prim.Native.Nat.{max, bit_and-bitwise, bit_or-bitwise, bit_and-bitwise}
use native.Mathlib.Nat.{pow-suc, one-le-pow, div-add-mod'}
use mozak_vm.Prelude.{
  ℕ, zero, suc, ◌+◌, ◌-◌, ◌*◌, ◌/◌, ◌%◌, ◌^◌, ◌<◌, min, bit_and, bit_or, bit_xor, ◌≡◌, ◌∙◌, sym,
  refl, arith, ap,
}

module _ {op f : ℕ → ℕ → ℕ} (d : Digitwise op f) where
  -- The result on numbers of `k` bits has `k` bits.
  fits : (k a b : ℕ) → a < 2 ^ k → b < 2 ^ k → op a b < 2 ^ k
  fits zero zero zero p q = omega (arith, d.empty)
  fits zero zero (suc b) p q = absurd (omega arith)
  fits zero (suc a) b p q = absurd (omega arith)
  fits (suc k) a b p q =
      let digit = d.digit (a % 2) (b % 2) (omega arith) (omega arith) in
      let high = fits k (a / 2) (b / 2) (omega (arith, pow-suc 2 k)) (omega (arith, pow-suc 2 k)) in
      omega (arith, pow-suc 2 k, d.step a b)

  doubled : (q k : ℕ) → q * 2 ^ suc k ≡ q * 2 ^ k * 2
  doubled q k = omega (arith, ap (λ (t : ℕ). q * t) (pow-suc 2 k))

  -- High and low fields do not mix.
  fields :
      (k q r q' r' : ℕ)
      → r < 2 ^ k
      → r' < 2 ^ k
      → op (q * 2 ^ k + r) (q' * 2 ^ k + r') ≡ op q q' * 2 ^ k + op r r'
  fields zero q zero q' zero h h' = ground (arith, d.empty)
  fields zero q zero q' (suc r') h h' = absurd (omega arith)
  fields zero q (suc r) q' r' h h' = absurd (omega arith)
  fields (suc k) q r q' r' h h' = ground (
    arith,
    pow-suc 2 k,
    doubled q k,
    doubled q' k,
    doubled (op q q') k,
    d.step (q * 2 ^ suc k + r) (q' * 2 ^ suc k + r'),
    d.step r r',
    fields k q (r / 2) q' (r' / 2),
  )

pub bit_and-lt : (k a b : ℕ) → a < 2 ^ k → b < 2 ^ k → bit_and a b < 2 ^ k
bit_and-lt = fits bit_and-Digitwise

pub bit_or-lt : (k a b : ℕ) → a < 2 ^ k → b < 2 ^ k → bit_or a b < 2 ^ k
bit_or-lt = fits bit_or-Digitwise

pub bit_xor-lt : (k a b : ℕ) → a < 2 ^ k → b < 2 ^ k → bit_xor a b < 2 ^ k
bit_xor-lt = fits bit_xor-Digitwise

no_bits_or : (a : ℕ) → bit_or a 0 ≡ a
no_bits_or =
    halving (λ a. bit_or a 0 ≡ a) refl λ n ih. omega (arith, ih, bit_or-Digitwise.step (suc n) 0)

no_bits_and : (a : ℕ) → bit_and a 0 ≡ 0
no_bits_and =
    halving (λ a. bit_and a 0 ≡ 0) refl λ n ih. omega (arith, ih, bit_and-Digitwise.step (suc n) 0)

-- `(q << k) | r` is a sum when `r` fits `k` bits.
pub bit_or_fields : (k q r : ℕ) → r < 2 ^ k → bit_or (q * 2 ^ k) r ≡ q * 2 ^ k + r
bit_or_fields k q r h =
    ground
      (arith, one-le-pow k 2, fields bit_or-Digitwise k q 0 0 r, no_bits_or q, bit_or-bitwise 0 r)

all_bits : (k r : ℕ) → r < 2 ^ k → bit_and r (2 ^ k - 1) ≡ r
all_bits zero r h = omega (arith, no_bits_and r)
all_bits (suc k) r h = ground (
  arith,
  pow-suc 2 k,
  one-le-pow k 2,
  bit_and-Digitwise.step r (2 ^ suc k - 1),
  all_bits k (r / 2),
)

-- A mask of `k` low bits is the remainder by `2 ^ k`.
pub bit_and_mask : (k a : ℕ) → bit_and a (2 ^ k - 1) ≡ a % 2 ^ k
bit_and_mask k a = ground (
  arith,
  one-le-pow k 2,
  fields bit_and-Digitwise k (a / 2 ^ k) (a % 2 ^ k) 0 (2 ^ k - 1),
  no_bits_and (a / 2 ^ k),
  all_bits k (a % 2 ^ k),
)

-- one bit
pub bit_and-two : (a : ℕ) → bit_and a 2 ≡ 2 * (a / 2 % 2)
bit_and-two a = omega (arith, bit_and-Digitwise.step a 2, bit_and_mask 1 (a / 2))

pub bit_and-four : (a : ℕ) → bit_and a 4 ≡ 4 * (a / 4 % 2)
bit_and-four a = omega (arith, bit_and-Digitwise.step a 4, bit_and-two (a / 2))

-- A number of `k` bits and one whose low `k` bits are zero have no bit in common.
pub bit_and_disjoint : (k q r : ℕ) → r < 2 ^ k → bit_and r (q * 2 ^ k) ≡ 0
bit_and_disjoint k q r h =
    ground (
      arith,
      one-le-pow k 2,
      fields bit_and-Digitwise k 0 r q 0,
      no_bits_and r,
      bit_and-bitwise 0 q,
    )

-- The bit above `k` low bits.
pub bit_and_top : (k r : ℕ) → r < 2 ^ k → bit_and (2 ^ k + r) (2 ^ k) ≡ 2 ^ k
bit_and_top k r h =
    ground (arith, one-le-pow k 2, fields bit_and-Digitwise k 1 r 1 0, no_bits_and r)
