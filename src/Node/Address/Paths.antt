-- ===== src/Node/Address/Paths.antt =====
-- node/src/block_proposer.rs: what `AddressPath::next` pops, and the way down and up the tree.
use native.Mathlib.Nat.{pow-suc, one-le-pow, pow-le-pow_right}
use mozak_vm.Prelude.{
  ℕ, zero, suc, ◌-◌, ◌%◌, ◌^◌, ◌<◌, bit_and, Bool, some, ltb, ◌==◌, if◌then◌else◌, ◌≡◌, ◌∙◌, refl,
  arith,
}
use mozak_vm.Prelude.Bits.{bit_and_mask, bit_and_disjoint, bit_and_top}
use mozak_vm.Node.Address.{Dir, left, right, path, next, shl, next_step}

-- the side of the bit above `bits` low bits
unfoldable pub side : ℕ → ℕ → Dir
side addr bits = if ltb addr (2 ^ bits) then left else right

pub small_power : (n : ℕ) → n < 64 → 2 ^ n < 2 ^ 64
small_power n h = omega (
  arith,
  pow-suc 2 n,
  one-le-pow n 2,
  pow-le-pow_right {n = 2} (omega arith) {i = suc n} {j = 64} h,
)

pub shl_one : (n : ℕ) → n < 64 → shl 1 n ≡ 2 ^ n
unfolding shl
shl_one n h = rw (amount n h) (omega (arith, small_power n h))
  where
    amount : (n : ℕ) → n < 64 → n % 64 ≡ n
    amount n h = omega arith

top_clear : (k a : ℕ) → a < 2 ^ k → bit_and a (2 ^ k) ≡ 0
top_clear k a h = ground (arith, bit_and_disjoint k 1 a h)

top_set : (k a : ℕ) → 2 ^ k < suc a → a < 2 ^ suc k → bit_and a (2 ^ k) ≡ 2 ^ k
top_set k a h h' = ground (arith, pow-suc 2 k, bit_and_top k (a - 2 ^ k))

-- the test of the bit at the mask
side_lem : (k a : ℕ) → a < 2 ^ suc k → (if bit_and a (2 ^ k) == 0 then left else right) ≡ side a k
unfolding side
side_lem k a h = ground (arith, one-le-pow k 2, top_clear k a, top_set k a)

-- `next` takes the side of the top bit, and the path of the bits below is left.
pub next_lem :
    (addr bits : ℕ)
    → bits < 64
    → addr < 2 ^ suc bits
    → next (record { height = bits; addr = addr }) ≡ (path (addr % 2 ^ bits) bits, side addr bits)
unfolding next path
next_lem addr zero h h' = rw (shl_one 0 h) (rw (side_lem 0 addr h') refl)
next_lem addr (suc bits) h h' =
    rw (shl_one (suc bits) h)
      (rw (side_lem (suc bits) addr h') (rw (bit_and_mask (suc bits) addr) (ground arith)))

-- ...so a path of `bits` bits gives a side, and the path of the remaining ones.
pub next_step_lem :
    (debug : Bool) (addr bits : ℕ)
    → bits < 64
    → addr < 2 ^ suc bits
    → next_step debug addr bits ≡ some (path (addr % 2 ^ bits) bits, side addr bits)
unfolding next_step
next_step_lem debug addr bits h h' = rw (next_lem addr bits h h') (ground arith)

-- The debug assertion at the end of `next`: nothing is left of the last bit.
pub last_bit : (a : ℕ) → bit_and a (shl 1 0 - 1) ≡ 0
unfolding shl
last_bit a = bit_and_mask 0 a ∙ none_left a
  where
    none_left : (a : ℕ) → a % 2 ^ 0 ≡ 0
    none_left a = omega arith
