-- ===== src/Node/Address/Sides.antt =====
-- node/src/block_proposer.rs: an address is the side of its top bit and the address below it.
use native.Mathlib.Nat.{pow-suc, mod-eq_of_lt, mod-eq-sub-mod}
use mozak_vm.Prelude.{
  ℕ, suc, ◌+◌, ◌-◌, ◌*◌, ◌%◌, ◌^◌, ◌≤◌, ◌<◌, Bool, true, false, ◌&&◌, ltb, ◌==◌, ◌≡◌, refl, arith,
  inl, inr, ap, Bool-cases, ltb→lt, ◌∙◌,
}
use mozak_vm.Node.Address.{Dir, left, right}
use mozak_vm.Node.Address.Paths.{side}

-- On the left, the address below is the address; on the right, it is less by the weight of the bit.
pub data Located (a bits : ℕ) : Dir → ℕ → Type 0 where
  lower : a < 2 ^ bits → Located a bits left a
  upper : {low : ℕ} → a ≡ 2 ^ bits + low → low < 2 ^ bits → Located a bits right low

pub located : (a bits : ℕ) → a < 2 ^ suc bits → Located a bits (side a bits) (a % 2 ^ bits)
unfolding side
located a bits h = elim (Bool-cases (ltb a (2 ^ bits))) [
  | inl e ↦ let below = ltb→lt a (2 ^ bits) e in rw e (rw (mod-eq_of_lt below) (lower below))
  | inr e ↦
      let above : 2 ^ bits ≤ a = ground arith in
      let low : a - 2 ^ bits < 2 ^ bits = omega (arith, pow-suc 2 bits) in
      rw e (rw (mod-eq-sub-mod above ∙ mod-eq_of_lt low) (upper (omega arith) low))
]

unfoldable pub same_side : Dir → Dir → Bool
same_side left left = true
same_side left right = false
same_side right left = false
same_side right right = true

same_located :
    {a b bits low low' : ℕ} {d d' : Dir}
    → Located a bits d low
    → Located b bits d' low'
    → (a == b) ≡ (same_side d d' && (low == low'))
unfolding same_side
same_located (lower h) (lower h') = refl
same_located (lower h) (upper e h') = ground arith
same_located (upper e h) (lower h') = ground arith
same_located (upper e h) (upper e' h') = ground arith

-- Two addresses are equal if their sides and the addresses below are.
pub same_address :
    (a b bits : ℕ)
    → a < 2 ^ suc bits
    → b < 2 ^ suc bits
    → (a == b) ≡ (same_side (side a bits) (side b bits) && (a % 2 ^ bits == b % 2 ^ bits))
same_address a b bits h h' = same_located (located a bits h) (located b bits h')

-- the position of the child on a side
unfoldable pub position : ℕ → Dir → ℕ
position q left = 2 * q
position q right = 2 * q + 1

pub doubled : (q bits : ℕ) → q * 2 ^ suc bits ≡ 2 * q * 2 ^ bits
doubled q bits = omega (arith, ap (λ (t : ℕ). q * t) (pow-suc 2 bits))

-- The address is what is above the level and what is below.
pub position_lem :
    (q bits a addr : ℕ)
    → addr ≡ q * 2 ^ suc bits + a
    → a < 2 ^ suc bits
    → addr ≡ position q (side a bits) * 2 ^ bits + a % 2 ^ bits
unfolding position
position_lem q bits a addr e below = go (located a bits below)
  where
    go : {d : Dir} {low : ℕ} → Located a bits d low → addr ≡ position q d * 2 ^ bits + low
    go (lower h) = omega (arith, e, doubled q bits)
    go (upper e' h) = omega (arith, e, doubled q bits, e')
