-- ===== src/Node/Address/Walks.antt =====
-- node/src/block_proposer.rs: the directions of an address lead from the root to it.
use native.Mathlib.Nat.{one-le-pow, pow-le-pow_right, le-mul_of_pos_right}
use mozak_vm.Prelude.{
  ℕ, zero, suc, ◌+◌, ◌*◌, ◌%◌, ◌^◌, ◌≤◌, ◌<◌, bit_or, Option, none, some, ◌≡◌, ◌∙◌, sym, ap, arith,
}
use mozak_vm.Prelude.Bits.{bit_or_fields}
use mozak_vm.Node.Address.{
  Dir, left, right, Address, AddressPath, path, next, BranchAddress, Descent, inner, bottom, root,
  child, shl, dir_bit,
}
use mozak_vm.Node.Address.Paths.{side, next_lem}
use mozak_vm.Node.Address.Sides.{position, position_lem, doubled}

-- Down the tree by `next` and `child` together, with the fuel of as many steps.
abbrev arrive :
    (AddressPath → BranchAddress → Option Address) → Option AddressPath → Descent → Option Address
arrive deeper none (bottom addr) = some addr
arrive deeper (some rest) (inner at) = deeper rest at
arrive deeper none (inner at) = none
arrive deeper (some rest) (bottom addr) = none

unfoldable pub walk : ℕ → AddressPath → BranchAddress → Option Address
unfolding next child
walk zero self at = none
walk (suc bits) self at =
    let (rest, dir) = next self in arrive (λ rest at. walk bits rest at) rest (child at dir)

-- One step down from `q`.
child_bits : (q : ℕ) (d : Dir) → 2 * q < 2 ^ 64 → bit_or (shl q 1) (dir_bit d) ≡ position q d
unfolding shl dir_bit position
child_bits q left h = ground (arith, bit_or_fields 1 q 0 (omega arith))
child_bits q right h = ground (arith, bit_or_fields 1 q 1 (omega arith))

child_bottom :
    (q : ℕ) (d : Dir)
    → 2 * q < 2 ^ 64
    → child (record { height = 0; addr = q }) d ≡ bottom (position q d)
unfolding child
child_bottom q d h = ap bottom (child_bits q d h)

child_inner :
    (bits q : ℕ) (d : Dir)
    → 2 * q < 2 ^ 64
    → child (record { height = suc bits; addr = q }) d
      ≡ inner (record { height = bits; addr = position q d })
unfolding child
child_inner bits q d h = rw (child_bits q d h) (ground arith)

walk_step :
    (bits : ℕ) (self : AddressPath) (at : BranchAddress) {rest : Option AddressPath} {d : Dir}
    {down : Descent}
    → next self ≡ (rest, d)
    → child at d ≡ down
    → walk (suc bits) self at ≡ arrive (λ rest at. walk bits rest at) rest down
unfolding walk
walk_step bits self at {rest = rest} e e' =
    ap (λ (x : Option AddressPath × Dir). arrive (λ rest at. walk bits rest at) x.0 (child at x.1))
      e
    ∙ ap (λ (x : Descent). arrive (λ rest at. walk bits rest at) rest x) e'

-- The position is below the address.
above_le : (q bits a addr : ℕ) → addr ≡ q * 2 ^ suc bits + a → 2 * q ≤ addr
above_le q bits a addr e = omega (
  arith,
  e,
  doubled q bits,
  le-mul_of_pos_right {m = 2 ^ bits} (2 * q) (one-le-pow bits 2 (omega arith)),
)

at_leaf : {addr q low : ℕ} → addr ≡ q * 2 ^ 0 + low → low < 2 ^ 0 → addr ≡ q
at_leaf e h = omega arith

rest_lt : (a : ℕ) → a % 2 ^ 0 < 2 ^ 0
rest_lt a = omega arith

walk_from :
    (bits q a addr : ℕ)
    → bits < 64
    → a < 2 ^ suc bits
    → addr ≡ q * 2 ^ suc bits + a
    → addr < 2 ^ 64
    → walk (suc bits) (record { height = bits; addr = a }) (record { height = bits; addr = q })
      ≡ some addr
unfolding path
walk_from zero q a addr h below e fits =
    let there = position_lem q 0 a addr e below in
    walk_step 0 (record { height = 0; addr = a }) (record { height = 0; addr = q })
      (next_lem a 0 h below) (child_bottom q (side a 0) (omega (arith, above_le q 0 a addr e)))
    ∙ ap some (sym (at_leaf there (rest_lt a)))
walk_from (suc bits) q a addr h below e fits =
    walk_step (suc bits) (record { height = suc bits; addr = a })
      (record { height = suc bits; addr = q }) (next_lem a (suc bits) h below)
      (child_inner bits q (side a (suc bits)) (omega (arith, above_le q (suc bits) a addr e)))
    ∙ walk_from bits _ _ addr (omega arith) (omega (arith, one-le-pow (suc bits) 2))
        (position_lem q (suc bits) a addr e below) fits

-- In a tree of at most 64 bits, the directions that AddressPath::next takes from an address of
-- as many bits lead from the root, by BranchAddress::child, to the leaf of that address, in as
-- many steps.
pub walk-path :
    (bits addr : ℕ)
    → bits < 64
    → addr < 2 ^ suc bits
    → walk (suc bits) (record { height = bits; addr = addr }) (root bits) ≡ some addr
unfolding root
walk-path bits addr h below =
    walk_from bits 0 addr addr h below (omega arith)
      (omega (arith, pow-le-pow_right {n = 2} (omega arith) {i = suc bits} {j = 64} h))
