-- ===== src/Node/Address.antt =====
-- node/src/block_proposer.rs: directions, addresses, the path of an address down the tree, and the
-- addresses of inner nodes. Shifts of a `u64` take the amount modulo 64, as in a build without
-- overflow checks; below 64 every build agrees.
pub mod Paths
pub mod Sides
pub mod Walks
use Prim.Native.Nat.{compare, Ordering}
use mozak_vm.Prelude.{
  ℕ, zero, suc, ◌+◌, ◌-◌, ◌*◌, ◌/◌, ◌%◌, ◌^◌, bit_and, bit_or, bit_xor, Bool, true, false, not,
  ◌&&◌, Option, none, some, ltb, ◌==◌, if◌then◌else◌,
}

pub data Dir : Type 0 where
  left : Dir
  right : Dir

-- `u64`
unfoldable pub shl : ℕ → ℕ → ℕ
shl a n = a * 2 ^ (n % 64) % 2 ^ 64

unfoldable pub shr : ℕ → ℕ → ℕ
shr a n = a / 2 ^ (n % 64)

-- `Address` is its `u64`.
abbrev pub Address : Type 0
Address = ℕ

pub record AddressPath : Type 0 where
  pub height : ℕ
  pub addr : ℕ

unfoldable pub path : ℕ → ℕ → Option AddressPath
path addr zero = none
path addr (suc bits) = some (record { height = bits; addr = addr })

unfoldable pub is_zero : AddressPath → Bool
is_zero self = self.addr == 0

-- The debug assertion at the end holds for every path: Address/Paths, `last_bit`.
unfoldable pub next : AddressPath → Option AddressPath × Dir
unfolding shl
next self =
    let msb_mask = shl 1 self.height in
    let dir = if bit_and self.addr msb_mask == 0 then left else right in
    let popped = bit_and self.addr (msb_mask - 1) in
    if self.height == 0
    then (none, dir)
    else (some (record { height = self.height - 1; addr = popped }), dir)

-- `Address::next`, which a build with debug assertions checks
unfoldable pub next_step : Bool → Address → ℕ → Option (Option AddressPath × Dir)
unfolding next
next_step debug_assertions addr height =
    if debug_assertions && not (ltb addr (2 ^ (height + 1)))
    then none
    else some (next (record { height = height; addr = addr }))

pub record BranchAddress : Type 0 where
  pub height : ℕ
  pub addr : Address

-- What `child` gives: an inner node, or the address of a leaf.
pub data Descent : Type 0 where
  inner : BranchAddress → Descent
  bottom : Address → Descent

abbrev partial_cmp : BranchAddress → BranchAddress → Option Ordering
partial_cmp self other =
    if self.height == other.height then some (compare self.addr other.addr) else none

unfoldable pub root : ℕ → BranchAddress
root height = record { height = height; addr = 0 }

unfoldable pub base : ℕ → BranchAddress
base a = record { height = 0; addr = a }

unfoldable pub dir_bit : Dir → ℕ
dir_bit left = 0
dir_bit right = 1

unfoldable pub child : BranchAddress → Dir → Descent
unfolding shl dir_bit
child self dir =
    let addr = bit_or (shl self.addr 1) (dir_bit dir) in
    if self.height == 0
    then bottom addr
    else inner (record { height = self.height - 1; addr = addr })

unfoldable pub parent : BranchAddress → ℕ → BranchAddress
unfolding shr
parent self n = record { height = self.height + n; addr = shr self.addr n }

-- `u64::BITS - x.leading_zeros()` for a number of at most `bits` bits
unfoldable pub bit_length : ℕ → ℕ → ℕ
bit_length zero x = 0
bit_length (suc bits) x = let rest = bit_length bits (x / 2) in if x == 0 then 0 else suc rest

-- The debug assertion compares with `rhs`, which has no other effect.
unfoldable pub common_ancestor : BranchAddress → BranchAddress → BranchAddress
unfolding parent bit_length
common_ancestor self rhs =
    let lower = parent self (rhs.height - self.height) in
    let other = parent rhs (self.height - rhs.height) in
    parent lower (bit_length 64 (bit_xor lower.addr other.addr))

pub data BranchAddressComparison : Type 0 where
  equal : BranchAddressComparison
  left_child right_child : BranchAddressComparison
  left_sibling right_sibling : BranchAddressComparison
  left_parent right_parent : BranchAddressComparison
  left_cousin right_cousin : BranchAddressComparison

-- both at one height
unfoldable pub compare_level : ℕ → ℕ → BranchAddressComparison
unfolding shr
compare_level self rhs = elim (compare (shr self 1) (shr rhs 1)) [
  | Ordering.lt ↦ right_cousin
  | Ordering.eq ↦ elim (compare (bit_and self 1) (bit_and rhs 1)) [
    | Ordering.lt ↦ right_sibling
    | Ordering.eq ↦ equal
    | Ordering.gt ↦ left_sibling
  ]
  | Ordering.gt ↦ left_cousin
]

unfoldable pub related : Dir → Bool → BranchAddressComparison
related left true = left_child
related right true = right_child
related left false = left_parent
related right false = right_parent

-- one above the other; the flag is `lhs_is_parent`
unfoldable pub compare_levels : BranchAddress → BranchAddress → Bool → BranchAddressComparison
unfolding shr shl next related
compare_levels upper lower lhs_is_parent =
    let delta = upper.height - lower.height in
    let addr = bit_and lower.addr (shl 1 delta - 1) in
    elim (compare (shr lower.addr delta) upper.addr) [
      | Ordering.lt ↦ if lhs_is_parent then left_cousin else right_cousin
      | Ordering.eq ↦ related (next (record { height = delta - 1; addr = addr })).1 lhs_is_parent
      | Ordering.gt ↦ if lhs_is_parent then right_cousin else left_cousin
    ]

unfoldable pub compare_nodes : BranchAddress → BranchAddress → BranchAddressComparison
unfolding compare_level compare_levels
compare_nodes self rhs = elim (compare self.height rhs.height) [
  | Ordering.lt ↦ compare_levels rhs self false
  | Ordering.eq ↦ compare_level self.addr rhs.addr
  | Ordering.gt ↦ compare_levels self rhs true
]
