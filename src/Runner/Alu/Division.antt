-- ===== src/Runner/Alu/Division.antt =====
-- runner/src/vm.rs: DIV, DIVU, REM and REMU.
use native.Mathlib.Nat.{div-add-mod', mod-lt, mod-le, div-le_self}
use mozak_vm.Prelude.{
  ℕ, ◌+◌, ◌-◌, ◌*◌, ◌/◌, ◌%◌, ◌^◌, ◌≤◌, ◌<◌, ◌≡◌, ◌≢◌, true, false, ◌&&◌, refl, arith, Bool, ◌==◌,
  ◌⊎◌, inl, if◌then◌else◌, inr, ap, Bool-cases, sym, ◌∙◌,
}
use mozak_vm.Prelude.Int.{ℤ, pos, negsuc, ◌+ℤ◌, ◌*ℤ◌, pos_part, neg_part, abs}
use mozak_vm.Word.{IsU32, to_i32, as_u32}
use mozak_vm.Word.Laws.{to_i32-as_u32, to_i32_bounds, as_u32-to_i32}
use mozak_vm.Runner.Outcome.{ok, panic, ◌>>=◌, Returns, divided_by_zero, arithmetic_overflow}
use mozak_vm.Runner.Alu.{div, divu, rem, remu, quotient, remainder, overflows, is_zero}

-- The guards leave no division that panics.
pub div-Returns : (a b : ℕ) → Returns (div a b)
unfolding div
div-Returns a b =
    go (is_zero (to_i32 b)) (overflows (to_i32 a) (to_i32 b)) (quotient (to_i32 a) (to_i32 b))
  where
    go :
        (z o : Bool) (q : ℤ)
        → Returns (
            if z
            then ok 0xFFFF_FFFF
            else (if o
                then ok (to_i32 a)
                else if z
                then panic divided_by_zero
                else if o
                then panic arithmetic_overflow
                else ok q)
              >>= λ q. ok (as_u32 q))
    go true o x = (_, refl)
    go false true x = (_, refl)
    go false false x = (_, refl)

pub rem-Returns : (a b : ℕ) → Returns (rem a b)
unfolding rem
rem-Returns a b =
    go (is_zero (to_i32 b)) (overflows (to_i32 a) (to_i32 b)) (remainder (to_i32 a) (to_i32 b))
  where
    go :
        (z o : Bool) (r : ℤ)
        → Returns (
            (if z
              then ok (to_i32 a)
              else if o
              then ok (pos 0)
              else if z
              then panic divided_by_zero
              else if o
              then panic arithmetic_overflow
              else ok r)
            >>= λ r. ok (as_u32 r))
    go true o x = (_, refl)
    go false true x = (_, refl)
    go false false x = (_, refl)

-- The unsigned division by zero, and any other.
abbrev pub DividesU32 : ℕ → ℕ → ℕ → ℕ → Type 0
DividesU32 a b q r = ((b ≡ 0) × (q ≡ 2 ^ 32 - 1) × (r ≡ a)) ⊎ ((b ≢ 0) × (q * b + r ≡ a) × (r < b))

-- DIVU and REMU come to numbers without a panic. By zero, the quotient has all bits set and the
-- remainder is the dividend; by any other divisor, quotient times divisor plus remainder is the
-- dividend, and the remainder is smaller than the divisor.
pub divu-remu_rebuild :
    (a b : ℕ) → (q : ℕ) × (r : ℕ) × (divu a b ≡ ok q) × (remu a b ≡ ok r) × DividesU32 a b q r
unfolding divu remu
divu-remu_rebuild a b = elim (Bool-cases (b == 0)) [
  | inl e ↦ (2 ^ 32 - 1, a, rw e refl, rw e refl, inl (ground arith, refl, refl))
  | inr e ↦
      let nz : b ≢ 0 = ground arith in
      (a / b, a % b, rw e refl, rw e refl, inr (nz, div-add-mod' a b, mod-lt a (omega arith)))
]

pub divu-Returns : (a b : ℕ) → Returns (divu a b)
divu-Returns a b = let (q, _, e, _, _) = divu-remu_rebuild a b in (q, e)

pub remu-Returns : (a b : ℕ) → Returns (remu a b)
remu-Returns a b = let (_, r, _, e, _) = divu-remu_rebuild a b in (r, e)

rebuild_ℤ : (s t : ℤ) → overflows s t ≡ false → quotient s t *ℤ t +ℤ remainder s t ≡ s
unfolding quotient remainder ◌*ℤ◌ ◌+ℤ◌
rebuild_ℤ (pos a) (pos b) h = ground (arith, div-add-mod' a b)
rebuild_ℤ (pos a) (negsuc b) h = ground (arith, div-add-mod' a (b + 1))
rebuild_ℤ (negsuc a) (pos b) h = ground (arith, div-add-mod' (a + 1) b)
rebuild_ℤ (negsuc a) (negsuc b) h = ground (arith, div-add-mod' (a + 1) (b + 1))

mod_bound : (a b : ℕ) → b ≢ 0 → (a % b < b) × (a % b ≤ a)
mod_bound a b h = (mod-lt a (omega arith), mod-le a b)

mul_half : (q b : ℕ) → b ≢ 0 → q * 2 ≤ q * (b + 1)
mul_half q b h = grind arith

-- A quotient by two or more is at most half.
div_half : (a b : ℕ) → b ≢ 0 → a / (b + 1) * 2 ≤ a
div_half a b h = omega (arith, div-add-mod' a (b + 1), mul_half (a / (b + 1)) b h)

quotient_bounds :
    (s t : ℤ)
    → overflows s t ≡ false
    → pos_part s < 2 ^ 31
    → neg_part s ≤ 2 ^ 31
    → (pos_part (quotient s t) < 2 ^ 31) × (neg_part (quotient s t) ≤ 2 ^ 31)
unfolding quotient
quotient_bounds (pos a) (pos b) h p n = ground (arith, div-le_self a b)
quotient_bounds (pos a) (negsuc b) h p n = ground (arith, div-le_self a (b + 1))
quotient_bounds (negsuc a) (pos b) h p n = ground (arith, div-le_self (a + 1) b)
quotient_bounds (negsuc a) (negsuc b) h p n =
    ground (arith, div-le_self (a + 1) (b + 1), div_half (a + 1) b)

-- The remainder is smaller than the divisor and has the sign of the dividend.
remainder_bounds :
    (s t : ℤ)
    → is_zero t ≡ false
    → (abs (remainder s t) < abs t)
      × (pos_part (remainder s t) ≤ pos_part s)
      × (neg_part (remainder s t) ≤ neg_part s)
unfolding remainder
remainder_bounds (pos a) (pos b) h = ground (arith, mod_bound a b)
remainder_bounds (pos a) (negsuc b) h = ground (arith, mod_bound a (b + 1))
remainder_bounds (negsuc a) (pos b) h = ground (arith, mod_bound (a + 1) b)
remainder_bounds (negsuc a) (negsuc b) h = ground (arith, mod_bound (a + 1) (b + 1))

module _ (a b : ℕ) (ha : IsU32 a) (hb : IsU32 b) where
  is_zero-to_i32 : is_zero (to_i32 b) ≡ (b == 0)
  unfolding to_i32
  is_zero-to_i32 = ground arith

  overflows-to_i32 : overflows (to_i32 a) (to_i32 b) ≡ (a == 2 ^ 31 && b == 2 ^ 32 - 1)
  unfolding to_i32
  overflows-to_i32 = ground arith

  nonzero : b ≢ 0 → is_zero (to_i32 b) ≡ false
  nonzero nz = rw is_zero-to_i32 (ground arith)

  div-zero : b ≡ 0 → div a b ≡ ok (2 ^ 32 - 1)
  unfolding div
  div-zero e = let z : is_zero (to_i32 b) ≡ true = rw is_zero-to_i32 (ground arith) in rw z refl

  rem-zero : b ≡ 0 → rem a b ≡ ok a
  unfolding rem
  rem-zero e =
      let z : is_zero (to_i32 b) ≡ true = rw is_zero-to_i32 (ground arith) in
      rw z (ap ok (as_u32-to_i32 a ha))

  div-fits :
      b ≢ 0
      → overflows (to_i32 a) (to_i32 b) ≡ false
      → div a b ≡ ok (as_u32 (quotient (to_i32 a) (to_i32 b)))
  unfolding div
  div-fits nz fits = rw (nonzero nz, fits) refl

  rem-fits :
      b ≢ 0
      → overflows (to_i32 a) (to_i32 b) ≡ false
      → rem a b ≡ ok (as_u32 (remainder (to_i32 a) (to_i32 b)))
  unfolding rem
  rem-fits nz fits = rw (nonzero nz, fits) refl

  div-overflows : b ≢ 0 → overflows (to_i32 a) (to_i32 b) ≡ true → div a b ≡ ok a
  unfolding div
  div-overflows nz o = rw (nonzero nz, o) (ap ok (as_u32-to_i32 a ha))

  rem-overflows : b ≢ 0 → overflows (to_i32 a) (to_i32 b) ≡ true → rem a b ≡ ok 0
  unfolding rem as_u32
  rem-overflows nz o = rw (nonzero nz, o) refl

  -- quotient and remainder that are signed words
  abbrev pub DividesI32 : ℕ → ℕ → Type 0
  DividesI32 q r =
      (to_i32 q *ℤ to_i32 b +ℤ to_i32 r ≡ to_i32 a)
      × (abs (to_i32 r) < abs (to_i32 b))
      × (pos_part (to_i32 r) ≤ pos_part (to_i32 a))
      × (neg_part (to_i32 r) ≤ neg_part (to_i32 a))

  reads :
      b ≢ 0
      → overflows (to_i32 a) (to_i32 b) ≡ false
      → DividesI32
          (as_u32 (quotient (to_i32 a) (to_i32 b)))
          (as_u32 (remainder (to_i32 a) (to_i32 b)))
  reads nz fits =
      let (pa, na) = to_i32_bounds a ha in
      let (p, n) = quotient_bounds (to_i32 a) (to_i32 b) fits pa na in
      let (size, p', n') = remainder_bounds (to_i32 a) (to_i32 b) (nonzero nz) in
      rw
        (
          to_i32-as_u32 (quotient (to_i32 a) (to_i32 b)) p n,
          to_i32-as_u32 (remainder (to_i32 a) (to_i32 b)) (omega arith) (omega arith),
        )
        (rebuild_ℤ (to_i32 a) (to_i32 b) fits, size, p', n')

  -- The three cases of a signed division.
  abbrev pub Divides : ℕ → ℕ → Type 0
  Divides q r =
      ((b ≡ 0) × (q ≡ 2 ^ 32 - 1) × (r ≡ a))
      ⊎ ((a ≡ 2 ^ 31) × (b ≡ 2 ^ 32 - 1) × (q ≡ 2 ^ 31) × (r ≡ 0))
      ⊎ DividesI32 q r

  -- DIV and REM of 32-bit words come to words without a panic. By zero, the quotient has all
  -- bits set and the remainder is the dividend; -2^31 by -1 gives -2^31 and 0; in any other
  -- case, quotient times divisor plus remainder is the dividend, as signed integers, and the
  -- remainder is smaller in size than the divisor and has no other sign than the dividend.
  pub div-rem_rebuild : (q : ℕ) × (r : ℕ) × (div a b ≡ ok q) × (rem a b ≡ ok r) × Divides q r
  div-rem_rebuild = elim (Bool-cases (b == 0)) [
    | inl e ↦
        let z : b ≡ 0 = ground arith in (2 ^ 32 - 1, a, div-zero z, rem-zero z, inl (z, refl, refl))
    | inr e ↦
        let nz : b ≢ 0 = ground arith in
        elim (Bool-cases (overflows (to_i32 a) (to_i32 b))) [
          | inl o ↦
              let o' : (a == 2 ^ 31 && b == 2 ^ 32 - 1) ≡ true = sym overflows-to_i32 ∙ o in
              let ea : a ≡ 2 ^ 31 = ground arith in
              let eb : b ≡ 2 ^ 32 - 1 = ground arith in
              (a, 0, div-overflows nz o, rem-overflows nz o, inr (inl (ea, eb, ea, refl)))
          | inr fits ↦ (_, _, div-fits nz fits, rem-fits nz fits, inr (inr (reads nz fits)))
        ]
  ]
