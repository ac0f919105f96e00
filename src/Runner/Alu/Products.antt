-- ===== src/Runner/Alu/Products.antt =====
-- runner/src/vm.rs: MULH, MULHU and MULHSU.
use mozak_vm.Prelude.{
  ℕ, suc, ◌+◌, ◌-◌, ◌*◌, ◌^◌, ◌≤◌, ◌<◌, ◌≡◌, refl, arith, ap, inl, inr, ltb, Bool-cases,
}
use mozak_vm.Prelude.Int.{ℤ, pos, negsuc, ◌*ℤ◌, pos_part, neg_part, shr_ℤ}
use mozak_vm.Word.{IsU32, wrapping_mul, to_i32, to_i64, as_u32}
use mozak_vm.Word.Laws.{split_i64}
use mozak_vm.Runner.Alu.{mulh, mulhu, mulhsu}

mul_bound : (a b m n : ℕ) → a ≤ m → b ≤ n → a * b ≤ m * n
mul_bound a b m n h k = grind arith

-- `w` and `v` differ by a multiple of 2 ^ 32.
abbrev Reads : ℕ → ℤ → Type 0
Reads w (pos n) = w ≡ n
Reads w (negsuc n) = w + suc n ≡ 2 ^ 32

Reads-to_i32 : (w : ℕ) → IsU32 w → Reads w (to_i32 w)
unfolding to_i32
Reads-to_i32 w h = elim (Bool-cases (ltb w (2 ^ 31))) [
  | inl e ↦ rw (e, to_i32) refl
  | inr e ↦ rw (e, to_i32) (ground arith)
]

-- The low word of a product does not depend on how the factors are read.
low_product : (a b : ℕ) (s t : ℤ) → Reads a s → Reads b t → as_u32 (s *ℤ t) ≡ wrapping_mul a b
unfolding as_u32 ◌*ℤ◌ wrapping_mul
low_product a b (pos n) (pos m) h k =
    ground (arith, ap (λ (t : ℕ). t * b) h, ap (λ (t : ℕ). n * t) k)
low_product a b (pos n) (negsuc m) h k =
    ground (arith, ap (λ (t : ℕ). t * b) h, ap (λ (t : ℕ). n * t) k)
low_product a b (negsuc n) (pos m) h k =
    ground (arith, ap (λ (t : ℕ). t * m) h, ap (λ (t : ℕ). a * t) k)
low_product a b (negsuc n) (negsuc m) h k =
    ground (arith, ap (λ (t : ℕ). t * b) h, ap (λ (t : ℕ). suc n * t) k)

-- For 32-bit words, the words of MULHU and MUL together are the unsigned product.
pub mulhu_product : (a b : ℕ) → IsU32 a → IsU32 b → mulhu a b * 2 ^ 32 + wrapping_mul a b ≡ a * b
unfolding mulhu wrapping_mul
mulhu_product a b ha hb =
    omega (arith, mul_bound a b (2 ^ 32 - 1) (2 ^ 32 - 1) (omega arith) (omega arith))

-- The parts of a product are bounded by the product of the bounds.
product_bounds :
    (s t : ℤ) (m n : ℕ)
    → pos_part s + neg_part s ≤ m
    → pos_part t + neg_part t ≤ n
    → pos_part (s *ℤ t) + neg_part (s *ℤ t) ≤ m * n
unfolding ◌*ℤ◌
product_bounds (pos a) (pos b) m n h k = ground (arith, mul_bound a b m n)
product_bounds (pos a) (negsuc b) m n h k = ground (arith, mul_bound a (suc b) m n)
product_bounds (negsuc a) (pos b) m n h k = ground (arith, mul_bound (suc a) b m n)
product_bounds (negsuc a) (negsuc b) m n h k = ground (arith, mul_bound (suc a) (suc b) m n)

i32_size : (w : ℕ) → IsU32 w → pos_part (to_i32 w) + neg_part (to_i32 w) ≤ 2 ^ 31
unfolding to_i32
i32_size w h = ground arith

product_of_parts :
    (a b : ℕ) (s t : ℤ) (n : ℕ)
    → Reads a s
    → Reads b t
    → pos_part s + neg_part s ≤ 2 ^ 31
    → pos_part t + neg_part t ≤ n
    → n < 2 ^ 32
    → to_i64 (as_u32 (shr_ℤ (s *ℤ t) 32) * 2 ^ 32 + wrapping_mul a b) ≡ s *ℤ t
product_of_parts a b s t n ra rb hs ht hn = rw (← low_product a b s t ra rb) (
    split_i64 (s *ℤ t) (omega (arith, product_bounds s t (2 ^ 31) n hs ht))
      (omega (arith, product_bounds s t (2 ^ 31) n hs ht)))

-- For 32-bit words, the words of MULH and MUL together, read as a signed 64-bit integer, are
-- the product of the two words read as signed.
pub mulh_product :
    (a b : ℕ)
    → IsU32 a
    → IsU32 b
    → to_i64 (mulh a b * 2 ^ 32 + wrapping_mul a b) ≡ to_i32 a *ℤ to_i32 b
unfolding mulh
mulh_product a b ha hb =
    product_of_parts a b (to_i32 a) (to_i32 b) (2 ^ 31) (Reads-to_i32 a ha) (Reads-to_i32 b hb)
      (i32_size a ha) (i32_size b hb) (omega arith)

-- For 32-bit words, the words of MULHSU and MUL together, read as a signed 64-bit integer, are
-- the product of the signed first and the unsigned second word.
pub mulhsu_product :
    (a b : ℕ)
    → IsU32 a
    → IsU32 b
    → to_i64 (mulhsu a b * 2 ^ 32 + wrapping_mul a b) ≡ to_i32 a *ℤ pos b
unfolding mulhsu
mulhsu_product a b ha hb =
    product_of_parts a b (to_i32 a) (pos b) (2 ^ 32 - 1) (Reads-to_i32 a ha) refl (i32_size a ha)
      (omega arith) (omega arith)
