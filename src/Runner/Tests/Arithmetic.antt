-- ===== src/Runner/Tests/Arithmetic.antt =====
-- The arithmetic on a few numbers, and its theorems applied to them.
use mozak_vm.Prelude.{ℕ, ◌+◌, ◌-◌, ◌*◌, ◌^◌, ◌≡◌, refl, arith}
use mozak_vm.Prelude.Int.{pos, ◌*ℤ◌, shr_ℤ}
use mozak_vm.Word.{wrapping_mul, to_i32, to_i64, as_u32, shl32}
use mozak_vm.Runner.Outcome.{ok}
use mozak_vm.Runner.Alu.{
  Bytes4, sra, sll, srl, div, divu, rem, remu, quotient, remainder, mulh, mulhu, mulhsu,
}
use mozak_vm.Runner.Alu.Division.{DividesU32, Divides, divu-remu_rebuild, div-rem_rebuild}
use mozak_vm.Runner.Alu.Products.{mulhu_product, mulh_product, mulhsu_product}
use mozak_vm.Runner.Alu.Shifts.{mul-shl, divu-shl, sra_reads}

-- -7 and 2 as words
abbrev minus_seven : ℕ
minus_seven = 2 ^ 32 - 7

signed_division : (div minus_seven 2 ≡ ok (2 ^ 32 - 3)) × (rem minus_seven 2 ≡ ok (2 ^ 32 - 1))
unfolding to_i32 as_u32 div rem quotient remainder
signed_division = (refl, refl)

divu-remu_rebuild_example :
    (q : ℕ) × (r : ℕ) × (divu minus_seven 2 ≡ ok q)
    × (remu minus_seven 2 ≡ ok r)
    × DividesU32 minus_seven 2 q r
divu-remu_rebuild_example = divu-remu_rebuild minus_seven 2

div-rem_rebuild_example :
    (q : ℕ) × (r : ℕ) × (div minus_seven 2 ≡ ok q)
    × (rem minus_seven 2 ≡ ok r)
    × Divides minus_seven 2 (omega arith) (omega arith) q r
div-rem_rebuild_example = div-rem_rebuild minus_seven 2 (omega arith) (omega arith)

mulhu_product_example :
    mulhu minus_seven minus_seven * 2 ^ 32 + wrapping_mul minus_seven minus_seven
    ≡ minus_seven * minus_seven
mulhu_product_example = mulhu_product minus_seven minus_seven (omega arith) (omega arith)

mulh_product_example :
    to_i64 (mulh minus_seven 3 * 2 ^ 32 + wrapping_mul minus_seven 3)
    ≡ to_i32 minus_seven *ℤ to_i32 3
mulh_product_example = mulh_product minus_seven 3 (omega arith) (omega arith)

mulhsu_product_example :
    to_i64 (mulhsu minus_seven minus_seven * 2 ^ 32 + wrapping_mul minus_seven minus_seven)
    ≡ to_i32 minus_seven *ℤ pos minus_seven
mulhsu_product_example = mulhsu_product minus_seven minus_seven (omega arith) (omega arith)

mul-shl_example : wrapping_mul minus_seven (shl32 1 30) ≡ sll minus_seven 30
mul-shl_example = mul-shl minus_seven 30 (omega arith)

divu-shl_example : divu minus_seven (shl32 1 31) ≡ ok (srl minus_seven 31)
divu-shl_example = divu-shl minus_seven 31 (omega arith)

sra_reads_example : to_i32 (sra minus_seven 1) ≡ shr_ℤ (to_i32 minus_seven) 1
sra_reads_example = sra_reads minus_seven 1 (omega arith)

abbrev some_bytes : Bytes4
some_bytes = record { b0 = 200; b1 = 255; b2 = 1; b3 = 2 }
