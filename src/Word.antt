-- ===== src/Word.antt =====
-- Rust's `u8`, `u16`, `u32` and `i32`: a word is a native number below its modulus, and each
-- operation of the standard library that the runner uses is written out with its wrap-around.
pub mod Laws
use mozak_vm.Prelude.{ℕ, ◌+◌, ◌-◌, ◌*◌, ◌/◌, ◌%◌, ◌^◌, ◌<◌, List, [], ◌∷◌, ltb, if◌then◌else◌}
use mozak_vm.Prelude.Int.{ℤ, pos, negsuc}

abbrev pub u32_mod : ℕ
u32_mod = 2 ^ 32

abbrev pub IsU32 : ℕ → Type 0
IsU32 w = w < 2 ^ 32

abbrev pub IsU8 : ℕ → Type 0
IsU8 b = b < 2 ^ 8

unfoldable pub wrapping_add : ℕ → ℕ → ℕ
wrapping_add a b = (a + b) % 2 ^ 32

unfoldable pub wrapping_sub : ℕ → ℕ → ℕ
wrapping_sub a b = (a + 2 ^ 32 - b) % 2 ^ 32

unfoldable pub wrapping_mul : ℕ → ℕ → ℕ
wrapping_mul a b = a * b % 2 ^ 32

-- `w as i32`, and `v as u32` for a wider signed `v`
unfoldable pub to_i32 : ℕ → ℤ
to_i32 w = if ltb w (2 ^ 31) then pos w else negsuc (2 ^ 32 - w - 1)

unfoldable pub to_i64 : ℕ → ℤ
to_i64 w = if ltb w (2 ^ 63) then pos w else negsuc (2 ^ 64 - w - 1)

unfoldable pub as_u32 : ℤ → ℕ
as_u32 (pos n) = n % 2 ^ 32
as_u32 (negsuc n) = 2 ^ 32 - 1 - n % 2 ^ 32

-- `w as i8` and `w as i16`, which read the low bits only
unfoldable pub to_i8 : ℕ → ℤ
to_i8 w = let b = w % 2 ^ 8 in if ltb b (2 ^ 7) then pos b else negsuc (2 ^ 8 - b - 1)

unfoldable pub to_i16 : ℕ → ℤ
to_i16 w = let h = w % 2 ^ 16 in if ltb h (2 ^ 15) then pos h else negsuc (2 ^ 16 - h - 1)

unfoldable pub shl32 : ℕ → ℕ → ℕ
shl32 w k = w * 2 ^ k % 2 ^ 32

unfoldable pub shr32 : ℕ → ℕ → ℕ
shr32 w k = w / 2 ^ k

-- `u32::to_le_bytes`, `u32::from_le_bytes` and `u16::from_le_bytes`
unfoldable pub to_le_bytes : ℕ → List ℕ
to_le_bytes w = w % 2 ^ 8 ∷ w / 2 ^ 8 % 2 ^ 8 ∷ w / 2 ^ 16 % 2 ^ 8 ∷ w / 2 ^ 24 % 2 ^ 8 ∷ []

unfoldable pub u32_from_le_bytes : ℕ → ℕ → ℕ → ℕ → ℕ
u32_from_le_bytes b0 b1 b2 b3 = b0 + b1 * 2 ^ 8 + b2 * 2 ^ 16 + b3 * 2 ^ 24

unfoldable pub u16_from_le_bytes : ℕ → ℕ → ℕ
u16_from_le_bytes b0 b1 = b0 + b1 * 2 ^ 8
