-- ===== src/Runner/Decode/Fields.antt =====
-- runner/src/decode.rs: the fields and immediates of a word that is put together from its fields.
use native.Mathlib.Nat.{mod-eq_of_lt}
use mozak_vm.Prelude.{
  ℕ, ◌+◌, ◌-◌, ◌*◌, ◌/◌, ◌%◌, ◌^◌, ◌≤◌, ◌<◌, ◌≡◌, ◌∙◌, ap, arith, bit_or, ltb, if◌then◌else◌, List,
  [], ◌∷◌,
}
use mozak_vm.Prelude.Int.{shr_ℤ}
use mozak_vm.Prelude.Bits.{bit_or_fields}
use mozak_vm.Word.{shl32, to_i32, as_u32}
use mozak_vm.Runner.Format.{
  BitRange, opcode, rd, funct3, rs1, rs2, funct7, funct12, concatenate, extract_immediate,
}

-- What the documentation of `bit_range` says: the bits `lsb` to `msb` of the word.
abbrev pub IsBitRange : BitRange → Type 0
IsBitRange f =
    (word msb lsb : ℕ) → lsb ≤ msb → f word msb lsb ≡ word / 2 ^ lsb % 2 ^ (msb - lsb + 1)

-- The 32-bit pattern of the `bits`-bit two's complement number `x`.
abbrev pub sign_extend : ℕ → ℕ → ℕ
sign_extend bits x = if ltb x (2 ^ (bits - 1)) then x else 2 ^ 32 - 2 ^ bits + x

-- `u` moved to the top and shifted back with its sign, for the widths and pads in use.
pub extend : ℕ → ℕ → ℕ → ℕ
extend len pad u = as_u32 (shr_ℤ (to_i32 (shl32 u (32 - len))) (32 - len - pad))

pub extend12 : (u : ℕ) → u < 2 ^ 12 → extend 12 0 u ≡ sign_extend 12 u
unfolding extend shl32 to_i32 as_u32
extend12 u h = ground arith

pub extend12_padded : (u : ℕ) → u < 2 ^ 12 → extend 12 1 u ≡ sign_extend 13 (2 * u)
unfolding extend shl32 to_i32 as_u32
extend12_padded u h = ground arith

pub extend20_padded : (u : ℕ) → u < 2 ^ 20 → extend 20 1 u ≡ sign_extend 21 (2 * u)
unfolding extend shl32 to_i32 as_u32
extend20_padded u h = ground arith

pub extend20_upper : (u : ℕ) → u < 2 ^ 20 → extend 20 12 u ≡ 2 ^ 12 * u
unfolding extend shl32 to_i32 as_u32
extend20_upper u h = ground arith

-- The parts of an instruction word, from the lowest bit.
pub record Parts : Type 0 where
  pub opcode : ℕ
  pub rd : ℕ
  pub funct3 : ℕ
  pub rs1 : ℕ
  pub rs2 : ℕ
  pub funct7 : ℕ

pub record AreParts (p : Parts) : Type 0 where
  pub opcode : p.opcode < 2 ^ 7
  pub rd : p.rd < 2 ^ 5
  pub funct3 : p.funct3 < 2 ^ 3
  pub rs1 : p.rs1 < 2 ^ 5
  pub rs2 : p.rs2 < 2 ^ 5
  pub funct7 : p.funct7 < 2 ^ 7

abbrev pub pack : Parts → ℕ
pack p =
    p.opcode
    + 2 ^ 7 * p.rd
    + 2 ^ 12 * p.funct3
    + 2 ^ 15 * p.rs1
    + 2 ^ 20 * p.rs2
    + 2 ^ 25 * p.funct7

module _ (bit_range : BitRange) (law : IsBitRange bit_range) (p : Parts) (h : AreParts p) where
  pub opcode-pack : opcode bit_range (pack p) ≡ p.opcode
  unfolding opcode
  opcode-pack = omega (arith, law (pack p) 6 0 (omega arith))

  pub rd-pack : rd bit_range (pack p) ≡ p.rd
  unfolding rd
  rd-pack = omega (arith, law (pack p) 11 7 (omega arith))

  pub funct3-pack : funct3 bit_range (pack p) ≡ p.funct3
  unfolding funct3
  funct3-pack = omega (arith, law (pack p) 14 12 (omega arith))

  pub rs1-pack : rs1 bit_range (pack p) ≡ p.rs1
  unfolding rs1
  rs1-pack = omega (arith, law (pack p) 19 15 (omega arith))

  pub rs2-pack : rs2 bit_range (pack p) ≡ p.rs2
  unfolding rs2
  rs2-pack = omega (arith, law (pack p) 24 20 (omega arith))

  pub funct7-pack : funct7 bit_range (pack p) ≡ p.funct7
  unfolding funct7
  funct7-pack = omega (arith, law (pack p) 31 25 (omega arith))

  pub funct12-pack : funct12 bit_range (pack p) ≡ p.rs2 + 2 ^ 5 * p.funct7
  unfolding funct12
  funct12-pack = omega (arith, law (pack p) 31 20 (omega arith))

-- The offsets of branches and jumps, in units of two bytes.
abbrev pub branch_offset : Parts → ℕ
branch_offset p =
    p.rd / 2 + 2 ^ 4 * (p.funct7 % 64) + 2 ^ 10 * (p.rd % 2) + 2 ^ 11 * (p.funct7 / 64)

abbrev pub jump_offset : Parts → ℕ
jump_offset p =
    p.rs2 / 2
    + 2 ^ 4 * (p.funct7 % 64)
    + 2 ^ 10 * (p.rs2 % 2)
    + 2 ^ 11 * (p.funct3 + 2 ^ 3 * p.rs1)
    + 2 ^ 19 * (p.funct7 / 64)

join : (w acc v : ℕ) → acc * 2 ^ w < 2 ^ 32 → v < 2 ^ w → bit_or (shl32 acc w) v ≡ acc * 2 ^ w + v
unfolding shl32
join w acc v fits h = ap (λ (t : ℕ). bit_or t v) (mod-eq_of_lt fits) ∙ bit_or_fields w acc v h

module _ (bit_range : BitRange) (law : IsBitRange bit_range) (p : Parts) (h : AreParts p) where
  -- One segment more: `v` is its value, and `next` the number with it.
  segment :
      (msb lsb acc v : ℕ) {next : ℕ} (rest : List (ℕ × ℕ))
      → bit_range (pack p) msb lsb ≡ v
      → v < 2 ^ (msb - lsb + 1)
      → acc * 2 ^ (msb - lsb + 1) + v ≡ next
      → next < 2 ^ 32
      → concatenate bit_range (pack p) acc ((msb, lsb) ∷ rest)
        ≡ concatenate bit_range (pack p) next rest
  unfolding concatenate
  segment msb lsb acc v rest e hv joined fits =
      ap (λ (t : ℕ). concatenate bit_range (pack p) t rest)
        (ap (bit_or (shl32 acc (msb - lsb + 1))) e
          ∙ join (msb - lsb + 1) acc v (omega arith) hv
          ∙ joined)

  bits :
      (msb lsb : ℕ)
      → lsb ≤ msb
      → bit_range (pack p) msb lsb ≡ pack p / 2 ^ lsb % 2 ^ (msb - lsb + 1)
  bits = law (pack p)

  pub immediate_i :
      extract_immediate bit_range (pack p) ((31, 20) ∷ []) 0
      ≡ sign_extend 12 (p.rs2 + 2 ^ 5 * p.funct7)
  unfolding extract_immediate extend
  immediate_i =
      ap (extend 12 0) (
        segment 31 20 0 (p.rs2 + 2 ^ 5 * p.funct7) [] (omega (arith, bits 31 20 (omega arith)))
          (omega arith) (omega arith) (omega arith))
      ∙ extend12 (p.rs2 + 2 ^ 5 * p.funct7) (omega arith)

  pub immediate_u :
      extract_immediate bit_range (pack p) ((31, 12) ∷ []) 12
      ≡ 2 ^ 12 * (p.funct3 + 2 ^ 3 * p.rs1 + 2 ^ 8 * p.rs2 + 2 ^ 13 * p.funct7)
  unfolding extract_immediate extend
  immediate_u =
      let u = p.funct3 + 2 ^ 3 * p.rs1 + 2 ^ 8 * p.rs2 + 2 ^ 13 * p.funct7 in
      ap (extend 20 12) (
        segment 31 12 0 u [] (omega (arith, bits 31 12 (omega arith))) (omega arith) (omega arith)
          (omega arith))
      ∙ extend20_upper u (omega arith)

  pub immediate_s :
      extract_immediate bit_range (pack p) ((31, 31) ∷ (30, 25) ∷ (11, 8) ∷ (7, 7) ∷ []) 0
      ≡ sign_extend 12 (p.rd + 2 ^ 5 * p.funct7)
  unfolding extract_immediate extend
  immediate_s =
      ap (extend 12 0) (
        segment 31 31 0 (p.funct7 / 64) {next = p.funct7 / 64} ((30, 25) ∷ (11, 8) ∷ (7, 7) ∷ [])
          (omega (arith, bits 31 31 (omega arith))) (omega arith) (omega arith) (omega arith)
        ∙ segment 30 25 (p.funct7 / 64) (p.funct7 % 64) {next = p.funct7} ((11, 8) ∷ (7, 7) ∷ [])
            (omega (arith, bits 30 25 (omega arith))) (omega arith) (omega arith) (omega arith)
        ∙ segment 11 8 p.funct7 (p.rd / 2) {next = p.funct7 * 16 + p.rd / 2} ((7, 7) ∷ [])
            (omega (arith, bits 11 8 (omega arith))) (omega arith) (omega arith) (omega arith)
        ∙ segment 7 7 (p.funct7 * 16 + p.rd / 2) (p.rd % 2) {next = p.rd + 2 ^ 5 * p.funct7} []
            (omega (arith, bits 7 7 (omega arith))) (omega arith) (omega arith) (omega arith))
      ∙ extend12 (p.rd + 2 ^ 5 * p.funct7) (omega arith)

  pub immediate_b :
      extract_immediate bit_range (pack p) ((31, 31) ∷ (7, 7) ∷ (30, 25) ∷ (11, 8) ∷ []) 1
      ≡ sign_extend 13 (2 * (branch_offset p))
  unfolding extract_immediate extend
  immediate_b =
      ap (extend 12 1) (
        segment 31 31 0 (p.funct7 / 64) {next = p.funct7 / 64} ((7, 7) ∷ (30, 25) ∷ (11, 8) ∷ [])
          (omega (arith, bits 31 31 (omega arith))) (omega arith) (omega arith) (omega arith)
        ∙ segment 7 7 (p.funct7 / 64) (p.rd % 2) {next = p.funct7 / 64 * 2 + p.rd % 2}
            ((30, 25) ∷ (11, 8) ∷ []) (omega (arith, bits 7 7 (omega arith))) (omega arith)
            (omega arith) (omega arith)
        ∙ segment 30 25 (p.funct7 / 64 * 2 + p.rd % 2) (p.funct7 % 64)
            {next = (p.funct7 / 64 * 2 + p.rd % 2) * 64 + p.funct7 % 64} ((11, 8) ∷ [])
            (omega (arith, bits 30 25 (omega arith))) (omega arith) (omega arith) (omega arith)
        ∙ segment 11 8 ((p.funct7 / 64 * 2 + p.rd % 2) * 64 + p.funct7 % 64) (p.rd / 2)
            {next = branch_offset p} [] (omega (arith, bits 11 8 (omega arith))) (omega arith)
            (omega arith) (omega arith))
      ∙ extend12_padded (branch_offset p) (omega arith)

  pub immediate_j :
      extract_immediate bit_range
        (pack p)
        ((31, 31) ∷ (19, 12) ∷ (20, 20) ∷ (30, 25) ∷ (24, 21) ∷ [])
        1
      ≡ sign_extend 21 (2 * (jump_offset p))
  unfolding extract_immediate extend
  immediate_j =
      let high = p.funct7 / 64 * 2 ^ 8 + (p.funct3 + 2 ^ 3 * p.rs1) in
      ap (extend 20 1) (
        segment 31 31 0 (p.funct7 / 64) {next = p.funct7 / 64}
          ((19, 12) ∷ (20, 20) ∷ (30, 25) ∷ (24, 21) ∷ []) (omega (arith, bits 31 31 (omega arith)))
          (omega arith) (omega arith) (omega arith)
        ∙ segment 19 12 (p.funct7 / 64) (p.funct3 + 2 ^ 3 * p.rs1) {next = high}
            ((20, 20) ∷ (30, 25) ∷ (24, 21) ∷ []) (omega (arith, bits 19 12 (omega arith)))
            (omega arith) (omega arith) (omega arith)
        ∙ segment 20 20 high (p.rs2 % 2) {next = high * 2 + p.rs2 % 2} ((30, 25) ∷ (24, 21) ∷ [])
            (omega (arith, bits 20 20 (omega arith))) (omega arith) (omega arith) (omega arith)
        ∙ segment 30 25 (high * 2 + p.rs2 % 2) (p.funct7 % 64)
            {next = (high * 2 + p.rs2 % 2) * 64 + p.funct7 % 64} ((24, 21) ∷ [])
            (omega (arith, bits 30 25 (omega arith))) (omega arith) (omega arith) (omega arith)
        ∙ segment 24 21 ((high * 2 + p.rs2 % 2) * 64 + p.funct7 % 64) (p.rs2 / 2)
            {next = jump_offset p} [] (omega (arith, bits 24 21 (omega arith))) (omega arith)
            (omega arith) (omega arith))
      ∙ extend20_padded (jump_offset p) (omega arith)
