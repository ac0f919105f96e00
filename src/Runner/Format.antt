-- ===== src/Runner/Format.antt =====
-- runner/src/decode.rs: the fields of an instruction word, its immediate and the arguments of each
-- format. `bit_range` is that of the `bitfield` crate, and enters as a parameter.
use mozak_vm.Prelude.{ℕ, ◌+◌, ◌-◌, List, [], ◌∷◌, bit_or}
use mozak_vm.Prelude.Int.{shr_ℤ}
use mozak_vm.Word.{wrapping_add, shl32, to_i32, as_u32}
use mozak_vm.Runner.Instruction.{Args}

-- `word.bit_range(msb, lsb)`
abbrev pub BitRange : Type 0
BitRange = (word msb lsb : ℕ) → ℕ

module _ (bit_range : BitRange) where
  -- The sum of the widths of the segments, and the segments side by side, highest first.
  unfoldable pub total_width : List (ℕ × ℕ) → ℕ
  total_width [] = 0
  total_width ((msb, lsb) ∷ segments) = (msb - lsb + 1) + total_width segments

  unfoldable pub concatenate : ℕ → ℕ → List (ℕ × ℕ) → ℕ
  concatenate word acc [] = acc
  concatenate word acc ((msb, lsb) ∷ segments) =
      concatenate word (bit_or (shl32 acc (msb - lsb + 1)) (bit_range word msb lsb)) segments

  unfoldable pub extract_immediate : ℕ → List (ℕ × ℕ) → ℕ → ℕ
  unfolding total_width concatenate
  extract_immediate word segments pad =
      let len = total_width segments in
      let u = concatenate word 0 segments in
      as_u32 (shr_ℤ (to_i32 (shl32 u (32 - len))) (32 - len - pad))

  unfoldable pub opcode : ℕ → ℕ
  opcode word = bit_range word 6 0

  unfoldable pub rd : ℕ → ℕ
  rd word = bit_range word 11 7

  unfoldable pub funct3 : ℕ → ℕ
  funct3 word = bit_range word 14 12

  unfoldable pub rs1 : ℕ → ℕ
  rs1 word = bit_range word 19 15

  unfoldable pub rs2 : ℕ → ℕ
  rs2 word = bit_range word 24 20

  unfoldable pub funct7 : ℕ → ℕ
  funct7 word = bit_range word 31 25

  unfoldable pub funct12 : ℕ → ℕ
  funct12 word = bit_range word 31 20

  -- The arguments of each format. A store has its base in `rs2`, and so has a load.
  unfoldable pub stype : ℕ → Args
  stype word = record {
    rd = 0;
    rs1 = rs2 word;
    rs2 = rs1 word;
    imm = extract_immediate word ((31, 31) ∷ (30, 25) ∷ (11, 8) ∷ (7, 7) ∷ []) 0;
  }

  unfoldable pub rtype : ℕ → Args
  rtype word = record { rd = rd word; rs1 = rs1 word; rs2 = rs2 word; imm = 0 }

  unfoldable pub itype : ℕ → Args
  itype word = record {
    rd = rd word;
    rs1 = rs1 word;
    rs2 = 0;
    imm = extract_immediate word ((31, 20) ∷ []) 0;
  }

  unfoldable pub itype_load : ℕ → Args
  itype_load word = record {
    rd = rd word;
    rs1 = 0;
    rs2 = rs1 word;
    imm = extract_immediate word ((31, 20) ∷ []) 0;
  }

  unfoldable pub jtype : ℕ → ℕ → Args
  jtype pc word = record {
    rd = rd word;
    rs1 = 0;
    rs2 = 0;
    imm =
        wrapping_add
          (extract_immediate word ((31, 31) ∷ (19, 12) ∷ (20, 20) ∷ (30, 25) ∷ (24, 21) ∷ []) 1) pc;
  }

  unfoldable pub btype : ℕ → ℕ → Args
  btype pc word = record {
    rd = 0;
    rs1 = rs1 word;
    rs2 = rs2 word;
    imm = wrapping_add (extract_immediate word ((31, 31) ∷ (7, 7) ∷ (30, 25) ∷ (11, 8) ∷ []) 1) pc;
  }

  unfoldable pub utype : ℕ → Args
  utype word = record {
    rd = rd word;
    rs1 = 0;
    rs2 = 0;
    imm = extract_immediate word ((31, 12) ∷ []) 12;
  }

  unfoldable pub utype_absolute : ℕ → ℕ → Args
  utype_absolute pc word = record {
    rd = rd word;
    rs1 = 0;
    rs2 = 0;
    imm = wrapping_add (extract_immediate word ((31, 12) ∷ []) 12) pc;
  }
