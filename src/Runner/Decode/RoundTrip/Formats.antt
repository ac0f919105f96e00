-- ===== src/Runner/Decode/RoundTrip/Formats.antt =====
-- runner/src/decode.rs: the arguments of each format, of a word that is put together from its fields.
use mozak_vm.Prelude.{ℕ, ◌+◌, ◌*◌, ◌^◌, ◌≡◌}
use mozak_vm.Word.{wrapping_add}
use mozak_vm.Runner.Format.{
  BitRange, rtype, itype, itype_load, stype, btype, jtype, utype, utype_absolute,
}
use mozak_vm.Runner.Decode.Fields.{
  IsBitRange, Parts, AreParts, pack, sign_extend, rd-pack, rs1-pack, rs2-pack, immediate_i,
  immediate_s, immediate_b, immediate_j, immediate_u, branch_offset, jump_offset,
}

module _ (bit_range : BitRange) (law : IsBitRange bit_range) where
  module _ (p : Parts) (h : AreParts p) where
    pub rtype-pack :
        rtype bit_range (pack p) ≡ record { rd = p.rd; rs1 = p.rs1; rs2 = p.rs2; imm = 0 }
    unfolding rtype
    rtype-pack =
        cc (rd-pack bit_range law p h, rs1-pack bit_range law p h, rs2-pack bit_range law p h)

    pub itype-pack : itype bit_range (pack p) ≡ record {
      rd = p.rd;
      rs1 = p.rs1;
      rs2 = 0;
      imm = sign_extend 12 (p.rs2 + 2 ^ 5 * p.funct7);
    }
    unfolding itype
    itype-pack =
        cc (rd-pack bit_range law p h, rs1-pack bit_range law p h, immediate_i bit_range law p h)

    pub itype_load-pack : itype_load bit_range (pack p) ≡ record {
      rd = p.rd;
      rs1 = 0;
      rs2 = p.rs1;
      imm = sign_extend 12 (p.rs2 + 2 ^ 5 * p.funct7);
    }
    unfolding itype_load
    itype_load-pack =
        cc (rd-pack bit_range law p h, rs1-pack bit_range law p h, immediate_i bit_range law p h)

    pub stype-pack : stype bit_range (pack p) ≡ record {
      rd = 0;
      rs1 = p.rs2;
      rs2 = p.rs1;
      imm = sign_extend 12 (p.rd + 2 ^ 5 * p.funct7);
    }
    unfolding stype
    stype-pack =
        cc (rs2-pack bit_range law p h, rs1-pack bit_range law p h, immediate_s bit_range law p h)

    pub btype-pack :
        (pc : ℕ)
        → btype bit_range pc (pack p) ≡ record {
          rd = 0;
          rs1 = p.rs1;
          rs2 = p.rs2;
          imm = wrapping_add (sign_extend 13 (2 * branch_offset p)) pc;
        }
    unfolding btype
    btype-pack pc =
        cc (rs1-pack bit_range law p h, rs2-pack bit_range law p h, immediate_b bit_range law p h)

    pub jtype-pack :
        (pc : ℕ)
        → jtype bit_range pc (pack p) ≡ record {
          rd = p.rd;
          rs1 = 0;
          rs2 = 0;
          imm = wrapping_add (sign_extend 21 (2 * jump_offset p)) pc;
        }
    unfolding jtype
    jtype-pack pc = cc (rd-pack bit_range law p h, immediate_j bit_range law p h)

    abbrev upper : ℕ
    upper = 2 ^ 12 * (p.funct3 + 2 ^ 3 * p.rs1 + 2 ^ 8 * p.rs2 + 2 ^ 13 * p.funct7)

    pub utype-pack : utype bit_range (pack p) ≡ record { rd = p.rd; rs1 = 0; rs2 = 0; imm = upper }
    unfolding utype
    utype-pack = cc (rd-pack bit_range law p h, immediate_u bit_range law p h)

    pub utype_absolute-pack :
        (pc : ℕ)
        → utype_absolute bit_range pc (pack p)
          ≡ record { rd = p.rd; rs1 = 0; rs2 = 0; imm = wrapping_add upper pc }
    unfolding utype_absolute
    utype_absolute-pack pc = cc (rd-pack bit_range law p h, immediate_u bit_range law p h)
