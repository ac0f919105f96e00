-- ===== src/Runner/Decode/Bounds.antt =====
-- runner/src/decode.rs: the ranges of decoded instructions.
use mozak_vm.Prelude.{
  ℕ, ◌-◌, ◌^◌, ◌<◌, Bool, true, false, arith, if◌then◌else◌, bit_and, ◌==◌, List,
}
use mozak_vm.Word.{IsU32, shl32}
use mozak_vm.Word.Laws.{wrapping_add-IsU32, as_u32-IsU32}
use mozak_vm.Runner.Instruction.{
  Args, Op, Instruction, IsValid, DecodingError, Decoded, instruction, unknown, nop,
}
use mozak_vm.Runner.Format.{
  BitRange, rd, rs1, rs2, opcode, funct3, funct7, funct12, rtype, itype, itype_load, stype, btype,
  jtype, utype, utype_absolute, extract_immediate,
}
use mozak_vm.Runner.Decode.{
  decode_instruction, decode_op, decode_op_imm, decode_load, decode_store, decode_branch,
  decode_shift_right, decode_system, ecall, found, default,
}
use mozak_vm.Runner.Decode.Fields.{IsBitRange}

-- An instruction with arguments in their ranges, or none.
pub data DecodesToValid : Decoded → Type 0 where
  valid : {i : Instruction} → IsValid i.args → DecodesToValid (instruction i)
  refused : {e : DecodingError} → DecodesToValid (unknown e)

choose :
    {x y : Decoded} (b : Bool)
    → DecodesToValid x
    → DecodesToValid y
    → DecodesToValid (if b then x else y)
choose true h k = h
choose false h k = k

DecodesToValid-found : (op : Op) {args : Args} → IsValid args → DecodesToValid (found op args)
DecodesToValid-found op v = valid v

DecodesToValid-default : (pc word : ℕ) → DecodesToValid (default pc word)
DecodesToValid-default pc word = refused

module _ (bit_range : BitRange) (law : IsBitRange bit_range) (pc word : ℕ) where
  rd-lt : rd bit_range word < 32
  unfolding rd
  rd-lt = omega (arith, law word 11 7 (omega arith))

  rs1-lt : rs1 bit_range word < 32
  unfolding rs1
  rs1-lt = omega (arith, law word 19 15 (omega arith))

  rs2-lt : rs2 bit_range word < 32
  unfolding rs2
  rs2-lt = omega (arith, law word 24 20 (omega arith))

  extract_immediate-IsU32 :
      (segments : List (ℕ × ℕ)) (pad : ℕ) → IsU32 (extract_immediate bit_range word segments pad)
  unfolding extract_immediate
  extract_immediate-IsU32 segments pad = as_u32-IsU32 _

  rtype-IsValid : IsValid (rtype bit_range word)
  unfolding rtype
  rtype-IsValid = record { rd = rd-lt; rs1 = rs1-lt; rs2 = rs2-lt; imm = omega arith }

  itype-IsValid : IsValid (itype bit_range word)
  unfolding itype
  itype-IsValid = record {
    rd = rd-lt;
    rs1 = rs1-lt;
    rs2 = omega arith;
    imm = extract_immediate-IsU32 _ _;
  }

  itype_load-IsValid : IsValid (itype_load bit_range word)
  unfolding itype_load
  itype_load-IsValid = record {
    rd = rd-lt;
    rs1 = omega arith;
    rs2 = rs1-lt;
    imm = extract_immediate-IsU32 _ _;
  }

  stype-IsValid : IsValid (stype bit_range word)
  unfolding stype
  stype-IsValid = record {
    rd = omega arith;
    rs1 = rs2-lt;
    rs2 = rs1-lt;
    imm = extract_immediate-IsU32 _ _;
  }

  btype-IsValid : IsValid (btype bit_range pc word)
  unfolding btype
  btype-IsValid = record {
    rd = omega arith;
    rs1 = rs1-lt;
    rs2 = rs2-lt;
    imm = wrapping_add-IsU32 _ _;
  }

  jtype-IsValid : IsValid (jtype bit_range pc word)
  unfolding jtype
  jtype-IsValid = record {
    rd = rd-lt;
    rs1 = omega arith;
    rs2 = omega arith;
    imm = wrapping_add-IsU32 _ _;
  }

  utype-IsValid : IsValid (utype bit_range word)
  unfolding utype
  utype-IsValid = record {
    rd = rd-lt;
    rs1 = omega arith;
    rs2 = omega arith;
    imm = extract_immediate-IsU32 _ _;
  }

  utype_absolute-IsValid : IsValid (utype_absolute bit_range pc word)
  unfolding utype_absolute
  utype_absolute-IsValid = record {
    rd = rd-lt;
    rs1 = omega arith;
    rs2 = omega arith;
    imm = wrapping_add-IsU32 _ _;
  }

  decode_load-DecodesToValid : DecodesToValid (decode_load bit_range pc word)
  unfolding decode_load
  decode_load-DecodesToValid =
      let f3 = funct3 bit_range word in
      let v = itype_load-IsValid in
      choose (f3 == 0) (DecodesToValid-found Op.lb v) (
        choose (f3 == 1) (DecodesToValid-found Op.lh v) (
          choose (f3 == 2) (DecodesToValid-found Op.lw v) (
            choose (f3 == 4) (DecodesToValid-found Op.lbu v)
              (choose (f3 == 5) (DecodesToValid-found Op.lhu v) (DecodesToValid-default pc word)))))

  decode_store-DecodesToValid : DecodesToValid (decode_store bit_range pc word)
  unfolding decode_store
  decode_store-DecodesToValid =
      let f3 = funct3 bit_range word in
      let v = stype-IsValid in
      choose (f3 == 0) (DecodesToValid-found Op.sb v) (
        choose (f3 == 1) (DecodesToValid-found Op.sh v)
          (choose (f3 == 2) (DecodesToValid-found Op.sw v) (DecodesToValid-default pc word)))

  decode_branch-DecodesToValid : DecodesToValid (decode_branch bit_range pc word)
  unfolding decode_branch
  decode_branch-DecodesToValid =
      let f3 = funct3 bit_range word in
      let v = btype-IsValid in
      choose (f3 == 0) (DecodesToValid-found Op.beq v) (
        choose (f3 == 1) (DecodesToValid-found Op.bne v) (
          choose (f3 == 4) (DecodesToValid-found Op.blt v) (
            choose (f3 == 5) (DecodesToValid-found Op.bge v) (
              choose (f3 == 6) (DecodesToValid-found Op.bltu v) (
                choose (f3 == 7) (DecodesToValid-found Op.bgeu v)
                  (DecodesToValid-default pc word))))))

  decode_op-DecodesToValid : DecodesToValid (decode_op bit_range pc word)
  unfolding decode_op
  decode_op-DecodesToValid =
      let f3 = funct3 bit_range word in
      let f7 = funct7 bit_range word in
      let v = rtype-IsValid in
      let base = choose (f3 == 0) (DecodesToValid-found Op.add v) (
        choose (f3 == 1) (DecodesToValid-found Op.sll v) (
          choose (f3 == 2) (DecodesToValid-found Op.slt v) (
            choose (f3 == 3) (DecodesToValid-found Op.sltu v) (
              choose (f3 == 4) (DecodesToValid-found Op.xor v) (
                choose (f3 == 5) (DecodesToValid-found Op.srl v) (
                  choose (f3 == 6) (DecodesToValid-found Op.or v) (
                    choose (f3 == 7) (DecodesToValid-found Op.and v)
                      (DecodesToValid-default pc word)))))))) in
      let other =
        choose (f3 == 0) (DecodesToValid-found Op.sub v)
          (choose (f3 == 5) (DecodesToValid-found Op.sra v) (DecodesToValid-default pc word)) in
      let products = choose (f3 == 0) (DecodesToValid-found Op.mul v) (
        choose (f3 == 1) (DecodesToValid-found Op.mulh v) (
          choose (f3 == 2) (DecodesToValid-found Op.mulhsu v) (
            choose (f3 == 3) (DecodesToValid-found Op.mulhu v) (
              choose (f3 == 4) (DecodesToValid-found Op.div v) (
                choose (f3 == 5) (DecodesToValid-found Op.divu v) (
                  choose (f3 == 6) (DecodesToValid-found Op.rem v) (
                    choose (f3 == 7) (DecodesToValid-found Op.remu v)
                      (DecodesToValid-default pc word)))))))) in
      choose (f7 == 0) (base)
        (choose (f7 == 32) (other) (choose (f7 == 1) (products) (DecodesToValid-default pc word)))

  -- An I-type instruction with another immediate.
  with_imm : (imm : ℕ) → IsU32 imm → IsValid (record (itype bit_range word) { imm = imm })
  with_imm imm h = let v = itype-IsValid in record { rd = v.rd; rs1 = v.rs1; rs2 = v.rs2; imm = h }

  shl32-IsU32 : (a b : ℕ) → IsU32 (shl32 a b)
  unfolding shl32
  shl32-IsU32 a b = omega arith

  field-IsU32 : (x : ℕ) → IsU32 (bit_range x 4 0)
  field-IsU32 x = omega (arith, law x 4 0 (omega arith))

  decode_shift_right-DecodesToValid : DecodesToValid (decode_shift_right bit_range pc word)
  unfolding decode_shift_right
  decode_shift_right-DecodesToValid =
      let kind = bit_range (itype bit_range word).imm 11 5 in
      choose (kind == 0b010_0000) (DecodesToValid-found Op.sra (with_imm _ (field-IsU32 _))) (
        choose (kind == 0) (DecodesToValid-found Op.divu (with_imm _ (shl32-IsU32 1 _)))
          (DecodesToValid-default pc word))

  decode_op_imm-DecodesToValid : DecodesToValid (decode_op_imm bit_range pc word)
  unfolding decode_op_imm
  decode_op_imm-DecodesToValid =
      let f3 = funct3 bit_range word in
      let v = itype-IsValid in
      choose (f3 == 0) (DecodesToValid-found Op.add v) (
        choose (f3 == 1)
          (choose (bit_and (itype bit_range word).imm (2 ^ 32 - 1 - 0b1_1111) == 0)
            (DecodesToValid-found Op.mul (with_imm _ (shl32-IsU32 1 _)))
            (DecodesToValid-default pc word))
          (choose (f3 == 2) (DecodesToValid-found Op.slt v) (
            choose (f3 == 3) (DecodesToValid-found Op.sltu v) (
              choose (f3 == 4) (DecodesToValid-found Op.xor v) (
                choose (f3 == 5) (decode_shift_right-DecodesToValid) (
                  choose (f3 == 6) (DecodesToValid-found Op.or v) (
                    choose (f3 == 7) (DecodesToValid-found Op.and v)
                      (DecodesToValid-default pc word))))))))

  nop-DecodesToValid : DecodesToValid (instruction nop)
  nop-DecodesToValid =
      valid (record { rd = omega arith; rs1 = omega arith; rs2 = omega arith; imm = omega arith })

  decode_system-DecodesToValid : DecodesToValid (decode_system bit_range pc word)
  unfolding decode_system
  decode_system-DecodesToValid =
      let f3 = funct3 bit_range word in
      let f12 = funct12 bit_range word in
      choose (f3 == 0)
        (choose (f12 == 0)
          (valid {i = ecall}
            (record { rd = omega arith; rs1 = omega arith; rs2 = omega arith; imm = omega arith }))
          (choose (f12 == 0x302) (nop-DecodesToValid)
            (choose (f12 == 1) (nop-DecodesToValid) (DecodesToValid-default pc word))))
        (choose (f3 == 1) (nop-DecodesToValid) (
          choose (f3 == 2) (nop-DecodesToValid)
            (choose (f3 == 5) (nop-DecodesToValid) (DecodesToValid-default pc word))))

  -- A word decodes to no instruction, or to one whose registers are below 32 and whose
  -- immediate is a 32-bit word; given that bit_range selects the bits that its documentation
  -- says.
  pub decode_instruction-DecodesToValid : DecodesToValid (decode_instruction bit_range pc word)
  unfolding decode_instruction
  decode_instruction-DecodesToValid =
      let op = opcode bit_range word in
      choose (op == 0b011_0011) (decode_op-DecodesToValid) (
        choose (op == 0b000_0011) (decode_load-DecodesToValid) (
          choose (op == 0b010_0011) (decode_store-DecodesToValid) (
            choose (op == 0b001_0011) (decode_op_imm-DecodesToValid) (
              choose (op == 0b111_0011) (decode_system-DecodesToValid) (
                choose (op == 0b110_1111) (DecodesToValid-found Op.jalr jtype-IsValid) (
                  choose (op == 0b110_0111)
                    (choose (funct3 bit_range word == 0)
                      (DecodesToValid-found Op.jalr itype-IsValid) (DecodesToValid-default pc word))
                    (choose (op == 0b110_0011) (decode_branch-DecodesToValid) (
                      choose (op == 0b011_0111) (DecodesToValid-found Op.add utype-IsValid) (
                        choose (op == 0b001_0111)
                          (DecodesToValid-found Op.add utype_absolute-IsValid)
                          (choose (op == 0b000_1111) (nop-DecodesToValid)
                            (DecodesToValid-default pc word)))))))))))
