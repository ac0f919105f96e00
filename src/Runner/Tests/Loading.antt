-- ===== src/Runner/Tests/Loading.antt =====
-- An image with one instruction, `addi x5, x0, 7`, at address 4.
use mozak_vm.Prelude.{ℕ, ◌≡◌, refl, some, List, [], ◌∷◌}
use mozak_vm.Word.{u32_from_le_bytes, as_u32, to_i32, shl32}
use mozak_vm.Runner.Outcome.{ok, add_checked}
use mozak_vm.Runner.Format.{
  opcode, funct3, itype, rd, rs1, extract_immediate, total_width, concatenate,
}
use mozak_vm.Runner.HashMap.{HashMap, get, insert, contains, extend}
use mozak_vm.Runner.Instruction.{Op, Instruction, Decoded, instruction}
use mozak_vm.Runner.Decode.{decode_instruction, decode_op_imm}
use mozak_vm.Runner.Decode.Bounds.{DecodesToValid, decode_instruction-DecodesToValid}
use mozak_vm.Runner.Loader.{code_from, decode_all, aligned_keys, load_word, convert, zip_range}
use mozak_vm.Runner.Loader.Code.{get-code_from, word_at}
use mozak_vm.Runner.Program.{Program}
use mozak_vm.Runner.Elf.{
  ElfCrate, ElfBytes, ProgramHeader, mozak_load_program, parse_and_validate_elf, mozak_load_elf,
  internal_load_elf, is_read_only_segment, extract_elf_data, segments_bytes, segment_bytes, slice,
}
use mozak_vm.Runner.Tests.World.{toy_build, toy_bit_range, toy_bit_range-IsBitRange}

abbrev image : HashMap ℕ
image = (4, 0x93) ∷ (5, 0x02) ∷ (6, 0x70) ∷ (7, 0) ∷ []

abbrev addi : Instruction
addi = record { op = Op.add; args = record { rd = 5; rs1 = 0; rs2 = 0; imm = 7 } }

abbrev code : HashMap Decoded
code = (4, instruction addi) ∷ []

built : code_from toy_build toy_bit_range image ≡ ok code
unfolding code_from decode_all aligned_keys contains load_word add_checked insert get
    decode_instruction decode_op_imm opcode funct3 itype rd rs1 extract_immediate total_width
    concatenate u32_from_le_bytes as_u32 to_i32 shl32
built = refl

get-code_from_example : get code 4 ≡ some (decode_instruction toy_bit_range 4 (word_at image 4))
get-code_from_example = get-code_from toy_build toy_bit_range image code 4 built

decode_instruction-DecodesToValid_example :
    DecodesToValid (decode_instruction toy_bit_range 4 0x00700293)
decode_instruction-DecodesToValid_example =
    decode_instruction-DecodesToValid toy_bit_range toy_bit_range-IsBitRange 4 0x00700293

abbrev toy_segments : List ProgramHeader
toy_segments = record { p_flags = 5; p_filesz = 4; p_memsz = 4; p_vaddr = 4; p_offset = 0 } ∷ []

-- An ELF file with one readable and executable segment, which holds these four bytes.
abbrev toy_elf : ElfCrate
toy_elf = record {
  minimal_parse = λ input. some (record {
    class = 1;
    e_machine = 243;
    e_type = 2;
    e_entry = 4;
    segments = some toy_segments;
  });
  class_elf32 = 1;
  em_riscv = 243;
  et_exec = 2;
  pf_none = 0;
  pf_r = 4;
  pf_w = 2;
  pf_x = 1;
}

abbrev toy_file : ElfBytes
toy_file = record {
  class = 1;
  e_machine = 243;
  e_type = 2;
  e_entry = 4;
  segments = some toy_segments;
}

abbrev elf_bytes : List ℕ
elf_bytes = 0x93 ∷ 0x02 ∷ 0x70 ∷ 0 ∷ []

abbrev loaded_program : Program
loaded_program = record { entry_point = 4; ro_memory = image; rw_memory = []; ro_code = code }

loaded : mozak_load_program toy_build toy_bit_range toy_elf elf_bytes ≡ ok loaded_program
unfolding mozak_load_program parse_and_validate_elf mozak_load_elf internal_load_elf
    is_read_only_segment extract_elf_data segments_bytes segment_bytes slice convert zip_range
    extend code_from decode_all aligned_keys contains load_word add_checked insert get
    decode_instruction decode_op_imm opcode funct3 itype rd rs1 extract_immediate total_width
    concatenate u32_from_le_bytes as_u32 to_i32 shl32
loaded = refl
