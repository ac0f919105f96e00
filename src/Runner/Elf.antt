-- ===== src/Runner/Elf.antt =====
-- runner/src/elf.rs: the segments of an ELF file. The parser of the `elf` crate and its constants
-- enter as parameters.
pub mod Entries
pub mod Segments
pub mod Loaded
use mozak_vm.Prelude.{
  ℕ, ◌-◌, ◌%◌, ◌^◌, ◌&&◌, Bool, Option, none, some, List, [], ◌∷◌, ◌++◌, length, take, drop,
  replicate, min, bit_and, bit_or, ltb, leb, ◌==◌, if◌then◌else◌,
}
use mozak_vm.Runner.Outcome.{
  Outcome, ok, err, panic, ◌>>=◌, ◌>>◌, Build, Error, malformed_elf, not_a_32_bit_elf,
  invalid_machine_type, invalid_elf_type, entry_point_too_large, misaligned_entry_point,
  missing_segment_table, too_many_program_headers, index_out_of_bounds,
}
use mozak_vm.Runner.HashMap.{HashMap, extend}
use mozak_vm.Runner.Format.{BitRange}
use mozak_vm.Runner.Program.{Program}
use mozak_vm.Runner.Loader.{zip_range, code_from, convert}

-- What the code reads of a program header and of a parsed file; all numbers are below 2^64.
pub record ProgramHeader : Type 0 where
  pub p_flags : ℕ
  pub p_filesz : ℕ
  pub p_memsz : ℕ
  pub p_vaddr : ℕ
  pub p_offset : ℕ

pub record ElfBytes : Type 0 where
  pub class : ℕ
  pub e_machine : ℕ
  pub e_type : ℕ
  pub e_entry : ℕ
  pub segments : Option (List ProgramHeader)

pub record ElfCrate : Type 0 where
  pub minimal_parse : List ℕ → Option ElfBytes
  pub class_elf32 : ℕ
  pub em_riscv : ℕ
  pub et_exec : ℕ
  pub pf_none : ℕ
  pub pf_r : ℕ
  pub pf_w : ℕ
  pub pf_x : ℕ

-- `ensure!`
abbrev pub ensure : Bool → Error → Outcome (Unit {0})
ensure b e = if b then ok tt else err e

module _ (elf : ElfCrate) where
  open elf use {minimal_parse, class_elf32, em_riscv, et_exec}

  -- the segment table is there and has at most 256 entries
  abbrev pub with_segments :
      ElfBytes → Option (List ProgramHeader) → Outcome (ElfBytes × ℕ × List ProgramHeader)
  with_segments file none = err missing_segment_table
  with_segments file (some segments) = do
    ensure (leb (length segments) 256) too_many_program_headers
    ok (file, file.e_entry, segments)

  abbrev pub validate : Option ElfBytes → Outcome (ElfBytes × ℕ × List ProgramHeader)
  validate none = err malformed_elf
  validate (some file) = do
    ensure (file.class == class_elf32) not_a_32_bit_elf
    ensure (file.e_machine == em_riscv) invalid_machine_type
    ensure (file.e_type == et_exec) invalid_elf_type
    ensure (ltb file.e_entry (2 ^ 32)) entry_point_too_large
    ensure (file.e_entry % 4 == 0) misaligned_entry_point
    with_segments file file.segments

  unfoldable pub parse_and_validate_elf : List ℕ → Outcome (ElfBytes × ℕ × List ProgramHeader)
  parse_and_validate_elf input = validate (minimal_parse input)

-- `&input[offset..][..size]`
unfoldable pub slice : List ℕ → ℕ → ℕ → Outcome (List ℕ)
slice input offset size =
    if ltb (length input) offset
    then panic index_out_of_bounds
    else if ltb (length input - offset) size
    then panic index_out_of_bounds
    else ok (take size (drop offset input))

abbrev max : ℕ → ℕ → ℕ
max a b = if leb a b then b else a

-- The bytes of one segment: those of the file, and zeros up to the larger of its two sizes.
unfoldable pub segment_bytes : Build → List ℕ → ProgramHeader → Outcome (List (ℕ × ℕ))
segment_bytes build input header = do
  vaddr ← convert header.p_vaddr
  let min_size = min header.p_filesz header.p_memsz
  let max_size = max header.p_filesz header.p_memsz
  bytes ← slice input header.p_offset min_size
  zip_range build vaddr (bytes ++ replicate (max_size - min_size) 0)

unfoldable pub segments_bytes :
    Build → (ℕ → Bool) → List ℕ → List ProgramHeader → Outcome (List (ℕ × ℕ))
segments_bytes build check input [] = ok []
segments_bytes build check input (header ∷ headers) =
    let rest = segments_bytes build check input headers in
    if check header.p_flags
    then (do bytes ← segment_bytes build input header; more ← rest; ok (bytes ++ more))
    else rest

unfoldable pub extract_elf_data :
    Build → (ℕ → Bool) → List ℕ → List ProgramHeader → Outcome (HashMap ℕ)
extract_elf_data build check input segments = do
  entries ← segments_bytes build check input segments
  ok (extend [] entries)

module _ (build : Build) (bit_range : BitRange) (elf : ElfCrate) where
  open elf use {pf_none, pf_r, pf_w, pf_x}

  unfoldable pub internal_load_elf : List ℕ → ℕ → List ProgramHeader → (ℕ → Bool) → Outcome Program
  internal_load_elf input entry_point segments check = do
    ro_memory ← extract_elf_data build check input segments
    rw_memory ← extract_elf_data build (λ flags. flags == bit_or pf_r pf_w) input segments
    image ← extract_elf_data build (λ flags. bit_and flags pf_x == pf_x) input segments
    ro_code ← code_from build bit_range image
    ok (record {
      entry_point = entry_point;
      ro_memory = ro_memory;
      rw_memory = rw_memory;
      ro_code = ro_code;
    })

  unfoldable pub is_read_only_segment : ℕ → Bool
  is_read_only_segment flags = bit_and flags pf_r == pf_r && bit_and flags pf_w == pf_none

  unfoldable pub mozak_load_elf : List ℕ → ElfBytes × ℕ × List ProgramHeader → Outcome Program
  mozak_load_elf input (file, entry_point, segments) =
      internal_load_elf input entry_point segments is_read_only_segment

  unfoldable pub vanilla_load_elf : List ℕ → Outcome Program
  vanilla_load_elf input = do
    (file, entry_point, segments) ← parse_and_validate_elf elf input
    internal_load_elf input entry_point segments is_read_only_segment

  unfoldable pub mozak_load_program : List ℕ → Outcome Program
  mozak_load_program input = do
    parsed ← parse_and_validate_elf elf input
    mozak_load_elf input parsed
