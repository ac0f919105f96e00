-- ===== src/Runner/Elf/Loaded.antt =====
-- runner/src/elf.rs: the memory and the code of a program that is loaded from a file.
use mozak_vm.Prelude.{ℕ, ◌≡◌, ◌%◌, Bool, ◌&&◌, none, some, List, ◌==◌, if◌then◌else◌, ◌/◌}
use mozak_vm.Runner.HashMap.{HashMap, get}
use mozak_vm.Runner.Format.{BitRange}
use mozak_vm.Runner.Program.{Program}
use mozak_vm.Runner.Loader.Code.{covers, word_at}
use mozak_vm.Runner.Instruction.{Decoded}
use mozak_vm.Runner.Decode.{decode_instruction}
use mozak_vm.Runner.Elf.{ElfCrate, ProgramHeader}
use mozak_vm.Runner.Elf.Segments.{image_byte}

-- The flags of a segment, as the ELF format has them: read 4, write 2, execute 1.
pub record HasFlags (elf : ElfCrate) : Type 0 where
  pub none_is : elf.pf_none ≡ 0
  pub r_is : elf.pf_r ≡ 4
  pub w_is : elf.pf_w ≡ 2
  pub x_is : elf.pf_x ≡ 1

abbrev pub readable_only : ℕ → Bool
readable_only flags = flags / 4 % 2 == 1 && flags / 2 % 2 == 0

-- The bytes that can be executed are decoded.
pub record Decodes (bit_range : BitRange) (input : List ℕ) (headers : List ProgramHeader)
    (code : HashMap Decoded) : Type 0 where
  pub image : HashMap ℕ
  pub bytes : (a : ℕ) → get image a ≡ image_byte (λ f. f % 2 == 1) input headers a
  pub decoded :
      (pc : ℕ)
      → get code pc ≡ (
          if covers image pc
          then some (decode_instruction bit_range pc (word_at image pc))
          else none)

-- The memory and the code of a program that is loaded from a file with these segments.
pub record Holds (bit_range : BitRange) (input : List ℕ) (headers : List ProgramHeader)
    (p : Program) : Type 0 where
  pub read_only : (a : ℕ) → get p.ro_memory a ≡ image_byte readable_only input headers a
  pub writable : (a : ℕ) → get p.rw_memory a ≡ image_byte (λ f. f == 6) input headers a
  pub code : Decodes bit_range input headers p.ro_code
