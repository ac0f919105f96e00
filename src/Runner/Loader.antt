-- ===== src/Runner/Loader.antt =====
-- runner/src/code.rs and elf.rs: code and programs from images.
pub mod Code
use mozak_vm.Prelude.{
  ℕ, ◌+◌, ◌-◌, ◌%◌, ◌^◌, ◌&&◌, not, Bool, Option, none, some, List, [], ◌∷◌, ◌++◌, length, take,
  drop, replicate, min, bit_and, bit_or, ltb, leb, ◌==◌, if◌then◌else◌,
}
use mozak_vm.Word.{u32_from_le_bytes, to_le_bytes, wrapping_add}
use mozak_vm.Runner.Outcome.{
  Outcome, ok, err, panic, ◌>>=◌, ◌>>◌, Build, add_checked, assert, expect, malformed_elf,
  not_a_32_bit_elf, invalid_machine_type, invalid_elf_type, entry_point_too_large,
  misaligned_entry_point, missing_segment_table, too_many_program_headers, index_out_of_bounds,
  conversion_failed, unwrap,
}
use mozak_vm.Runner.HashMap.{HashMap, HashSet, get, insert, extend, keys, contains}
use mozak_vm.Runner.Instruction.{Args, Op, Instruction, Decoded, instruction, default_args}
use mozak_vm.Runner.Format.{BitRange}
use mozak_vm.Runner.Decode
use mozak_vm.Runner.Decode.{decode_instruction}
use mozak_vm.Runner.Program.{Program}
use mozak_vm.Runner.State.{State, RawTapes, new_state, set_register_value}
use mozak_vm.Runner.Poseidon2.{Plonky}
use mozak_vm.Runner.Vm.{ExecutionRecord, step}

-- `x & !3`
abbrev pub align : ℕ → ℕ
align x = bit_and x (2 ^ 32 - 1 - 3)

-- The aligned addresses of an image, each once.
unfoldable pub aligned_keys : HashMap ℕ → HashSet
aligned_keys [] = []
aligned_keys ((addr, byte) ∷ image) =
    let rest = aligned_keys image in if contains rest (align addr) then rest else align addr ∷ rest

abbrev pub byte_at : HashMap ℕ → ℕ → ℕ
byte_at image addr = elim (get image addr) [ none ↦ 0 | some b ↦ b ]

-- The range `addr..` moves on with each of its five calls, the last before the array's end is seen.
unfoldable pub load_word : Build → HashMap ℕ → ℕ → Outcome ℕ
load_word build image addr = do
  a1 ← add_checked build 32 addr 1
  a2 ← add_checked build 32 a1 1
  a3 ← add_checked build 32 a2 1
  a4 ← add_checked build 32 a3 1
  _ ← add_checked build 32 a4 1
  ok (
      u32_from_le_bytes (byte_at image addr) (byte_at image a1) (byte_at image a2)
        (byte_at image a3))

module _ (build : Build) (bit_range : BitRange) where
  unfoldable pub decode_all : HashMap ℕ → HashSet → Outcome (HashMap Decoded)
  decode_all image [] = ok []
  decode_all image (key ∷ rest) = do
    word ← load_word build image key
    code ← decode_all image rest
    ok (insert key (decode_instruction bit_range key word) code)

  -- `Code::from`
  unfoldable pub code_from : HashMap ℕ → Outcome (HashMap Decoded)
  code_from image = decode_all image (aligned_keys image)

-- `(addr..).zip(bytes)`: the range moves on before each byte, and once more at the end.
unfoldable pub zip_range : Build → ℕ → List ℕ → Outcome (List (ℕ × ℕ))
zip_range build addr [] = do _ ← add_checked build 32 addr 1; ok []
zip_range build addr (byte ∷ bytes) = do
  next ← add_checked build 32 addr 1
  rest ← zip_range build next bytes
  ok ((addr, byte) ∷ rest)

unfoldable pub word_bytes : Build → HashMap ℕ → Outcome (List (ℕ × ℕ))
word_bytes build [] = ok []
word_bytes build ((addr, word) ∷ image) = do
  bytes ← zip_range build addr (to_le_bytes word)
  rest ← word_bytes build image
  ok (bytes ++ rest)

unfoldable pub all_aligned : HashMap ℕ → Bool
all_aligned [] = Bool.true
all_aligned ((addr, word) ∷ image) = addr % 4 == 0 && all_aligned image

-- `Program::from`, on a map of words
unfoldable pub program_from : Build → BitRange → HashMap ℕ → Outcome Program
program_from build bit_range image = do
  assert (all_aligned image)
  entries ← word_bytes build image
  let bytes = extend [] entries
  code ← code_from build bit_range bytes
  ok (record { entry_point = 0; ro_memory = []; rw_memory = bytes; ro_code = code })

-- `(u64::from(addr)..).map(|k| u32::try_from(k).unwrap()).zip(bytes)`
unfoldable pub convert : ℕ → Outcome ℕ
convert x = if ltb x (2 ^ 32) then ok x else panic conversion_failed

unfoldable pub zip_converted : ℕ → List ℕ → Outcome (List (ℕ × ℕ))
zip_converted addr [] = do _ ← convert addr; ok []
zip_converted addr (byte ∷ bytes) = do
  key ← convert addr
  rest ← zip_converted (addr + 1) bytes
  ok ((key, byte) ∷ rest)

unfoldable pub converted_bytes : HashMap ℕ → Outcome (List (ℕ × ℕ))
converted_bytes [] = ok []
converted_bytes ((addr, word) ∷ image) = do
  bytes ← zip_converted addr (to_le_bytes word)
  rest ← converted_bytes image
  ok (bytes ++ rest)

-- `image.iter().sorted()`; the keys differ, so that the order is that of the keys
unfoldable pub insert_sorted : ℕ × ℕ → HashMap ℕ → HashMap ℕ
insert_sorted (k, v) [] = (k, v) ∷ []
insert_sorted (k, v) ((j, w) ∷ l) =
    if ltb k j then (k, v) ∷ (j, w) ∷ l else (j, w) ∷ insert_sorted (k, v) l

unfoldable pub sorted : HashMap ℕ → HashMap ℕ
sorted [] = []
sorted (entry ∷ image) = insert_sorted entry (sorted image)

-- The assertions on one pair of neighbours, for the offsets 0 to 3.
unfoldable pub clear_of : ℕ → ℕ → Bool
clear_of k j =
    not (wrapping_add k 0 == j)
    && not (wrapping_add k 1 == j)
    && not (wrapping_add k 2 == j)
    && not (wrapping_add k 3 == j)

-- The pairs of `circular_tuple_windows`, where `first` follows the last entry.
unfoldable pub windows_clear : ℕ → HashMap ℕ → Bool
windows_clear first [] = Bool.true
windows_clear first ((k, v) ∷ []) = clear_of k first
windows_clear first ((k, v) ∷ (j, w) ∷ l) = clear_of k j && windows_clear first ((j, w) ∷ l)

unfoldable pub no_overlap : HashMap ℕ → Bool
no_overlap [] = Bool.true
no_overlap ((k, v) ∷ l) = windows_clear k ((k, v) ∷ l)

-- `Data::from`, on a map of words
unfoldable pub data_from : HashMap ℕ → Outcome (HashMap ℕ)
data_from image = do
  assert (if ltb 1 (length image) then no_overlap (sorted image) else Bool.true)
  entries ← converted_bytes image
  ok (extend [] entries)
