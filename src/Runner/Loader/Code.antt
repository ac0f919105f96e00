-- ===== src/Runner/Loader/Code.antt =====
-- runner/src/code.rs: the code that an image is decoded to.
use mozak_vm.Prelude.{
  ℕ, ◌+◌, ◌%◌, ◌^◌, ◌≡◌, refl, sym, Bool, false, ◌||◌, Option, none, some, [], ◌∷◌, arith, ◌==◌,
  if◌then◌else◌,
}
use mozak_vm.Word.{u32_from_le_bytes}
use mozak_vm.Runner.Outcome.{ok, Build, Ensures, Ensures-ok, Ensures-bind, returns, add_checked-mod}
use mozak_vm.Runner.HashMap.{HashMap, HashSet, get, get-insert, contains}
use mozak_vm.Runner.Instruction.{Decoded}
use mozak_vm.Runner.Format.{BitRange}
use mozak_vm.Runner.Decode.{decode_instruction}
use mozak_vm.Runner.Loader.{align, aligned_keys, byte_at, load_word, decode_all, code_from}

-- The word at an address, whose bytes are at the next four addresses modulo 2^32; a byte that is
-- not in the image is zero.
abbrev pub word_at : HashMap ℕ → ℕ → ℕ
word_at image pc =
    let next = λ (a : ℕ). (a + 1) % 2 ^ 32 in
    u32_from_le_bytes (byte_at image pc) (byte_at image (next pc)) (byte_at image (next (next pc)))
      (byte_at image (next (next (next pc))))

-- Some byte of the image is in the aligned word at `pc`.
abbrev pub covers : HashMap ℕ → ℕ → Bool
covers [] pc = false
covers ((addr, byte) ∷ image) pc = align addr == pc || covers image pc

contains-aligned_keys :
    (image : HashMap ℕ) (pc : ℕ) → contains (aligned_keys image) pc ≡ covers image pc
unfolding aligned_keys contains
contains-aligned_keys [] pc = refl
contains-aligned_keys ((addr, byte) ∷ image) pc =
    ground (arith, contains-aligned_keys image pc, contains-aligned_keys image (align addr))

load_word-word_at :
    (build : Build) (image : HashMap ℕ) (a : ℕ)
    → Ensures (λ w. w ≡ word_at image a) (load_word build image a)
unfolding load_word
load_word-word_at build image a = Ensures-bind (add_checked-mod build 32 a 1) λ a1 h1.
    Ensures-bind (add_checked-mod build 32 a1 1) λ a2 h2.
      Ensures-bind (add_checked-mod build 32 a2 1) λ a3 h3.
        Ensures-bind (add_checked-mod build 32 a3 1) λ a4 h4.
          Ensures-bind (add_checked-mod build 32 a4 1) λ a5 h5. returns (rw (h3, h2, h1) refl)

module _ (build : Build) (bit_range : BitRange) (image : HashMap ℕ) where
  -- What the entry at an address is to be, of those at the addresses of a set.
  abbrev entry : HashSet → ℕ → Option Decoded
  entry l pc =
      if contains l pc then some (decode_instruction bit_range pc (word_at image pc)) else none

  get-decode_all :
      (l : HashSet)
      → Ensures (λ code. (pc : ℕ) → get code pc ≡ entry l pc) (decode_all build bit_range image l)
  unfolding decode_all contains get
  get-decode_all [] = returns (λ pc. refl)
  get-decode_all (key ∷ l) = Ensures-bind (load_word-word_at build image key) λ word h.
      Ensures-bind (get-decode_all l) λ code ih. returns λ pc.
        ground (arith, get-insert key (decode_instruction bit_range key word) code pc, ih pc, h)

  -- If the code of an image is built, the entry at an address is the decoded word there if the
  -- image has a byte of the aligned word at that address, and there is none otherwise.
  pub get-code_from :
      (code : HashMap Decoded) (pc : ℕ)
      → code_from build bit_range image ≡ ok code
      → get code pc ≡ (
          if covers image pc
          then some (decode_instruction bit_range pc (word_at image pc))
          else none)
  unfolding code_from
  get-code_from code pc e =
      rw (sym (contains-aligned_keys image pc))
        (Ensures-ok (get-decode_all (aligned_keys image)) e pc)
