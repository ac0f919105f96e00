-- ===== src/Runner/Poseidon2.antt =====
-- runner/src/poseidon2.rs: the sponge and the hash call. The field, the permutation and the encoding
-- of a digest as bytes are those of plonky2, and enter as a parameter.
pub mod Moves
use mozak_vm.Prelude.{
  ℕ, zero, suc, ◌+◌, ◌-◌, ◌%◌, ◌≡◌, ◌≤◌, ◌<◌, Bool, true, false, Option, none, some, List, [], ◌∷◌,
  ◌++◌, map, length, take, drop, replicate, ◌==◌, leb, if◌then◌else◌,
}
use mozak_vm.Word.{wrapping_add}
use mozak_vm.Runner.Outcome.{
  Outcome, ok, panic, ◌>>=◌, ◌>>◌, assert, Build, add_checked, expected_element,
}
use mozak_vm.Runner.State.{
  State, SpongeData, Poseidon2Entry, Aux, default_aux, digest_bytes, get_register_value, load_u8,
  store_bytes, addresses_from, bump_pc,
}

-- `RichField`, `PlonkyPermutation` and `GenericHashOut`, as far as the code calls them.
pub record Plonky : Type 1 where
  pub F : Type 0
  pub zero : F
  pub from_canonical_u8 : ℕ → F
  pub Permutation : Type 0
  pub width : ℕ
  pub rate : ℕ
  -- `P::new(repeat(x))`
  pub new_repeat : F → Permutation
  -- `perm.set_from_slice(chunk, 0)`
  pub set_from_slice : List F → Permutation → Permutation
  pub permute : Permutation → Permutation
  pub as_ref : Permutation → List F
  pub squeeze : Permutation → List F
  pub to_bytes : List F → List ℕ

abbrev pub num_hash_out_elts : ℕ
num_hash_out_elts = 4

-- registers a1, a2 and a3
abbrev pub reg_a1 : ℕ
reg_a1 = 11

abbrev pub reg_a2 : ℕ
reg_a2 = 12

abbrev pub reg_a3 : ℕ
reg_a3 = 13

-- `slice.chunks(n)`; a list of `fuel` elements has at most `fuel` chunks
unfoldable pub chunks {ℓ} : {A : Type ℓ} → ℕ → ℕ → List A → List (List A)
chunks zero n xs = []
chunks (suc fuel) n [] = []
chunks (suc fuel) n (x ∷ xs) = take n (x ∷ xs) ∷ chunks fuel n (drop n (x ∷ xs))

-- the last element gets its flag set; `none` if there is no element
unfoldable pub mark_last : {F : Type 0} → List (SpongeData F) → Option (List (SpongeData F))
mark_last [] = none
mark_last (d ∷ []) = some (record d { gen_output = true } ∷ [])
mark_last (d ∷ e ∷ l) = elim (mark_last (e ∷ l)) [ none ↦ none | some l' ↦ some (d ∷ l') ]

unfoldable pub next_multiple_of : ℕ → ℕ → ℕ
next_multiple_of a r = if a % r == 0 then a else a + (r - a % r)

module _ (build : Build) (plonky : Plonky) where
  open plonky use {
    F, Permutation, width, rate, new_repeat, set_from_slice, permute, as_ref, squeeze, to_bytes,
    from_canonical_u8,
  }

  unfoldable pub permute_and_record_data : Permutation → Outcome (Permutation × SpongeData F)
  permute_and_record_data perm = do
    assert (12 == width)
    assert (length (as_ref perm) == 12)
    let perm' = permute perm
    assert (length (as_ref perm') == 12)
    ok (perm', record { preimage = as_ref perm; output = as_ref perm'; gen_output = false })

  unfoldable pub absorb : List (List F) → Permutation → Outcome (Permutation × List (SpongeData F))
  unfolding permute_and_record_data
  absorb [] perm = ok (perm, [])
  absorb (chunk ∷ rest) perm = do
    (perm₁, d) ← permute_and_record_data (set_from_slice chunk perm)
    (perm₂, ds) ← absorb rest perm₁
    ok (perm₂, d ∷ ds)

  -- The first four elements of the squeezed state are there, or the conversion panics.
  unfoldable pub first_outputs : List F → Outcome (List F)
  first_outputs out = do
    assert (leb num_hash_out_elts (length out))
    ok (take num_hash_out_elts out)

  unfoldable pub hash_n_to_m_no_pad : List F → Outcome (List F × List (SpongeData F))
  unfolding chunks mark_last absorb first_outputs
  hash_n_to_m_no_pad inputs = do
    let perm = new_repeat plonky.zero
    assert (length inputs % rate == 0)
    (perm', sponge_data) ← absorb (chunks (length inputs) rate inputs) perm
    outputs ← first_outputs (squeeze perm')
    elim (mark_last sponge_data) [
      | none ↦ panic expected_element
      | some marked ↦ ok (outputs, marked)
    ]

  -- `(0..input_len).map(|i| from_canonical_u8(load_u8(input_ptr + i)))`, from `i` on
  unfoldable pub read_input : State → ℕ → ℕ → ℕ → Outcome (List F)
  read_input s input_ptr i zero = ok []
  read_input s input_ptr i (suc n) = do
    addr ← add_checked build 32 input_ptr i
    rest ← read_input s input_ptr (i + 1) n
    ok (from_canonical_u8 (load_u8 s addr) ∷ rest)

  unfoldable pub ecall_poseidon2 : State → Outcome (Aux F × State)
  unfolding hash_n_to_m_no_pad read_input next_multiple_of
  ecall_poseidon2 s = do
    input_ptr ← get_register_value s reg_a1
    input_len ← get_register_value s reg_a2
    output_ptr ← get_register_value s reg_a3
    input ← read_input s input_ptr 0 input_len
    (hash, sponge_data) ← hash_n_to_m_no_pad input
    let bytes = to_bytes hash
    assert (digest_bytes == length bytes)
    s' ← store_bytes output_ptr 0 bytes s
    ok (
      record default_aux {
        mem_addresses_used =
            addresses_from input_ptr 0 input_len ++ addresses_from output_ptr 0 (length bytes);
        poseidon2 = some (record {
          addr = input_ptr;
          output_addr = output_ptr;
          len = next_multiple_of input_len rate;
          sponge_data = sponge_data;
        });
      },
      bump_pc s',
    )
