-- ===== src/Runner/Vm/LoadStore.antt =====
-- runner/src/vm.rs: a load after a store, at each width.
use mozak_vm.Prelude.{
  ℕ, zero, suc, ◌*◌, ◌%◌, ◌^◌, ◌≤◌, ◌<◌, ◌≡◌, ◌∙◌, refl, ap, some, take, length, get_or, bit_and,
  arith,
}
use mozak_vm.Prelude.Bits.{bit_and_mask}
use mozak_vm.Word.{IsU32, shr32, wrapping_add, to_le_bytes, u32_from_le_bytes, u16_from_le_bytes}
use mozak_vm.Word.Laws.{wrapping_add-IsU32}
use mozak_vm.Runner.Outcome.{ok, >>=-eq-ok}
use mozak_vm.Runner.Alu.{Bytes4, lbu, lhu, lhu_raw, lw}
use mozak_vm.Runner.Instruction.{Args}
use mozak_vm.Runner.State.{
  State, Aux, get_register_value, set_register_value, load_u8, bump_pc, store_bytes, memory_load,
}
use mozak_vm.Runner.State.Memory.{store_bytes_loads, store_bytes_registers}
use mozak_vm.Runner.Vm.{store, store_mask}

-- The three widths, with their bytes and their unsigned loads.
pub data Width : Type 0 where
  byte half word : Width

abbrev pub size : Width → ℕ
size byte = 1
size half = 2
size word = 4

abbrev pub unsigned_load : Width → Bytes4 → ℕ × ℕ
unsigned_load byte = lbu
unsigned_load half = lhu
unsigned_load word = lw

abbrev get_byte : Bytes4 → ℕ → ℕ
get_byte m zero = m.b0
get_byte m (suc zero) = m.b1
get_byte m (suc (suc zero)) = m.b2
get_byte m (suc (suc (suc _))) = m.b3

-- The four bytes from an address on, as the load reads them.
abbrev bytes_at : State → ℕ → Bytes4
bytes_at s a = record {
  b0 = load_u8 s (wrapping_add a 0);
  b1 = load_u8 s (wrapping_add a 1);
  b2 = load_u8 s (wrapping_add a 2);
  b3 = load_u8 s (wrapping_add a 3);
}

bytes_at-byte :
    (s : State) (a j : ℕ) → j < 4 → get_byte (bytes_at s a) j ≡ load_u8 s (wrapping_add a j)
bytes_at-byte s a zero h = refl
bytes_at-byte s a (suc zero) h = refl
bytes_at-byte s a (suc (suc zero)) h = refl
bytes_at-byte s a (suc (suc (suc zero))) h = refl
bytes_at-byte s a (suc (suc (suc (suc j)))) h = absurd (omega arith)

masked : (w : Width) (v : ℕ) → bit_and v (store_mask (size w)) ≡ v % 2 ^ (8 * size w)
unfolding store_mask shr32
masked byte v = bit_and_mask 8 v
masked half v = bit_and_mask 16 v
masked word v = bit_and_mask 32 v

-- The bytes of the value, put together again.
rebuilt :
    (w : Width) (r : ℕ) (m : Bytes4)
    → r < 2 ^ (8 * size w)
    → m.b0 ≡ get_or (take (size w) (to_le_bytes r)) 0 0
    → (1 < size w → m.b1 ≡ get_or (take (size w) (to_le_bytes r)) 1 0)
    → (2 < size w → m.b2 ≡ get_or (take (size w) (to_le_bytes r)) 2 0)
    → (3 < size w → m.b3 ≡ get_or (take (size w) (to_le_bytes r)) 3 0)
    → unsigned_load w m ≡ (r, r)
unfolding lbu lhu lhu_raw lw to_le_bytes u32_from_le_bytes u16_from_le_bytes
rebuilt byte r m h e0 e1 e2 e3 = ground arith
rebuilt half r m h e0 e1 e2 e3 = ground (arith, e1 (omega arith))
rebuilt word r m h e0 e1 e2 e3 =
    ground (arith, e1 (omega arith), e2 (omega arith), e3 (omega arith))

-- The part of a register that a store of this width writes, and its address.
abbrev pub stored : Width → ℕ → ℕ
stored w v = v % 2 ^ (8 * size w)

abbrev address : ℕ → Args → ℕ
address base args = wrapping_add base args.imm

stored-lt : (w : Width) (v : ℕ) → stored w v < 2 ^ (8 * size w)
stored-lt byte v = omega arith
stored-lt half v = omega arith
stored-lt word v = omega arith

byte_count : (w : Width) (r : ℕ) → length (take (size w) (to_le_bytes r)) ≡ size w
unfolding to_le_bytes
byte_count byte r = refl
byte_count half r = refl
byte_count word r = refl

size_le : (w : Width) → size w ≤ 4
size_le byte = omega arith
size_le half = omega arith
size_le word = omega arith

size_pos : (w : Width) → 0 < size w
size_pos byte = omega arith
size_pos half = omega arith
size_pos word = omega arith

-- What a successful store did.
record Stored {F : Type 0} (w : Width) (s : State) (args : Args) (v base : ℕ) (aux : Aux F)
    (s' : State) : Type 0 where
  after : State
  written :
      store_bytes (address base args) 0 (take (size w) (to_le_bytes (stored w v))) s ≡ ok after
  bumped : s' ≡ bump_pc after
  recorded : aux.mem ≡ some (record { addr = address base args; raw_value = stored w v })

module _ (w : Width) (s : State) (args : Args) (v base : ℕ) where
  -- The load of the same width from the state after the bytes were written.
  loaded :
      (t : State)
      → IsU32 (address base args)
      → store_bytes (address base args) 0 (take (size w) (to_le_bytes (stored w v))) s ≡ ok t
      → (m : Bytes4)
      → ((j : ℕ) → j < 4 → get_byte m j ≡ load_u8 t (wrapping_add (address base args) j))
      → unsigned_load w m ≡ (stored w v, stored w v)
  loaded t ha written m bytes =
      rebuilt w (stored w v) m (stored-lt w v) (at 0 (omega arith) (size_pos w))
        (at 1 (omega arith)) (at 2 (omega arith)) (at 3 (omega arith))
    where
      at :
          (j : ℕ)
          → j < 4
          → j < size w
          → get_byte m j ≡ get_or (take (size w) (to_le_bytes (stored w v))) j 0
      at j lt inside =
          bytes j lt
          ∙ ap (λ (k : ℕ). load_u8 t (wrapping_add (address base args) k)) (omega arith)
          ∙ store_bytes_loads (address base args) 0 _ s t j ha
              (omega (arith, byte_count w (stored w v), size_le w)) written
              (omega (arith, byte_count w (stored w v)))

module _ {F : Type 0} (w : Width) (s : State) (args : Args) (v base : ℕ)
    (hv : get_register_value s args.rs1 ≡ ok v) (hb : get_register_value s args.rs2 ≡ ok base) where
  store-Stored :
      (aux : Aux F) (s' : State)
      → store {F = F} s args (size w) ≡ ok (aux, s')
      → Stored w s args v base aux s'
  unfolding store
  store-Stored aux s' e =
      let (t, written, rest) = >>=-eq-ok _ _ (rw (hv, hb, masked w v) at e) in
      record {
        after = t;
        written = written;
        bumped = ground (arith, rest);
        recorded = ground (arith, rest);
      }

  -- A load after a store that succeeded, from the same base register and offset, LBU after SB,
  -- LHU after SH and LW after SW, gives the low bytes of the stored register and records the
  -- same memory access.
  pub load-store :
      (aux aux' : Aux F) (s' s'' : State)
      → store {F = F} s args (size w) ≡ ok (aux, s')
      → memory_load {F = F} s' args (size w) (unsigned_load w) ≡ ok (aux', s'')
      → (aux'.dst_val ≡ stored w v) × (aux'.mem ≡ aux.mem)
  unfolding memory_load
  load-store aux aux' s' s'' e e' =
      let st = store-Stored aux s' e in
      let loading = unsigned_load w (bytes_at s' (address base args)) in
      let (t, set_reg, rest) =
        >>=-eq-ok (set_register_value s' args.rd loading.1) _ (rw (base_kept st) at e') in
      let got =
        loaded w s args v base st.after (wrapping_add-IsU32 base args.imm) st.written
          (bytes_at s' (address base args)) (bytes_same st) in
      (ground (arith, rest, got), ground (arith, rest, got, st.recorded))
    where
      base_kept : Stored w s args v base aux s' → get_register_value s' args.rs2 ≡ ok base
      base_kept st =
          let (r, _) = store_bytes_registers _ _ _ _ _ st.written in
          rw st.bumped (unfold get_register_value bump_pc in rw r (unfold get_register_value in hb))

      bytes_same :
          (st : Stored w s args v base aux s') (j : ℕ)
          → j < 4
          → get_byte (bytes_at s' (address base args)) j
            ≡ load_u8 st.after (wrapping_add (address base args) j)
      bytes_same st j lt =
          bytes_at-byte s' (address base args) j lt
          ∙ ap (λ (x : State). load_u8 x (wrapping_add (address base args) j)) st.bumped
          ∙ (unfold load_u8 bump_pc in refl)
