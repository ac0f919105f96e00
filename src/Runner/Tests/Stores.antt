-- ===== src/Runner/Tests/Stores.antt =====
-- Writes to the memory of the small program.
use mozak_vm.Prelude.{ℕ, ◌+◌, ◌≡◌, ◌<◌, refl, true, false, [], ◌∷◌, arith, set}
use mozak_vm.Word.{wrapping_add, to_le_bytes}
use mozak_vm.Runner.Outcome.{Outcome, ok, panic, unwrapped, cannot_write_to_ro_memory}
use mozak_vm.Runner.HashMap.{contains, keys, extend, insert, get}
use mozak_vm.Runner.Instruction.{Args}
use mozak_vm.Runner.State.{
  State, Aux, default_aux, bump_pc, bump_pc_n, set_pc, addresses_from, new_state, new_memory,
  get_register_value, set_register_value, load_u8, store_u8, store_bytes, memory_load,
}
use mozak_vm.Runner.State.Memory.{store_bytes_loads, store_bytes_frame, store_bytes_panics}
use mozak_vm.Runner.Alu.{lhu}
use mozak_vm.Runner.Vm.{store, store_mask}
use mozak_vm.Runner.Vm.LoadStore.{Width, load-store, size, unsigned_load, stored}
use mozak_vm.Runner.Tests.World.{toy_state}

abbrev after : Outcome State → State
after (ok s) = s
after _ = toy_state

abbrev written : State
written = after (store_bytes 300 0 (77 ∷ 78 ∷ []) toy_state)

wrote : store_bytes 300 0 (77 ∷ 78 ∷ []) toy_state ≡ ok written
unfolding store_bytes store_u8 contains new_state new_memory keys wrapping_add
wrote = refl

store_bytes_loads_example : load_u8 written (wrapping_add 300 (0 + 1)) ≡ 78
store_bytes_loads_example =
    store_bytes_loads 300 0 (77 ∷ 78 ∷ []) toy_state written 1 (omega arith) (omega arith) wrote
      (omega arith)

store_bytes_frame_example : load_u8 written 101 ≡ load_u8 toy_state 101
store_bytes_frame_example =
    store_bytes_frame 300 0 (77 ∷ 78 ∷ []) toy_state written 101 wrote
      (λ j lt. unfold wrapping_add in omega arith)

-- The byte at 100 is read-only, the one at 99 is not.
refused : contains toy_state.memory.is_read_only (wrapping_add 99 (0 + 1)) ≡ true
unfolding contains new_state new_memory keys wrapping_add
refused = refl

free : (j : ℕ) → j < 1 → contains toy_state.memory.is_read_only (wrapping_add 99 (0 + j)) ≡ false
unfolding contains new_state new_memory keys wrapping_add
free j lt = ground arith

store_bytes_panics_example :
    store_bytes 99 0 (1 ∷ 2 ∷ []) toy_state
    ≡ panic (unwrapped (cannot_write_to_ro_memory (wrapping_add 99 (0 + 1)) 2))
store_bytes_panics_example =
    store_bytes_panics 99 0 (1 ∷ 2 ∷ []) toy_state 1 (omega arith) free refused

abbrev base_state : State
base_state = record toy_state { registers = set toy_state.registers 5 1000 }

abbrev args : Args
args = record { rd = 6; rs1 = 5; rs2 = 0; imm = 400 }

abbrev second : Outcome (Aux ℕ × State) → Aux ℕ × State
second (ok r) = r
second _ = (default_aux, toy_state)

abbrev stored_half : Aux ℕ × State
stored_half = second (store base_state args 2)

abbrev loaded_half : Aux ℕ × State
loaded_half = second (memory_load stored_half.1 args 2 (unsigned_load Width.half))

five : get_register_value base_state 5 ≡ ok 1000
unfolding get_register_value new_state
five = refl

zero_register : get_register_value base_state 0 ≡ ok 0
unfolding get_register_value new_state
zero_register = refl

half_stored : store {F = ℕ} base_state args (size Width.half) ≡ ok stored_half
unfolding store store_mask store_bytes store_u8 get_register_value new_state new_memory contains
    keys wrapping_add to_le_bytes bump_pc bump_pc_n set_pc addresses_from
half_stored = refl

half_loaded :
    memory_load {F = ℕ} stored_half.1 args (size Width.half) (unsigned_load Width.half)
    ≡ ok loaded_half
unfolding store store_mask store_bytes store_u8 get_register_value new_state new_memory contains
    keys wrapping_add to_le_bytes bump_pc bump_pc_n set_pc addresses_from memory_load
    set_register_value load_u8 insert extend get lhu
half_loaded = refl

load-store_example :
    (loaded_half.0.dst_val ≡ stored Width.half 1000) × (loaded_half.0.mem ≡ stored_half.0.mem)
load-store_example =
    load-store Width.half base_state args 1000 0 five zero_register stored_half.0 loaded_half.0
      stored_half.1 loaded_half.1 half_stored half_loaded
