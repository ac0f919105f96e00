-- ===== src/Runner/Ecall.antt =====
-- runner/src/ecall.rs: the environment calls. The logging has no effect on the state.
pub mod Moves
use mozak_vm.Prelude.{
  ℕ, zero, suc, ◌+◌, ◌-◌, ◌&&◌, not, Bool, true, some, List, [], ◌∷◌, length, ◌==◌, if◌then◌else◌,
}
use mozak_vm.Word.{wrapping_add}
use mozak_vm.Runner.Outcome.{
  Outcome, ok, panic, ◌>>=◌, ◌>>◌, Build, add_checked, bad_opcode, invalid_utf8, vm_panicked,
}
use mozak_vm.Runner.State.{
  State, StorageDeviceTape, StorageDeviceOpcode, no_op, store_private, store_public,
  store_call_tape, store_event_tape, store_events_commitment_tape, store_cast_list_commitment_tape,
  store_self_prog_id_tape, Aux, default_aux, read_bytes, get_register_value, load_u8, store_bytes,
  addresses_from, bump_pc, halt,
}
use mozak_vm.Runner.Utf8.{from_utf8}
use mozak_vm.Runner.Poseidon2.{Plonky, reg_a1, reg_a2, ecall_poseidon2}

abbrev pub reg_a0 : ℕ
reg_a0 = 10

-- The next bytes of a tape, and the tape with its index moved.
unfoldable pub read_tape : StorageDeviceTape → ℕ → Outcome (List ℕ × StorageDeviceTape)
unfolding read_bytes
read_tape t n = do
  (bytes, index) ← read_bytes t.content t.read_index n
  ok (bytes, record t { read_index = index })

-- The bytes that the call reads; the commitment tapes and the program's identifier are read from
-- their start each time.
unfoldable pub read_device : StorageDeviceOpcode → State → ℕ → Outcome (List ℕ × State)
unfolding read_tape
read_device store_public s n = do
  (bytes, t) ← read_tape s.public_tape n
  ok (bytes, record s { public_tape = t })
read_device store_private s n = do
  (bytes, t) ← read_tape s.private_tape n
  ok (bytes, record s { private_tape = t })
read_device store_call_tape s n = do
  (bytes, t) ← read_tape s.call_tape n
  ok (bytes, record s { call_tape = t })
read_device store_event_tape s n = do
  (bytes, t) ← read_tape s.event_tape n
  ok (bytes, record s { event_tape = t })
read_device store_events_commitment_tape s n = do
  (bytes, _) ← read_bytes s.events_commitment_tape 0 n
  ok (bytes, s)
read_device store_cast_list_commitment_tape s n = do
  (bytes, _) ← read_bytes s.cast_list_commitment_tape 0 n
  ok (bytes, s)
read_device store_self_prog_id_tape s n = do
  (bytes, _) ← read_bytes s.self_prog_id_tape 0 n
  ok (bytes, s)
read_device no_op s n = panic bad_opcode

module _ {F : Type 0} where
  unfoldable pub ecall_halt : State → Outcome (Aux F × State)
  ecall_halt s = ok (record default_aux { will_halt = true }, halt s)

  unfoldable pub ecall_read : StorageDeviceOpcode → State → Outcome (Aux F × State)
  ecall_read op s = do
    buffer_start ← get_register_value s reg_a1
    num_bytes_requested ← get_register_value s reg_a2
    (bytes, s₁) ← read_device op s num_bytes_requested
    s₂ ← store_bytes buffer_start 0 bytes s₁
    ok (
      record default_aux {
        dst_val = length bytes;
        mem_addresses_used = addresses_from buffer_start 0 (length bytes);
        storage_device_entry = some (record { addr = buffer_start; op = op; content = bytes });
      },
      bump_pc s₂,
    )

-- The bytes of `msg_ptr..end`
unfoldable pub load_range : State → ℕ → ℕ → List ℕ
load_range s addr zero = []
load_range s addr (suc n) = load_u8 s addr ∷ load_range s (addr + 1) n

unfoldable pub read_message : Build → State → Outcome (List ℕ)
unfolding load_range
read_message build s = do
  msg_ptr ← get_register_value s reg_a1
  msg_len ← get_register_value s reg_a2
  end ← add_checked build 32 msg_ptr msg_len
  ok (load_range s msg_ptr (end - msg_ptr))

module _ (build : Build) {F : Type 0} where
  unfoldable pub ecall_panic : State → Outcome (Aux F × State)
  unfolding read_message from_utf8
  ecall_panic s = do
    msg ← read_message build s
    if from_utf8 msg then panic (vm_panicked msg) else panic invalid_utf8

  -- The message is decoded only if the `debug` level of the log is on.
  unfoldable pub ecall_trace_log : Bool → State → Outcome (Aux F × State)
  unfolding read_message from_utf8
  ecall_trace_log debug_log s = do
    msg ← read_message build s
    if debug_log && not (from_utf8 msg) then panic invalid_utf8 else ok (default_aux, bump_pc s)

unfoldable pub ecall :
    (build : Build) (debug_log : Bool) (plonky : Plonky) → State → Outcome (Aux plonky.F × State)
unfolding ecall_halt ecall_read ecall_panic ecall_trace_log
ecall build debug_log plonky s = do
  a0 ← get_register_value s reg_a0
  if a0 == 0
      then ecall_halt s
      else if a0 == 2
      then ecall_read store_private s
      else if a0 == 4
      then ecall_read store_public s
      else if a0 == 5
      then ecall_read store_call_tape s
      else if a0 == 6
      then ecall_read store_event_tape s
      else if a0 == 7
      then ecall_read store_events_commitment_tape s
      else if a0 == 8
      then ecall_read store_cast_list_commitment_tape s
      else if a0 == 9
      then ecall_read store_self_prog_id_tape s
      else if a0 == 1
      then ecall_panic build s
      else if a0 == 3
      then ecall_poseidon2 build plonky s
      else if a0 == 10
      then ecall_trace_log build debug_log s
      else ok (default_aux, bump_pc s)
