-- ===== src/Runner/State.antt =====
-- runner/src/state.rs: the state of the machine and its methods. A method that takes and returns
-- `self` returns the new state; reading a register that is not there is a panic.
pub mod Valid
pub mod Moves
pub mod Initial
pub mod Memory
pub mod Registers
pub mod Tapes
use mozak_vm.Prelude.{
  ℕ, zero, suc, ◌+◌, ◌-◌, ◌<◌, ◌≤◌, ◌≡◌, Bool, true, false, not, Option, none, some, List, [], ◌∷◌,
  map, length, get_elem?, set, take, drop, replicate, min, ltb, leb, ◌==◌, if◌then◌else◌,
}
use mozak_vm.Word.{wrapping_add, u32_from_le_bytes}
use mozak_vm.Runner.Outcome.{
  Outcome, ok, err, panic, ◌>>=◌, unwrap, expect, index_out_of_bounds, arithmetic_overflow,
  cannot_write_to_ro_memory, Build, add_checked,
}
use mozak_vm.Runner.HashMap.{HashMap, HashSet, get, insert, extend, keys, contains}
use mozak_vm.Runner.Alu.{Bytes4}
use mozak_vm.Runner.Instruction.{Args, Decoded}
use mozak_vm.Runner.Program.{Program, get_instruction}

pub record StorageDeviceTape : Type 0 where
  pub content : List ℕ
  pub read_index : ℕ

-- `read_bytes`: the bytes read and the new index
unfoldable pub read_bytes : List ℕ → ℕ → ℕ → Outcome (List ℕ × ℕ)
read_bytes buf index num_bytes =
    if ltb (length buf) index
    then panic arithmetic_overflow
    else let remaining_len = length buf - index in
      let limit = min num_bytes remaining_len in ok (take limit (drop index buf), index + limit)

pub record StateMemory : Type 0 where
  pub content : HashMap ℕ
  pub is_read_only : HashSet

-- `StateMemory::new`, at one read-only and one writable map
unfoldable pub new_memory : HashMap ℕ → HashMap ℕ → StateMemory
new_memory ro rw_map = record { content = extend rw_map ro; is_read_only = keys ro }

pub record State : Type 0 where
  pub clk : ℕ
  pub halted : Bool
  pub registers : List ℕ
  pub pc : ℕ
  pub memory : StateMemory
  pub private_tape : StorageDeviceTape
  pub public_tape : StorageDeviceTape
  pub call_tape : StorageDeviceTape
  pub event_tape : StorageDeviceTape
  pub events_commitment_tape : List ℕ
  pub cast_list_commitment_tape : List ℕ
  pub self_prog_id_tape : List ℕ

abbrev pub digest_bytes : ℕ
digest_bytes = 32

pub record RawTapes : Type 0 where
  pub private_tape : List ℕ
  pub public_tape : List ℕ
  pub call_tape : List ℕ
  pub event_tape : List ℕ
  pub events_commitment_tape : List ℕ
  pub cast_list_commitment_tape : List ℕ
  pub self_prog_id_tape : List ℕ

abbrev pub tape : List ℕ → StorageDeviceTape
tape bytes = record { content = bytes; read_index = 0 }

-- `State::new` over `State::default`, whose clock starts at 2
unfoldable pub new_state : Program → RawTapes → State
unfolding new_memory
new_state p t = record {
  clk = 2;
  halted = false;
  registers = replicate 32 0;
  pc = p.entry_point;
  memory = new_memory p.ro_memory p.rw_memory;
  private_tape = tape t.private_tape;
  public_tape = tape t.public_tape;
  call_tape = tape t.call_tape;
  event_tape = tape t.event_tape;
  events_commitment_tape = t.events_commitment_tape;
  cast_list_commitment_tape = t.cast_list_commitment_tape;
  self_prog_id_tape = t.self_prog_id_tape;
}

pub record MemEntry : Type 0 where
  pub addr : ℕ
  pub raw_value : ℕ

pub data StorageDeviceOpcode : Type 0 where
  no_op store_private store_public store_call_tape store_event_tape : StorageDeviceOpcode
  store_events_commitment_tape store_cast_list_commitment_tape : StorageDeviceOpcode
  store_self_prog_id_tape : StorageDeviceOpcode

pub record StorageDeviceEntry : Type 0 where
  pub addr : ℕ
  pub op : StorageDeviceOpcode
  pub content : List ℕ

-- runner/src/poseidon2.rs: what a hash call records, over the field `F`
pub record SpongeData (F : Type 0) : Type 0 where
  pub preimage : List F
  pub output : List F
  pub gen_output : Bool

pub record Poseidon2Entry (F : Type 0) : Type 0 where
  pub addr : ℕ
  pub output_addr : ℕ
  pub len : ℕ
  pub sponge_data : List (SpongeData F)

pub record Aux (F : Type 0) : Type 0 where
  pub dst_val : ℕ
  pub new_pc : ℕ
  pub mem : Option MemEntry
  pub mem_addresses_used : List ℕ
  pub will_halt : Bool
  pub op1 : ℕ
  pub op2 : ℕ
  pub op2_raw : ℕ
  pub poseidon2 : Option (Poseidon2Entry F)
  pub storage_device_entry : Option StorageDeviceEntry

abbrev pub default_aux : {F : Type 0} → Aux F
default_aux = record {
  dst_val = 0;
  new_pc = 0;
  mem = none;
  mem_addresses_used = [];
  will_halt = false;
  op1 = 0;
  op2 = 0;
  op2_raw = 0;
  poseidon2 = none;
  storage_device_entry = none;
}

unfoldable pub halt : State → State
halt s = record s { halted = true }

unfoldable pub get_register_value : State → ℕ → Outcome ℕ
get_register_value s index = expect index_out_of_bounds (get_elem? s.registers index)

-- R0 is always 0
unfoldable pub set_register_value : State → ℕ → ℕ → Outcome State
set_register_value s index value =
    if index == 0
    then ok s
    else if ltb index (length s.registers)
    then ok (record s { registers = set s.registers index value })
    else panic index_out_of_bounds

unfoldable pub set_pc : State → ℕ → State
set_pc s value = record s { pc = value }

unfoldable pub bump_pc_n : State → ℕ → State
unfolding set_pc
bump_pc_n s diff = set_pc s (wrapping_add s.pc diff)

unfoldable pub bump_pc : State → State
unfolding bump_pc_n
bump_pc s = bump_pc_n s 4

unfoldable pub bump_clock : Build → State → Outcome State
bump_clock build s = do clk ← add_checked build 64 s.clk 1; ok (record s { clk = clk })

unfoldable pub load_u8 : State → ℕ → ℕ
load_u8 s addr = elim (get s.memory.content addr) [ none ↦ 0 | some b ↦ b ]

-- `load_u32` adds the offsets without wrapping
unfoldable pub load_u32 : Build → State → ℕ → Outcome ℕ
load_u32 build s addr = do
  a0 ← add_checked build 32 addr 0
  a1 ← add_checked build 32 addr 1
  a2 ← add_checked build 32 addr 2
  a3 ← add_checked build 32 addr 3
  ok (u32_from_le_bytes (load_u8 s a0) (load_u8 s a1) (load_u8 s a2) (load_u8 s a3))

unfoldable pub store_u8 : State → ℕ → ℕ → Outcome State
store_u8 s addr value =
    if contains s.memory.is_read_only addr
    then err (cannot_write_to_ro_memory addr value)
    else ok (record s { memory = record s.memory { content = insert addr value s.memory.content } })

-- `addr.wrapping_add(i)` for `n` values of `i`, from `i` on
unfoldable pub addresses_from : ℕ → ℕ → ℕ → List ℕ
addresses_from addr i zero = []
addresses_from addr i (suc n) = wrapping_add addr i ∷ addresses_from addr (i + 1) n

-- The fold of `acc.store_u8(addr.wrapping_add(i), byte).unwrap()` over the bytes, from `i` on. The
-- store, tape and hash instructions write memory by it.
unfoldable pub store_bytes : ℕ → ℕ → List ℕ → State → Outcome State
store_bytes addr i [] s = ok s
store_bytes addr i (byte ∷ bytes) s = do
  s' ← unwrap (store_u8 s (wrapping_add addr i) byte)
  store_bytes addr (i + 1) bytes s'

module _ {F : Type 0} where
  unfoldable pub register_op : State → Args → (ℕ → ℕ → Outcome ℕ) → Outcome (Aux F × State)
  register_op s args op = do
    op1 ← get_register_value s args.rs1
    r2 ← get_register_value s args.rs2
    dst_val ← op op1 (wrapping_add r2 args.imm)
    s' ← set_register_value s args.rd dst_val
    ok (record default_aux { dst_val = dst_val }, bump_pc s')

  unfoldable pub memory_load : State → Args → ℕ → (Bytes4 → ℕ × ℕ) → Outcome (Aux F × State)
  memory_load s args bytes op = do
    r2 ← get_register_value s args.rs2
    let addr = wrapping_add r2 args.imm
    let byte = λ (i : ℕ). load_u8 s (wrapping_add addr i)
    let (raw_value, dst_val) = op (record { b0 = byte 0; b1 = byte 1; b2 = byte 2; b3 = byte 3 })
    s' ← set_register_value s args.rd dst_val
    ok (
      record default_aux {
        dst_val = dst_val;
        mem = some (record { addr = addr; raw_value = raw_value });
        mem_addresses_used = take bytes (addresses_from addr 0 4);
      },
      bump_pc s',
    )

  unfoldable pub branch_op : State → Args → (ℕ → ℕ → Bool) → Outcome (Aux F × State)
  branch_op s args op = do
    op1 ← get_register_value s args.rs1
    op2 ← get_register_value s args.rs2
    ok (default_aux, if op op1 op2 then set_pc s args.imm else bump_pc s)

unfoldable pub current_instruction : State → Program → Option Decoded
current_instruction s program = get_instruction program.ro_code s.pc
