-- ===== src/Runner/State/Initial.antt =====
-- runner/src/state.rs: the initial state.
use mozak_vm.Prelude.{
  ℕ, zero, suc, ◌≡◌, refl, false, true, none, some, get_elem?, replicate, length-replicate, arith,
}
use mozak_vm.Word.{IsU32, IsU8}
use mozak_vm.Runner.HashMap.{HashMap, get, contains, IsUnique, get-extend, contains-keys}
use mozak_vm.Runner.Program.{Program}
use mozak_vm.Runner.State.{RawTapes, new_state}
use mozak_vm.Runner.State.Valid.{IsBytes, IsValid}

words_replicate : (n i v : ℕ) → get_elem? (replicate n 0) i ≡ some v → IsU32 v
words_replicate zero i v e = cc
words_replicate (suc n) zero v e = ground arith
words_replicate (suc n) (suc i) v e = words_replicate n i v e

-- The bytes of a map.
abbrev pub HoldsBytes : HashMap ℕ → Type 0
HoldsBytes m = (a v : ℕ) → get m a ≡ some v → IsU8 v

pub record IsProgram (p : Program) : Type 0 where
  pub entry_point : IsU32 p.entry_point
  pub ro_unique : IsUnique p.ro_memory
  pub ro_bytes : HoldsBytes p.ro_memory
  pub rw_bytes : HoldsBytes p.rw_memory

pub record AreRawTapes (t : RawTapes) : Type 0 where
  pub private_tape : IsBytes t.private_tape
  pub public_tape : IsBytes t.public_tape
  pub call_tape : IsBytes t.call_tape
  pub event_tape : IsBytes t.event_tape
  pub events_commitment_tape : IsBytes t.events_commitment_tape
  pub cast_list_commitment_tape : IsBytes t.cast_list_commitment_tape
  pub self_prog_id_tape : IsBytes t.self_prog_id_tape

module _ (p : Program) (t : RawTapes) (h : IsProgram p) where
  -- A byte of the initial memory is that of the read-only map, or else that of the writable
  -- map; the addresses of the read-only map, and no others, are read-only.
  pub new_state_memory :
      (a : ℕ)
      → (get (new_state p t).memory.content a
          ≡ elim (get p.ro_memory a) [ none ↦ get p.rw_memory a | some v ↦ some v ])
        × (contains (new_state p t).memory.is_read_only a
            ≡ elim (get p.ro_memory a) [ none ↦ false | some _ ↦ true ])
  unfolding new_state
  new_state_memory a =
      (get-extend p.rw_memory p.ro_memory a h.ro_unique, contains-keys p.ro_memory a)

  initial_bytes : (a v : ℕ) → get (new_state p t).memory.content a ≡ some v → IsU8 v
  initial_bytes a v e = ground (arith, (new_state_memory a).0, h.ro_bytes a v, h.rw_bytes a v)

  -- A program with a 32-bit entry point and bytes in its maps, and tapes of bytes, give a well-
  -- formed initial state.
  pub new_state-IsValid : AreRawTapes t → IsValid (new_state p t)
  unfolding new_state
  new_state-IsValid b = record {
    registers = record {
      count = length-replicate {A = ℕ} 32 0;
      r0 = refl;
      words = words_replicate 32;
    };
    pc = h.entry_point;
    memory = record { bytes = initial_bytes };
    tapes = (
      record { bytes = b.private_tape; on_tape = omega arith },
      record { bytes = b.public_tape; on_tape = omega arith },
      record { bytes = b.call_tape; on_tape = omega arith },
      record { bytes = b.event_tape; on_tape = omega arith },
      b.events_commitment_tape,
      b.cast_list_commitment_tape,
      b.self_prog_id_tape,
    );
  }
