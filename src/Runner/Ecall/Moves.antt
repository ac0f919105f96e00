-- ===== src/Runner/Ecall/Moves.antt =====
-- runner/src/ecall.rs: what the environment calls do to a well-formed state.
use mozak_vm.Prelude.{
  ℕ, zero, suc, ◌≤◌, refl, Bool, List, [], ◌∷◌, length, take, drop, arith, inl, inr, Bool-cases,
  ltb, ◌==◌,
}
use native.Mathlib.Nat.{le-add_right}
use mozak_vm.Runner.Outcome.{
  ok, ◌>>=◌, Build, Ensures, returns, panics, Ensures-bind, Ensures-any, Ensures-if,
}
use mozak_vm.Runner.State.{
  State, StorageDeviceTape, StorageDeviceOpcode, no_op, store_private, store_public,
  store_call_tape, store_event_tape, store_events_commitment_tape, store_cast_list_commitment_tape,
  store_self_prog_id_tape, read_bytes,
}
use mozak_vm.Runner.State.Valid.{
  IsBytes, IsTape, IsValid, Advances, Acts, KeepsRom-refl, Advances-refl, Acts-refl, Acts-trans,
}
use mozak_vm.Runner.State.Moves.{
  get_register_value-IsU32, bump_pc-Acts, halt-Acts, store_bytes-Acts,
}
use mozak_vm.Runner.Poseidon2.{Plonky, reg_a1, reg_a2}
use mozak_vm.Runner.Poseidon2.Moves.{WritesBytes, ecall_poseidon2-Acts}
use mozak_vm.Runner.Ecall.{
  read_tape, read_device, ecall_halt, ecall_read, ecall_panic, ecall_trace_log, ecall, reg_a0,
  read_message,
}

IsBytes-take : (n : ℕ) (bs : List ℕ) → IsBytes bs → IsBytes (take n bs)
IsBytes-take zero bs h = tt
IsBytes-take (suc n) [] h = tt
IsBytes-take (suc n) (b ∷ bs) (hb, h) = (hb, IsBytes-take n bs h)

IsBytes-drop : (n : ℕ) (bs : List ℕ) → IsBytes bs → IsBytes (drop n bs)
IsBytes-drop zero bs h = h
IsBytes-drop (suc n) [] h = tt
IsBytes-drop (suc n) (b ∷ bs) (hb, h) = IsBytes-drop n bs h

-- Bytes are read, and the position stays on the tape and does not go back.
record Reads (buf : List ℕ) (index : ℕ) (r : List ℕ × ℕ) : Type 0 where
  bytes : IsBytes r.0
  on_tape : r.1 ≤ length buf
  forwards : index ≤ r.1

read_bytes-Reads :
    (buf : List ℕ) (index n : ℕ) → IsBytes buf → Ensures (Reads buf index) (read_bytes buf index n)
unfolding read_bytes
read_bytes-Reads buf index n h = elim (Bool-cases (ltb (length buf) index)) [
  | inl e ↦ rw e panics
  | inr e ↦ rw e (
      returns (record {
        bytes = IsBytes-take _ (drop index buf) (IsBytes-drop index buf h);
        on_tape = ground arith;
        forwards = le-add_right index _;
      }))
]

-- A tape that is read stays well-formed and moves forwards.
read_tape-IsTape :
    (t : StorageDeviceTape) (n : ℕ)
    → IsTape t
    → Ensures (λ r. IsBytes r.0 × IsTape r.1 × Advances t r.1) (read_tape t n)
unfolding read_tape
read_tape-IsTape t n h =
    Ensures-bind (read_bytes-Reads t.content t.read_index n h.bytes) λ (bytes, index) r. returns (
      r.bytes,
      record { bytes = h.bytes; on_tape = r.on_tape },
      record { same = refl; forwards = r.forwards },
    )

module _ (s : State) (v : IsValid s) (n : ℕ) where
  -- the three tapes that have no position
  fixed :
      (buf : List ℕ)
      → IsBytes buf
      → Ensures {A = List ℕ × State}
          (λ r. IsBytes r.0 × Acts s r.1)
          (read_bytes buf 0 n >>= λ (bytes, _). ok (bytes, s))
  fixed buf h = Ensures-bind (read_bytes-Reads buf 0 n h) λ r p. returns (p.bytes, Acts-refl v)

  read_device-Acts :
      (op : StorageDeviceOpcode) → Ensures (λ r. IsBytes r.0 × Acts s r.1) (read_device op s n)
  unfolding read_device
  read_device-Acts no_op = panics
  read_device-Acts store_private = Ensures-bind (read_tape-IsTape s.private_tape n v.tapes.0) λ r p.
      returns (
        p.0,
        record {
          evolves = record {
            valid = record {
              registers = v.registers;
              pc = v.pc;
              memory = v.memory;
              tapes = (p.1, v.tapes.1, v.tapes.2, v.tapes.3, v.tapes.4, v.tapes.5, v.tapes.6);
            };
            rom = KeepsRom-refl s.memory;
            tapes = (p.2, Advances-refl _, Advances-refl _, Advances-refl _, refl, refl, refl);
          };
          clk = refl;
        },
      )
  read_device-Acts store_public = Ensures-bind (read_tape-IsTape s.public_tape n v.tapes.1) λ r p.
      returns (
        p.0,
        record {
          evolves = record {
            valid = record {
              registers = v.registers;
              pc = v.pc;
              memory = v.memory;
              tapes = (v.tapes.0, p.1, v.tapes.2, v.tapes.3, v.tapes.4, v.tapes.5, v.tapes.6);
            };
            rom = KeepsRom-refl s.memory;
            tapes = (Advances-refl _, p.2, Advances-refl _, Advances-refl _, refl, refl, refl);
          };
          clk = refl;
        },
      )
  read_device-Acts store_call_tape = Ensures-bind (read_tape-IsTape s.call_tape n v.tapes.2) λ r p.
      returns (
        p.0,
        record {
          evolves = record {
            valid = record {
              registers = v.registers;
              pc = v.pc;
              memory = v.memory;
              tapes = (v.tapes.0, v.tapes.1, p.1, v.tapes.3, v.tapes.4, v.tapes.5, v.tapes.6);
            };
            rom = KeepsRom-refl s.memory;
            tapes = (Advances-refl _, Advances-refl _, p.2, Advances-refl _, refl, refl, refl);
          };
          clk = refl;
        },
      )
  read_device-Acts store_event_tape =
      Ensures-bind (read_tape-IsTape s.event_tape n v.tapes.3) λ r p. returns (
        p.0,
        record {
          evolves = record {
            valid = record {
              registers = v.registers;
              pc = v.pc;
              memory = v.memory;
              tapes = (v.tapes.0, v.tapes.1, v.tapes.2, p.1, v.tapes.4, v.tapes.5, v.tapes.6);
            };
            rom = KeepsRom-refl s.memory;
            tapes = (Advances-refl _, Advances-refl _, Advances-refl _, p.2, refl, refl, refl);
          };
          clk = refl;
        },
      )
  read_device-Acts store_events_commitment_tape = fixed s.events_commitment_tape v.tapes.4
  read_device-Acts store_cast_list_commitment_tape = fixed s.cast_list_commitment_tape v.tapes.5
  read_device-Acts store_self_prog_id_tape = fixed s.self_prog_id_tape v.tapes.6

module _ {F : Type 0} (s : State) (v : IsValid s) where
  ecall_read-Acts : (op : StorageDeviceOpcode) → Ensures (λ r. Acts s r.1) (ecall_read {F = F} op s)
  unfolding ecall_read
  ecall_read-Acts op = Ensures-bind (get_register_value-IsU32 s reg_a1 v) λ start _.
      Ensures-bind (get_register_value-IsU32 s reg_a2 v) λ n _.
        Ensures-bind (read_device-Acts s v n op) λ (bytes, s₁) (hb, m₁).
          Ensures-bind (store_bytes-Acts start 0 bytes s₁ m₁.valid hb)
            λ s₂ m₂. returns (Acts-trans m₁ (Acts-trans m₂ (bump_pc-Acts s₂ m₂.valid)))

  ecall_halt-Acts : Ensures (λ r. Acts s r.1) (ecall_halt {F = F} s)
  unfolding ecall_halt
  ecall_halt-Acts = returns (halt-Acts s v)

  ecall_panic-Acts : (build : Build) → Ensures (λ r. Acts s r.1) (ecall_panic build {F = F} s)
  unfolding ecall_panic
  ecall_panic-Acts build =
      Ensures-bind (Ensures-any (read_message build s)) λ msg _. Ensures-if _ panics panics

  ecall_trace_log-Acts :
      (build : Build) (debug_log : Bool)
      → Ensures (λ r. Acts s r.1) (ecall_trace_log build {F = F} debug_log s)
  unfolding ecall_trace_log
  ecall_trace_log-Acts build debug_log =
      Ensures-bind (Ensures-any (read_message build s))
        λ msg _. Ensures-if _ panics (returns (bump_pc-Acts s v))

module _ (build : Build) (debug_log : Bool) (plonky : Plonky) (laws : WritesBytes plonky) where
  -- From a well-formed state, and with digests written as bytes, an environment call that
  -- succeeds leads to a well-formed state with the same read-only memory, tapes that are read
  -- forwards only, and the same clock.
  pub ecall-Acts :
      (s : State) → IsValid s → Ensures (λ r. Acts s r.1) (ecall build debug_log plonky s)
  unfolding ecall
  ecall-Acts s v = Ensures-bind (get_register_value-IsU32 s reg_a0 v) λ a0 _.
      Ensures-if (a0 == 0) (ecall_halt-Acts s v) (
        Ensures-if (a0 == 2) (ecall_read-Acts s v store_private) (
          Ensures-if (a0 == 4) (ecall_read-Acts s v store_public) (
            Ensures-if (a0 == 5) (ecall_read-Acts s v store_call_tape) (
              Ensures-if (a0 == 6) (ecall_read-Acts s v store_event_tape) (
                Ensures-if (a0 == 7) (ecall_read-Acts s v store_events_commitment_tape) (
                  Ensures-if (a0 == 8) (ecall_read-Acts s v store_cast_list_commitment_tape) (
                    Ensures-if (a0 == 9) (ecall_read-Acts s v store_self_prog_id_tape) (
                      Ensures-if (a0 == 1) (ecall_panic-Acts s v build) (
                        Ensures-if (a0 == 3) (ecall_poseidon2-Acts build plonky laws s v) (
                          Ensures-if (a0 == 10) (ecall_trace_log-Acts s v build debug_log)
                            (returns (bump_pc-Acts s v))))))))))))
