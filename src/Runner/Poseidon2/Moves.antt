-- ===== src/Runner/Poseidon2/Moves.antt =====
-- runner/src/poseidon2.rs: what the hash call does to a well-formed state.
use mozak_vm.Prelude.{List, length, ◌==◌}
use mozak_vm.Runner.Outcome.{Build, Ensures, returns, Ensures-bind, Ensures-any, assert}
use mozak_vm.Runner.State.{State, digest_bytes}
use mozak_vm.Runner.State.Valid.{IsBytes, IsValid, Acts, Acts-trans}
use mozak_vm.Runner.State.Moves.{get_register_value-IsU32, bump_pc-Acts, store_bytes-Acts}
use mozak_vm.Runner.Poseidon2.{
  Plonky, hash_n_to_m_no_pad, read_input, ecall_poseidon2, reg_a1, reg_a2, reg_a3,
}

-- `GenericHashOut::to_bytes` returns a `Vec<u8>`.
abbrev pub WritesBytes : Plonky → Type 0
WritesBytes plonky = (h : List plonky.F) → IsBytes (plonky.to_bytes h)

module _ (build : Build) (plonky : Plonky) (laws : WritesBytes plonky) where
  pub ecall_poseidon2-Acts :
      (s : State) → IsValid s → Ensures (λ r. Acts s r.1) (ecall_poseidon2 build plonky s)
  unfolding ecall_poseidon2
  ecall_poseidon2-Acts s v = Ensures-bind (get_register_value-IsU32 s reg_a1 v) λ input_ptr _.
      Ensures-bind (get_register_value-IsU32 s reg_a2 v) λ len _.
        Ensures-bind (get_register_value-IsU32 s reg_a3 v) λ out _.
          Ensures-bind (Ensures-any (read_input build plonky s input_ptr 0 len)) λ input _.
            Ensures-bind (Ensures-any (hash_n_to_m_no_pad build plonky input)) λ (hash, d) _.
              Ensures-bind (Ensures-any (assert (digest_bytes == length (plonky.to_bytes hash))))
                λ _ _.
                  Ensures-bind (store_bytes-Acts out 0 (plonky.to_bytes hash) s v (laws hash))
                    λ s' m. returns (Acts-trans m (bump_pc-Acts s' m.valid))
