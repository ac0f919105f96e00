-- ===== src/Runner.antt =====
-- runner/src: the RISC-V interpreter.
pub mod Outcome
pub mod HashMap
pub mod Alu
pub mod Instruction
pub mod Program
pub mod State
pub mod Utf8
pub mod Poseidon2
pub mod Ecall
pub mod Vm
pub mod Format
pub mod Decode
pub mod Loader
pub mod Elf
pub mod Execute
mod Tests
