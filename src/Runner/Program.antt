-- ===== src/Runner/Program.antt =====
-- runner/src/elf.rs and code.rs: a loaded program.
use mozak_vm.Prelude.{ℕ, Option}
use mozak_vm.Runner.HashMap.{HashMap, get}
use mozak_vm.Runner.Instruction.{Decoded}

pub record Program : Type 0 where
  pub entry_point : ℕ
  pub ro_memory : HashMap ℕ
  pub rw_memory : HashMap ℕ
  pub ro_code : HashMap Decoded

-- `Code::get_instruction`
unfoldable pub get_instruction : HashMap Decoded → ℕ → Option Decoded
get_instruction code pc = get code pc
