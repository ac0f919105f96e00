-- ===== src/Runner/Tests/Reads.antt =====
-- Reads from a tape of three bytes.
use mozak_vm.Prelude.{ℕ, ◌+◌, ◌≡◌, refl, List, [], ◌∷◌, ◌++◌, arith}
use mozak_vm.Runner.Outcome.{ok, ◌>>=◌}
use mozak_vm.Runner.State.{read_bytes}
use mozak_vm.Runner.State.Tapes.{read_bytes-append}

abbrev three_bytes : List ℕ
three_bytes = 1 ∷ 2 ∷ 3 ∷ []

all_read : read_bytes three_bytes 0 7 ≡ ok (three_bytes, 3)
unfolding read_bytes
all_read = refl

read_bytes-append_example : read_bytes three_bytes 0 (2 + 5) ≡ (
    read_bytes three_bytes 0 2 >>= λ (xs, j).
    read_bytes three_bytes j 5 >>= λ (ys, k). ok (xs ++ ys, k))
read_bytes-append_example = read_bytes-append three_bytes 0 2 5 (omega arith)
