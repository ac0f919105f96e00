-- ===== src/Runner/Utf8.antt =====
-- `core::str::from_utf8`, which the panic and log calls apply to their message: is a list of bytes
-- well-formed UTF-8? The bytes are read one by one, with the range that the next one must lie in
-- and the number of continuation bytes after it.
use mozak_vm.Prelude.{ℕ, ◌-◌, ◌&&◌, Bool, true, false, List, [], ◌∷◌, leb, ◌==◌, if◌then◌else◌}

pub data Expects : Type 0 where
  character : Expects
  bytes : ℕ → ℕ → ℕ → Expects
  malformed : Expects

abbrev pub within : ℕ → ℕ → ℕ → Bool
within lo hi b = leb lo b && leb b hi

unfoldable pub first_byte : ℕ → Expects
first_byte b =
    if leb b 0x7f
    then character
    else if within 0xc2 0xdf b
    then bytes 0x80 0xbf 0
    else if b == 0xe0
    then bytes 0xa0 0xbf 1
    else if b == 0xed
    then bytes 0x80 0x9f 1
    else if within 0xe1 0xef b
    then bytes 0x80 0xbf 1
    else if b == 0xf0
    then bytes 0x90 0xbf 2
    else if within 0xf1 0xf3 b
    then bytes 0x80 0xbf 2
    else if b == 0xf4
    then bytes 0x80 0x8f 2
    else malformed

unfoldable pub next_byte : Expects → ℕ → Expects
unfolding first_byte
next_byte character b = first_byte b
next_byte (bytes lo hi more) b =
    if within lo hi b
    then (if more == 0 then character else bytes 0x80 0xbf (more - 1))
    else malformed
next_byte malformed b = malformed

unfoldable pub valid_from : Expects → List ℕ → Bool
unfolding next_byte
valid_from character [] = true
valid_from (bytes _ _ _) [] = false
valid_from malformed [] = false
valid_from e (b ∷ bs) = valid_from (next_byte e b) bs

unfoldable pub from_utf8 : List ℕ → Bool
unfolding valid_from
from_utf8 bs = valid_from character bs
