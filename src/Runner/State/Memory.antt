-- ===== src/Runner/State/Memory.antt =====
-- runner/src/state.rs: writes of several bytes to the memory.
use mozak_vm.Prelude.{
  ℕ, zero, suc, ◌+◌, ◌^◌, ◌≤◌, ◌<◌, ◌≡◌, ◌≢◌, ◌∙◌, refl, sym, ap, true, false, List, [], ◌∷◌,
  length, get_or, arith, ◌==◌, if◌then◌else◌,
}
use mozak_vm.Word.{IsU32, wrapping_add}
use mozak_vm.Runner.Outcome.{
  Outcome, ok, err, panic, ◌>>=◌, unwrap, unwrapped, cannot_write_to_ro_memory,
}
use mozak_vm.Runner.HashMap.{insert, contains, get-insert}
use mozak_vm.Runner.State.{State, load_u8, store_u8, store_bytes}

-- One byte.
load_u8-store_u8 :
    (s : State) (a b j : ℕ) (s' : State)
    → store_u8 s a b ≡ ok s'
    → load_u8 s' j ≡ (if a == j then b else load_u8 s j)
unfolding store_u8 load_u8
load_u8-store_u8 s a b j s' e = ground (arith, get-insert a b s.memory.content j)

-- The first byte, and the rest from the state after it.
store_bytes-cons :
    (addr i b : ℕ) (bs : List ℕ) (s s' : State)
    → store_bytes addr i (b ∷ bs) s ≡ ok s'
    → (t : State) × (store_u8 s (wrapping_add addr i) b ≡ ok t)
      × (store_bytes addr (i + 1) bs t ≡ ok s')
unfolding store_bytes
store_bytes-cons addr i b bs s s' e = go (store_u8 s (wrapping_add addr i) b) refl e
  where
    go :
        (o : Outcome State)
        → store_u8 s (wrapping_add addr i) b ≡ o
        → (unwrap o >>= λ t. store_bytes addr (i + 1) bs t) ≡ ok s'
        → (t : State) × (store_u8 s (wrapping_add addr i) b ≡ ok t)
          × (store_bytes addr (i + 1) bs t ≡ ok s')
    go (ok t) p q = (t, p, q)
    go (err x) p q = cc
    go (panic x) p q = cc

-- A successful write of bytes leaves the byte at every other address as it was.
pub store_bytes_frame :
    (addr i : ℕ) (bs : List ℕ) (s s' : State) (a : ℕ)
    → store_bytes addr i bs s ≡ ok s'
    → ((j : ℕ) → j < length bs → wrapping_add addr (i + j) ≢ a)
    → load_u8 s' a ≡ load_u8 s a
unfolding store_bytes
store_bytes_frame addr i [] s s' a e far = ground arith
store_bytes_frame addr i (b ∷ bs) s s' a e far =
    let (t, first, rest) = store_bytes-cons addr i b bs s s' e in
    let away : wrapping_add addr i ≢ a =
      λ p. far 0 (omega arith) (ap (wrapping_add addr) (omega arith) ∙ p) in
    store_bytes_frame addr (i + 1) bs t s' a rest
      (λ j lt p. far (suc j) (omega arith) (ap (wrapping_add addr) (omega arith) ∙ p))
    ∙ ground (arith, load_u8-store_u8 s (wrapping_add addr i) b a t first)

distinct :
    (addr i j : ℕ) → IsU32 addr → i < j → j < i + 2 ^ 32 → wrapping_add addr j ≢ wrapping_add addr i
unfolding wrapping_add
distinct addr i j ha lt fits p = omega arith

-- After a successful write of at most 2^32 bytes from a 32-bit address on, each byte is read
-- back at its address.
pub store_bytes_loads :
    (addr i : ℕ) (bs : List ℕ) (s s' : State) (j : ℕ)
    → IsU32 addr
    → length bs ≤ 2 ^ 32
    → store_bytes addr i bs s ≡ ok s'
    → j < length bs
    → load_u8 s' (wrapping_add addr (i + j)) ≡ get_or bs j 0
store_bytes_loads addr i [] s s' j ha fits e lt = elim lt [ ]
store_bytes_loads addr i (b ∷ bs) s s' zero ha fits e lt =
    let (t, first, rest) = store_bytes-cons addr i b bs s s' e in
    ap (λ (k : ℕ). load_u8 s' (wrapping_add addr k)) (omega arith)
    ∙ store_bytes_frame addr (i + 1) bs t s' (wrapping_add addr i) rest
        (λ j h. distinct addr i (i + 1 + j) ha (omega arith) (omega arith))
    ∙ ground (arith, load_u8-store_u8 s (wrapping_add addr i) b (wrapping_add addr i) t first)
store_bytes_loads addr i (b ∷ bs) s s' (suc j) ha fits e lt =
    let (t, first, rest) = store_bytes-cons addr i b bs s s' e in
    ap (λ (k : ℕ). load_u8 s' (wrapping_add addr k)) (omega arith)
    ∙ store_bytes_loads addr (i + 1) bs t s' j ha (omega arith) rest (omega arith)

-- A write fails exactly if one of its addresses is read-only, and then it is a panic.
abbrev pub Writable : State → ℕ → ℕ → ℕ → Type 0
Writable s addr i n =
    (j : ℕ) → j < n → contains s.memory.is_read_only (wrapping_add addr (i + j)) ≡ false

store_u8_writes :
    (s : State) (a b : ℕ)
    → contains s.memory.is_read_only a ≡ false
    → store_u8 s a b
      ≡ ok (record s { memory = record s.memory { content = insert a b s.memory.content } })
unfolding store_u8
store_u8_writes s a b e = rw e

store_u8_refuses :
    (s : State) (a b : ℕ)
    → contains s.memory.is_read_only a ≡ true
    → store_u8 s a b ≡ err (cannot_write_to_ro_memory a b)
unfolding store_u8
store_u8_refuses s a b e = rw e

pub store_bytes_writes :
    (addr i : ℕ) (bs : List ℕ) (s : State)
    → Writable s addr i (length bs)
    → (s' : State) × (store_bytes addr i bs s ≡ ok s')
unfolding store_bytes
store_bytes_writes addr i [] s w = (s, refl)
store_bytes_writes addr i (b ∷ bs) s w =
    let a = wrapping_add addr i in
    let t : State = record s {
      memory = record s.memory { content = insert a b s.memory.content };
    } in
    let here : contains s.memory.is_read_only a ≡ false =
      ap (λ (k : ℕ). contains s.memory.is_read_only (wrapping_add addr k)) (omega arith)
      ∙ w 0 (omega arith) in
    let (s', e) = store_bytes_writes addr (i + 1) bs t (λ j lt.
      ap (λ (k : ℕ). contains s.memory.is_read_only (wrapping_add addr k)) (omega arith)
      ∙ w (suc j) (omega arith)) in
    (s', rw (store_u8_writes s a b here) e)

-- A write whose first read-only address is that of its byte k panics with the error of the
-- write to that address and byte.
pub store_bytes_panics :
    (addr i : ℕ) (bs : List ℕ) (s : State) (k : ℕ)
    → k < length bs
    → Writable s addr i k
    → contains s.memory.is_read_only (wrapping_add addr (i + k)) ≡ true
    → store_bytes addr i bs s
      ≡ panic (unwrapped (cannot_write_to_ro_memory (wrapping_add addr (i + k)) (get_or bs k 0)))
unfolding store_bytes
store_bytes_panics addr i [] s k lt w e = elim lt [ ]
store_bytes_panics addr i (b ∷ bs) s zero lt w e =
    let same : wrapping_add addr (i + 0) ≡ wrapping_add addr i =
      ap (wrapping_add addr) (omega arith) in
    rw (
      same,
      store_u8_refuses s (wrapping_add addr i) b
          (ap (contains s.memory.is_read_only) (sym same) ∙ e),
    )
store_bytes_panics addr i (b ∷ bs) s (suc k) lt w e =
    let a = wrapping_add addr i in
    let t : State = record s {
      memory = record s.memory { content = insert a b s.memory.content };
    } in
    let here : contains s.memory.is_read_only a ≡ false =
      ap (λ (n : ℕ). contains s.memory.is_read_only (wrapping_add addr n)) (omega arith)
      ∙ w 0 (omega arith) in
    let moved : i + suc k ≡ i + 1 + k = omega arith in
    rw (store_u8_writes s a b here, moved)
      (store_bytes_panics addr (i + 1) bs t k (omega arith)
        (λ j lt'.
          ap (λ (n : ℕ). contains s.memory.is_read_only (wrapping_add addr n)) (omega arith)
          ∙ w (suc j) (omega arith))
        (ap (λ (n : ℕ). contains s.memory.is_read_only (wrapping_add addr n)) (omega arith) ∙ e))

-- A write of bytes leaves the registers and the program counter alone.
pub store_bytes_registers :
    (addr i : ℕ) (bs : List ℕ) (s s' : State)
    → store_bytes addr i bs s ≡ ok s'
    → (s'.registers ≡ s.registers) × (s'.pc ≡ s.pc)
unfolding store_bytes
store_bytes_registers addr i [] s s' e = ground arith
store_bytes_registers addr i (b ∷ bs) s s' e =
    let (t, first, rest) = store_bytes-cons addr i b bs s s' e in
    let (r, p) = store_bytes_registers addr (i + 1) bs t s' rest in
    let (r', p') = kept t first in (r ∙ r', p ∙ p')
  where
    kept :
        (t : State)
        → store_u8 s (wrapping_add addr i) b ≡ ok t
        → (t.registers ≡ s.registers) × (t.pc ≡ s.pc)
    kept t first = unfold store_u8 in ground arith
