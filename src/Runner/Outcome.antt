-- ===== src/Runner/Outcome.antt =====
-- What a function of the runner comes to: a value, an `anyhow` error, or a panic.
-- Integer arithmetic with `+` panics on overflow only in a build with overflow checks.
use mozak_vm.Prelude.{
  ℕ, ◌+◌, ◌%◌, ◌^◌, ◌&&◌, ◌≡◌, refl, Bool, true, false, Option, List, leb, if◌then◌else◌,
}

pub data Error : Type 0 where
  cannot_find_instruction : Error
  unknown_instruction : ℕ → ℕ → Error
  cannot_write_to_ro_memory : ℕ → ℕ → Error
  malformed_elf not_a_32_bit_elf invalid_machine_type invalid_elf_type : Error
  entry_point_too_large misaligned_entry_point missing_segment_table : Error
  too_many_program_headers : Error

pub data Fault : Type 0 where
  index_out_of_bounds : Fault
  arithmetic_overflow : Fault
  unwrapped : Error → Fault
  bad_opcode : Fault
  invalid_utf8 : Fault
  vm_panicked : List ℕ → Fault
  assertion_failed : Fault
  expected_element : Fault
  looped_too_long : Fault
  conversion_failed : Fault
  divided_by_zero : Fault

pub data Outcome {ℓ} (A : Type ℓ) : Type ℓ where
  ok : A → Outcome A
  err : Error → Outcome A
  panic : Fault → Outcome A

infixl 5 ◌>>=◌ ◌>>◌
abbrev pub ◌>>=◌ {ℓ κ} : {A : Type ℓ} {B : Type κ} → Outcome A → (A → Outcome B) → Outcome B
ok a >>= f = f a
err e >>= f = err e
panic x >>= f = panic x

abbrev pub ◌>>◌ {ℓ} : {B : Type ℓ} → Outcome (Unit {0}) → Outcome B → Outcome B
m >> k = m >>= λ _. k

-- `assert!`, `Result::unwrap` and the reading of an `Option` that must be there
abbrev pub assert : Bool → Outcome (Unit {0})
assert b = if b then ok tt else panic assertion_failed

abbrev pub unwrap {ℓ} : {A : Type ℓ} → Outcome A → Outcome A
unwrap (ok a) = ok a
unwrap (err e) = panic (unwrapped e)
unwrap (panic x) = panic x

abbrev pub expect {ℓ} : {A : Type ℓ} → Fault → Option A → Outcome A
expect x Option.none = panic x
expect x (Option.some a) = ok a

-- A function of two words that always gives a value.
abbrev pub total : (ℕ → ℕ → ℕ) → ℕ → ℕ → Outcome ℕ
total f a b = ok (f a b)

-- The settings of the build that the code reads: `debug_assertions`, whether `+` is checked, and
-- `MOZAK_MAX_LOOPS`, which is 1_000_000 unless the environment of the compiler sets it.
pub record Build : Type 0 where
  pub overflow_checks : Bool
  pub debug_assertions : Bool
  pub max_loops : ℕ

-- `a + b` at `bits` bits
unfoldable pub add_checked : Build → ℕ → ℕ → ℕ → Outcome ℕ
add_checked build bits a b =
    if build.overflow_checks && leb (2 ^ bits) (a + b)
    then panic arithmetic_overflow
    else ok ((a + b) % 2 ^ bits)

-- A sequence that succeeds: the first part's value, and what the second makes of it.
abbrev pub Parts {ℓ κ} : {A : Type ℓ} {B : Type κ} → Outcome A → (A → Outcome B) → B → Type (ℓ ⊔ κ)
Parts {A = A} m rest result = (value : A) × (m ≡ ok value) × (rest value ≡ ok result)

pub >>=-eq-ok {ℓ κ} :
    {A : Type ℓ} {B : Type κ} {result : B} (m : Outcome A) (rest : A → Outcome B)
    → (m >>= rest) ≡ ok result
    → Parts m rest result
>>=-eq-ok (panic x) rest failed = cc
>>=-eq-ok (err e) rest failed = cc
>>=-eq-ok (ok value) rest done = (value, refl, done)

-- `P` holds of the value, if there is one.
pub data Ensures {ℓ κ} {A : Type ℓ} (P : A → Type κ) : Outcome A → Type (ℓ ⊔ κ) where
  returns : {a : A} → P a → Ensures P (ok a)
  fails : {e : Error} → Ensures P (err e)
  panics : {x : Fault} → Ensures P (panic x)

pub Ensures-bind {ℓ κ μ ν} :
    {A : Type ℓ} {B : Type κ} {P : A → Type μ} {Q : B → Type ν} {m : Outcome A} {f : A → Outcome B}
    → Ensures P m
    → ((a : A) → P a → Ensures Q (f a))
    → Ensures Q (m >>= f)
Ensures-bind (returns h) k = k _ h
Ensures-bind fails k = fails
Ensures-bind panics k = panics

pub Ensures-map {ℓ κ μ} :
    {A : Type ℓ} {P : A → Type κ} {Q : A → Type μ} {m : Outcome A}
    → ((a : A) → P a → Q a)
    → Ensures P m
    → Ensures Q m
Ensures-map k (returns h) = returns (k _ h)
Ensures-map k fails = fails
Ensures-map k panics = panics

pub Ensures-unwrap {ℓ κ} :
    {A : Type ℓ} {P : A → Type κ} {m : Outcome A} → Ensures P m → Ensures P (unwrap m)
Ensures-unwrap (returns h) = returns h
Ensures-unwrap fails = panics
Ensures-unwrap panics = panics

pub Ensures-if {ℓ κ} :
    {A : Type ℓ} {P : A → Type κ} (b : Bool) {m n : Outcome A}
    → Ensures P m
    → Ensures P n
    → Ensures P (if b then m else n)
Ensures-if true h k = h
Ensures-if false h k = k

-- The value is whatever it is.
pub Ensures-any {ℓ} : {A : Type ℓ} (m : Outcome A) → Ensures (λ _. Unit {0}) m
Ensures-any (ok a) = returns tt
Ensures-any (err e) = fails
Ensures-any (panic x) = panics

returned {ℓ κ} : {A : Type ℓ} {P : A → Type κ} {a : A} → Ensures P (ok a) → P a
returned (returns h) = h

pub Ensures-ok {ℓ κ} :
    {A : Type ℓ} {P : A → Type κ} {m : Outcome A} {a : A} → Ensures P m → m ≡ ok a → P a
Ensures-ok h e = returned (rw e at h)

-- A sum that does not panic is the sum modulo the width.
pub add_checked-mod :
    (build : Build) (bits a b : ℕ)
    → Ensures (λ c. c ≡ (a + b) % 2 ^ bits) (add_checked build bits a b)
unfolding add_checked
add_checked-mod build bits a b = Ensures-if _ panics (returns refl)

-- A computation that comes to a value.
abbrev pub Returns {ℓ} : {A : Type ℓ} → Outcome A → Type ℓ
Returns {A = A} m = (a : A) × (m ≡ ok a)

pub Returns-bind {ℓ κ} :
    {A : Type ℓ} {B : Type κ} (m : Outcome A) (f : A → Outcome B)
    → Returns m
    → ((a : A) → m ≡ ok a → Returns (f a))
    → Returns (m >>= f)
Returns-bind m f (a, e) k = let (b, e') = k a e in (b, rw e e')

-- What holds of every value that a computation comes to.
pub Ensures-all {ℓ κ} :
    {A : Type ℓ} {P : A → Type κ} (m : Outcome A) → ((a : A) → m ≡ ok a → P a) → Ensures P m
Ensures-all (ok a) h = returns (h a refl)
Ensures-all (err e) h = fails
Ensures-all (panic x) h = panics
