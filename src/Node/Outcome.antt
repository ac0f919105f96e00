-- ===== src/Node/Outcome.antt =====
-- What a function of the node comes to: a value, or a panic.
use mozak_vm.Prelude.{Bool, Option, some, none, ◌≡◌, refl, ap, true, false, if◌then◌else◌}

pub data Outcome {ℓ} (A : Type ℓ) : Type ℓ where
  ok : A → Outcome A
  panic : Outcome A

infixl 5 ◌>>=◌ ◌>>◌
abbrev pub ◌>>=◌ {ℓ κ} : {A : Type ℓ} {B : Type κ} → Outcome A → (A → Outcome B) → Outcome B
ok a >>= f = f a
panic >>= f = panic

abbrev pub ◌>>◌ {ℓ} : {B : Type ℓ} → Outcome (Unit {0}) → Outcome B → Outcome B
m >> k = m >>= λ _. k

abbrev pub assert : Bool → Outcome (Unit {0})
assert b = if b then ok tt else panic

-- an index, an `unwrap` or an `expect`
abbrev pub expect {ℓ} : {A : Type ℓ} → Option A → Outcome A
expect (some a) = ok a
expect none = panic

-- `P` holds of the value, if there is one.
pub data Ensures {ℓ κ} {A : Type ℓ} (P : A → Type κ) : Outcome A → Type (ℓ ⊔ κ) where
  returns : {a : A} → P a → Ensures P (ok a)
  panics : Ensures P panic

pub Ensures-bind {ℓ κ μ ν} :
    {A : Type ℓ} {B : Type κ} {P : A → Type μ} {Q : B → Type ν} {m : Outcome A} {f : A → Outcome B}
    → Ensures P m
    → ((a : A) → P a → Ensures Q (f a))
    → Ensures Q (m >>= f)
Ensures-bind (returns h) k = k _ h
Ensures-bind panics k = panics

pub Ensures-map {ℓ κ μ} :
    {A : Type ℓ} {P : A → Type κ} {Q : A → Type μ} {m : Outcome A}
    → ((a : A) → P a → Q a)
    → Ensures P m
    → Ensures Q m
Ensures-map k (returns h) = returns (k _ h)
Ensures-map k panics = panics

pub Ensures-if {ℓ κ} :
    {A : Type ℓ} {P : A → Type κ} (b : Bool) {m n : Outcome A}
    → Ensures P m
    → Ensures P n
    → Ensures P (if b then m else n)
Ensures-if true h k = h
Ensures-if false h k = k

-- What holds of every value that a computation comes to.
pub Ensures-all {ℓ κ} :
    {A : Type ℓ} {P : A → Type κ} (m : Outcome A) → ((a : A) → m ≡ ok a → P a) → Ensures P m
Ensures-all (ok a) h = returns (h a refl)
Ensures-all panic h = panics

returned {ℓ κ} : {A : Type ℓ} {P : A → Type κ} {a : A} → Ensures P (ok a) → P a
returned (returns h) = h

pub Ensures-ok {ℓ κ} :
    {A : Type ℓ} {P : A → Type κ} {m : Outcome A} {a : A} → Ensures P m → m ≡ ok a → P a
Ensures-ok h e = returned (rw e at h)

-- The value that `expect` gives is the one that was there.
pub Ensures-found {ℓ} : {A : Type ℓ} (o : Option A) → Ensures (λ a. o ≡ some a) (expect o)
Ensures-found (some a) = returns refl
Ensures-found none = panics

pub Ensures-any {ℓ} : {A : Type ℓ} (m : Outcome A) → Ensures (λ _. Unit {0}) m
Ensures-any (ok a) = returns tt
Ensures-any panic = panics

value_or {ℓ} : {A : Type ℓ} → A → Outcome A → A
value_or d (ok a) = a
value_or d panic = d

pub ok_injective {ℓ} : {A : Type ℓ} {x y : A} → ok x ≡ ok y → x ≡ y
unfolding value_or
ok_injective {x = x} e = ap (value_or x) e

-- The computation comes to a value, and `P` holds of it.
pub data Gives {ℓ κ} {A : Type ℓ} (P : A → Type κ) : Outcome A → Type (ℓ ⊔ κ) where
  gives : {a : A} → P a → Gives P (ok a)

pub Gives-bind {ℓ κ μ ν} :
    {A : Type ℓ} {B : Type κ} {P : A → Type μ} {Q : B → Type ν} {m : Outcome A} {f : A → Outcome B}
    → Gives P m
    → ((a : A) → P a → Gives Q (f a))
    → Gives Q (m >>= f)
Gives-bind (gives h) k = k _ h

pub Gives-map {ℓ κ μ} :
    {A : Type ℓ} {P : A → Type κ} {Q : A → Type μ} {m : Outcome A}
    → ((a : A) → P a → Q a)
    → Gives P m
    → Gives Q m
Gives-map k (gives h) = gives (k _ h)

-- A computation that comes to a value has what holds of every value.
pub Gives-Ensures {ℓ κ μ} :
    {A : Type ℓ} {P : A → Type κ} {Q : A → Type μ} {m : Outcome A}
    → Gives P m
    → Ensures Q m
    → Gives (λ a. P a × Q a) m
Gives-Ensures (gives p) (returns q) = gives (p, q)

pub Gives-found {ℓ κ} :
    {A : Type ℓ} {P : A → Type κ} {a : A} (o : Option A) → o ≡ some a → P a → Gives P (expect o)
Gives-found o e p = rw e (gives p)

given {ℓ κ} : {A : Type ℓ} {P : A → Type κ} {a : A} → Gives P (ok a) → P a
given (gives p) = p

pub Gives-ok {ℓ κ} :
    {A : Type ℓ} {P : A → Type κ} {m : Outcome A} {a : A} → Gives P m → m ≡ ok a → P a
Gives-ok h e = given (rw e at h)
