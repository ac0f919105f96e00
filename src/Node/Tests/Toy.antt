-- ===== src/Node/Tests/Toy.antt =====
-- Circuits whose proofs are their public inputs: objects and hashes are numbers.
use mozak_vm.Prelude.{ℕ, ◌+◌, ◌*◌, ◌/◌, true, Option, none, some, ◌==◌, ◌≡◌, refl, arith}
use mozak_vm.Node.Outcome.{ok, gives, returns}
use mozak_vm.Node.Circuits.{Circuits, Sound}
use mozak_vm.Node.State.Complete.{Complete, Parent, neither, only_left, only_right, both}

pub record Inputs : Type 0 where
  pub before : ℕ
  pub after : ℕ
  pub address : Option ℕ

abbrev parent : Option ℕ → Option ℕ → Option ℕ
parent (some a) o = some (a / 2)
parent none (some a) = some (a / 2)
parent none none = none

abbrev mix : ℕ → ℕ → ℕ
mix a b = 3 * a + 5 * b + 1

abbrev pub toy : Circuits
toy = record {
  Object = ℕ;
  Hash = ℕ;
  Proof = Inputs;
  BranchCircuit = Unit {0};
  default_object = 0;
  hash = λ x. x + 1;
  same_object = λ x y. x == y;
  prove_leaf = λ old new addr. ok (record { before = old; after = new; address = addr });
  from_leaf = tt;
  from_branch = λ u. u;
  prove_branch = λ u l r. ok (record {
    before = mix l.before r.before;
    after = mix l.after r.after;
    address = parent l.address r.address;
  });
  old = λ p. p.before;
  fresh = λ p. p.after;
}

pub equal_numbers : (x y : ℕ) → (x == y) ≡ true → x ≡ y
equal_numbers x y e = ground arith

abbrev pub toy_sound : Sound toy
toy_sound = record {
  hash_branch = mix;
  leaf_inputs = λ old new addr. returns (refl, refl);
  branch_inputs = λ u l r. returns (refl, refl);
  same_sound = equal_numbers;
}

halves : (q : ℕ) → 2 * q / 2 ≡ q
halves q = omega arith

halves_odd : (q : ℕ) → (2 * q + 1) / 2 ≡ q
halves_odd q = omega arith

pub joined : (q : ℕ) (x y z x' y' : Option ℕ) → Parent q x y z → x' ≡ x → y' ≡ y → parent x' y' ≡ z
joined q x y z x' y' neither e e' = rw e (rw e' refl)
joined q x y z x' y' only_left e e' = rw e (rw (halves q) refl)
joined q x y z x' y' only_right e e' = rw e (rw e' (rw (halves_odd q) refl))
joined q x y z x' y' both e e' = rw e (rw (halves q) refl)

abbrev pub toy_complete : Complete toy
toy_complete = record {
  Valid = λ bits addr p. p.address ≡ addr;
  changed = λ before after addr h. gives refl;
  same = λ hash. gives refl;
  joined = λ bits q l r x y z agree v w. gives (joined q x y z l.address r.address agree v w);
}
