-- ===== src/Node/Tests/Matches.antt =====
-- A transaction with three events at two addresses, one of which is ready already.
use mozak_vm.Prelude.{
  ℕ, Bool, true, false, none, some, List, [], ◌∷◌, ◌++◌, ◌⊎◌, inl, inr, if◌then◌else◌, ltb, ◌≤◌,
  ◌+◌, ◌&&◌, ◌==◌, ◌≡◌, refl, arith,
}
use mozak_vm.Runner.HashMap.{get}
use mozak_vm.Node.Outcome.{ok, panic, ◌>>=◌, Gives, gives}
use mozak_vm.Node.Matches.{Accumulation, Matches, find, ingest_events, ready_tx}
use mozak_vm.Node.Matches.Logs.{Accumulates, At, Records, events_at}
use mozak_vm.Node.Matches.Ready.{Moved, ingest_events-ready_tx}

abbrev Events : Type 0
Events = List (ℕ × ℕ)

abbrev contents : Events ⊎ Events → Events
contents (inl xs) = xs
contents (inr xs) = xs

-- An event of value 0 is a read, any other a write.
unfoldable writes : Events → ℕ
writes [] = 0
writes ((addr, value) ∷ rest) = (if value == 0 then 0 else 1) + writes rest

writes-append : (xs ys : Events) → writes (xs ++ ys) ≡ writes xs + writes ys
unfolding writes
writes-append [] ys = omega arith
writes-append ((addr, value) ∷ rest) ys = omega (arith, writes-append rest ys)

-- Proofs are the lists of what they prove, and two writes are not joined.
abbrev lists : Accumulation
lists = record {
  Key = ℕ;
  Event = ℕ × ℕ;
  LeafProof = Events;
  BranchProof = Events;
  same_key = λ a b. a == b;
  address = λ e. e.0;
  prove_leaf = λ e. ok (e ∷ []);
  prove_branch = λ p q.
      if ltb 1 (writes (contents p) + writes (contents q))
      then panic
      else ok (contents p ++ contents q);
}

both_lists :
    (p q : Events ⊎ Events) {xs ys : Events}
    → writes (xs ++ ys) ≤ 1
    → contents p ≡ xs
    → contents q ≡ ys
    → Gives (λ (r : Events). r ≡ xs ++ ys) (lists.prove_branch p q)
both_lists p q {xs = xs} {ys = ys} few e e' =
    let fits : ltb 1 (writes xs + writes ys) ≡ false = ground (arith, writes-append xs ys) in
    rw e (rw e' (rw fits (gives refl)))

abbrev list_laws : Accumulates lists
list_laws = record {
  Together = λ addr xs. writes xs ≤ 1;
  left = λ addr xs ys few. omega (arith, writes-append xs ys);
  right = λ addr xs ys few. omega (arith, writes-append xs ys);
  Of = λ addr xs p. contents p ≡ xs;
  single = λ e few. gives refl;
  joined = λ addr xs ys p q few e e'. both_lists p q few e e';
}

same_numbers : (k : ℕ) → (k == k) ≡ true
same_numbers k = ground arith

abbrev one_ready : Matches lists
one_ready = record { ongoing_accum = []; ready_accum = (4, inl ((4, 10) ∷ [])) ∷ [] }

one_log : ℕ → Events
one_log b = if 4 == b then (4, 10) ∷ [] else []

one_ready-Records : Records list_laws one_ready.ready_accum one_log
unfolding At get one_log
one_ready-Records = record { at = λ b. choice (4 == b) b }
  where
    choice :
        (t : Bool) (b : ℕ)
        → At list_laws b
            (if t then (4, 10) ∷ [] else [])
            (if t then some (inl ((4, 10) ∷ [])) else none)
    choice true b = refl
    choice false b = refl

-- a read, a write at another address, and one more read
abbrev three_events : Events
three_events = (4, 0) ∷ (6, 12) ∷ (4, 0) ∷ []

three_events-Together : (b : ℕ) → writes (one_log b ++ events_at list_laws b three_events) ≤ 1
unfolding writes events_at one_log
three_events-Together b = choice (4 == b) (6 == b) (ground arith)
  where
    choice :
        (s t : Bool)
        → (s && t) ≡ false
        → writes (
            (if s then (4, 10) ∷ [] else [])
            ++ (if s
                then (4, 0)
                  ∷ (if t
                      then (6, 12) ∷ (if s then (4, 0) ∷ [] else [])
                      else if s
                      then (4, 0) ∷ []
                      else [])
                else (if t
                    then (6, 12) ∷ (if s then (4, 0) ∷ [] else [])
                    else if s
                    then (4, 0) ∷ []
                    else [])))
          ≤ 1
    choice true true apart = cc
    choice true false apart = omega arith
    choice false true apart = omega arith
    choice false false apart = omega arith

ingest_events-ready_tx_example :
    Gives
      (Moved same_numbers list_laws one_ready three_events one_log)
      (ingest_events one_ready 7 three_events >>= λ after. ready_tx after 7)
unfolding find
ingest_events-ready_tx_example =
    ingest_events-ready_tx same_numbers list_laws one_ready 7 three_events one_log one_ready-Records
      refl three_events-Together
