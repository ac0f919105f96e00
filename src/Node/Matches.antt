-- ===== src/Node/Matches.antt =====
-- node/src/block_proposer/matches.rs: the events of ongoing transactions and of those that are ready,
-- accumulated for each address. A map is an association list; the order in which a HashMap gives its
-- entries is that of the list, and nothing below depends on it.
pub mod Logs
pub mod Ready
use mozak_vm.Prelude.{ℕ, Bool, Option, none, some, List, [], ◌∷◌, ◌⊎◌, inl, inr, if◌then◌else◌}
use mozak_vm.Runner.HashMap.{HashMap, get, insert}
use mozak_vm.Node.Address.{Address}
use mozak_vm.Node.Outcome.{Outcome, ok, panic, ◌>>=◌}

-- What is used of accumulate_delta.rs: a proof for an event, and a proof of two sets of events. `Key`
-- is `OngoingTxKey`, and `same_key` its equality. `prove` stands for the method and the `unwrap` of it.
pub record Accumulation : Type 1 where
  pub Key : Type 0
  pub Event : Type 0
  pub LeafProof : Type 0
  pub BranchProof : Type 0
  pub same_key : Key → Key → Bool
  pub address : Event → Address
  pub prove_leaf : Event → Outcome LeafProof
  pub prove_branch : LeafProof ⊎ BranchProof → LeafProof ⊎ BranchProof → Outcome BranchProof

module _ (c : Accumulation) where
  abbrev pub AccumulateProof : Type 0
  AccumulateProof = c.LeafProof ⊎ c.BranchProof

  pub record OngoingAccum : Type 0 where
    pub events : HashMap AccumulateProof

  pub record Matches : Type 0 where
    pub ongoing_accum : List (c.Key × OngoingAccum)
    pub ready_accum : HashMap AccumulateProof

module _ (c : Accumulation) where
  -- the `match` on an entry of a map, vacant or occupied
  abbrev pub enter_at :
      Address
      → AccumulateProof c
      → HashMap (AccumulateProof c)
      → Option (AccumulateProof c)
      → Outcome (HashMap (AccumulateProof c))
  enter_at addr proof events none = ok (insert addr proof events)
  enter_at addr proof events (some old) =
      c.prove_branch old proof >>= λ joined. ok (insert addr (inr joined) events)

  unfoldable pub enter :
      Address
      → AccumulateProof c
      → HashMap (AccumulateProof c)
      → Outcome (HashMap (AccumulateProof c))
  enter addr proof events = enter_at addr proof events (get events addr)

  -- the loop of `ingest_events`, on converted events
  unfoldable pub ingest :
      List c.Event → HashMap (AccumulateProof c) → Outcome (HashMap (AccumulateProof c))
  unfolding enter
  ingest [] events = ok events
  ingest (event ∷ rest) events = do
    proof ← c.prove_leaf event
    events ← enter (c.address event) (inl proof) events
    ingest rest events

  -- the loop of `ready_tx`
  unfoldable pub make_ready :
      HashMap (AccumulateProof c)
      → HashMap (AccumulateProof c)
      → Outcome (HashMap (AccumulateProof c))
  unfolding enter
  make_ready [] ready = ok ready
  make_ready ((addr, proof) ∷ rest) ready =
      enter addr proof ready >>= λ ready. make_ready rest ready

module _ {c : Accumulation} where
  unfoldable pub find : List (c.Key × OngoingAccum c) → c.Key → Option (OngoingAccum c)
  find [] key = none
  find ((k, accum) ∷ rest) key = if c.same_key k key then some accum else find rest key

  unfoldable pub replace :
      List (c.Key × OngoingAccum c) → c.Key → OngoingAccum c → List (c.Key × OngoingAccum c)
  replace [] key accum = (key, accum) ∷ []
  replace ((k, old) ∷ rest) key accum =
      if c.same_key k key then (k, accum) ∷ rest else (k, old) ∷ replace rest key accum

  unfoldable pub remove : List (c.Key × OngoingAccum c) → c.Key → List (c.Key × OngoingAccum c)
  remove [] key = []
  remove ((k, accum) ∷ rest) key = if c.same_key k key then rest else (k, accum) ∷ remove rest key

  -- `entry(key).or_default()`
  abbrev pub or_default : Option (OngoingAccum c) → OngoingAccum c
  or_default none = record { events = [] }
  or_default (some accum) = accum

  unfoldable pub ingest_events : Matches c → c.Key → List c.Event → Outcome (Matches c)
  unfolding ingest find replace
  ingest_events self key events = do
    let accum = or_default (find self.ongoing_accum key)
    events ← ingest c events accum.events
    ok record {
      ongoing_accum = replace self.ongoing_accum key (record { events = events });
      ready_accum = self.ready_accum;
    }

  -- `none` is the error that the transaction was not found.
  unfoldable pub ready_found :
      Matches c → c.Key → Option (OngoingAccum c) → Outcome (Option (Matches c))
  unfolding make_ready remove
  ready_found self key none = ok none
  ready_found self key (some accum) = do
    ready ← make_ready c accum.events self.ready_accum
    ok (some (record { ongoing_accum = remove self.ongoing_accum key; ready_accum = ready }))

  unfoldable pub ready_tx : Matches c → c.Key → Outcome (Option (Matches c))
  unfolding ready_found find
  ready_tx self key = ready_found self key (find self.ongoing_accum key)
