-- ===== src/Node/Matches/Ready.antt =====
-- node/src/block_proposer/matches.rs: the events of a transaction, from their ingestion until the
-- transaction is ready.
use mozak_vm.Prelude.{
  ℕ, true, false, ◌||◌, Option, none, some, List, [], ◌∷◌, ◌++◌, inl, inr, ◌==◌, ◌≡◌, refl, ◌∙◌, ap,
  arith, Bool-cases,
}
use mozak_vm.Runner.HashMap.{HashMap, get, insert, IsUnique, contains, keys}
use mozak_vm.Node.Address.{Address}
use mozak_vm.Node.Outcome.{
  Outcome, ok, ◌>>=◌, Gives, gives, Gives-bind, Ensures, returns, Ensures-bind, Ensures-any,
  Gives-Ensures,
}
use mozak_vm.Node.Matches.{
  Accumulation, AccumulateProof, OngoingAccum, Matches, find, replace, remove, enter, enter_at,
  ingest, ingest_events, ready_found, ready_tx,
}
use mozak_vm.Node.Matches.Logs.{
  Accumulates, At, Records, events_at, ingest-Records, make_ready-Records,
}

module _ {V : Type 0} where
  contains-insert :
      (k : ℕ) (v : V) (m : HashMap V) (j : ℕ)
      → contains (keys (insert k v m)) j ≡ (k == j || contains (keys m) j)
  unfolding contains keys insert
  contains-insert k v [] j = refl
  contains-insert k v ((i, w) ∷ m) j = ground (arith, contains-insert k v m j)

  insert-IsUnique : (k : ℕ) (v : V) (m : HashMap V) → IsUnique m → IsUnique (insert k v m)
  unfolding insert contains keys
  insert-IsUnique k v [] u = (refl, tt)
  insert-IsUnique k v ((i, w) ∷ m) (fresh, u) = elim (Bool-cases (i == k)) [
    | inl e ↦ let same : i ≡ k = ground arith in rw e (rw same at fresh, u)
    | inr e ↦
        let other : (k == i) ≡ false = ground arith in
        rw e (contains-insert k v m i ∙ rw other fresh, insert-IsUnique k v m u)
  ]

module _ (c : Accumulation) where
  enter-IsUnique :
      (addr : Address) (p : AccumulateProof c) (events : HashMap (AccumulateProof c))
      (o : Option (AccumulateProof c))
      → IsUnique events
      → Ensures IsUnique (enter_at c addr p events o)
  enter-IsUnique addr p events none u = returns (insert-IsUnique addr p events u)
  enter-IsUnique addr p events (some old) u =
      Ensures-bind (Ensures-any (c.prove_branch old p))
        λ joined _. returns (insert-IsUnique addr (inr joined) events u)

  ingest-IsUnique :
      (new : List c.Event) (events : HashMap (AccumulateProof c))
      → IsUnique events
      → Ensures IsUnique (ingest c new events)
  unfolding ingest enter
  ingest-IsUnique [] events u = returns u
  ingest-IsUnique (e ∷ rest) events u = Ensures-bind (Ensures-any (c.prove_leaf e)) λ p _.
      Ensures-bind (enter-IsUnique (c.address e) (inl p) events (get events (c.address e)) u)
        λ events' u'. ingest-IsUnique rest events' u'

module _ {c : Accumulation} (reflexive : (k : c.Key) → c.same_key k k ≡ true) where
  absent_first :
      (k key : c.Key) (old : OngoingAccum c) (rest : List (c.Key × OngoingAccum c))
      → find ((k, old) ∷ rest) key ≡ none
      → (c.same_key k key ≡ false) × (find rest key ≡ none)
  unfolding find
  absent_first k key old rest e = elim (Bool-cases (c.same_key k key)) [
    | inl e' ↦ let e'' = rw e' at e in cc
    | inr e' ↦ (e', rw e' at e)
  ]

  find-replace :
      (ongoing : List (c.Key × OngoingAccum c)) (key : c.Key) (accum : OngoingAccum c)
      → find ongoing key ≡ none
      → find (replace ongoing key accum) key ≡ some accum
  unfolding find replace
  find-replace [] key accum e = rw (reflexive key) refl
  find-replace ((k, old) ∷ rest) key accum e =
      let (other, e') = absent_first k key old rest e in
      rw other (rw other (find-replace rest key accum e'))

  remove-replace :
      (ongoing : List (c.Key × OngoingAccum c)) (key : c.Key) (accum : OngoingAccum c)
      → find ongoing key ≡ none
      → remove (replace ongoing key accum) key ≡ ongoing
  unfolding remove replace
  remove-replace [] key accum e = rw (reflexive key) refl
  remove-replace ((k, old) ∷ rest) key accum e =
      let (other, e') = absent_first k key old rest e in
      rw other (
        rw other (
          ap (λ (r : List (c.Key × OngoingAccum c)). (k, old) ∷ r)
            (remove-replace rest key accum e')))

  module _ (laws : Accumulates c) where
    -- the events `new` of a transaction moved to the ready ones
    abbrev pub Moved : Matches c → List c.Event → (ℕ → List c.Event) → Option (Matches c) → Type 0
    Moved self new log o =
        (after : Matches c) × (o ≡ some after)
        × Records laws after.ready_accum (λ b. log b ++ events_at laws b new)
        × (after.ongoing_accum ≡ self.ongoing_accum)

    found-Moved :
        (self : Matches c) (key : c.Key) (new : List c.Event) {log : ℕ → List c.Event}
        (events : HashMap (AccumulateProof c))
        → Records laws self.ready_accum log
        → find self.ongoing_accum key ≡ none
        → ((b : ℕ) → laws.Together b (log b ++ events_at laws b new))
        → Records laws events (λ b. events_at laws b new)
        → IsUnique events
        → Gives (Moved self new log) (
            ready_found
              (record {
                ongoing_accum = replace self.ongoing_accum key (record { events = events });
                ready_accum = self.ready_accum;
              })
              key
              (some (record { events = events })))
    unfolding ready_found
    found-Moved self key new events ready absent together ingested unique =
        Gives-bind (make_ready-Records laws events unique ingested ready together) λ ready' r.
          gives
            (_, refl, r, remove-replace self.ongoing_accum key (record { events = events }) absent)

    nothing_yet : Records laws [] (λ b. [])
    unfolding At get
    nothing_yet = record { at = λ b. refl }

    -- Given circuits that prove an event and join proofs of events at one address that may
    -- stand together, keys equal to themselves, ready proofs that stand for a log of events at
    -- each address, and events of a transaction that may stand together with the logged ones at
    -- each address: ingesting the events of the transaction, which is not ongoing, and then
    -- making it ready comes to ready proofs that stand, at each address, for the logged events
    -- followed by the transaction's events at that address in their order; the other ongoing
    -- transactions are as they were.
    pub ingest_events-ready_tx :
        (self : Matches c) (key : c.Key) (new : List c.Event) (log : ℕ → List c.Event)
        → Records laws self.ready_accum log
        → find self.ongoing_accum key ≡ none
        → ((b : ℕ) → laws.Together b (log b ++ events_at laws b new))
        → Gives (Moved self new log) (ingest_events self key new >>= λ after. ready_tx after key)
    unfolding ingest_events ready_tx
    ingest_events-ready_tx self key new log ready absent together = rw absent (
        moved
          (Gives-Ensures (ingest-Records laws new nothing_yet own) (ingest-IsUnique c new [] tt)))
      where
        own : (b : ℕ) → laws.Together b ([] ++ events_at laws b new)
        own b = laws.right b (log b) (events_at laws b new) (together b)

        moved :
            {m : Outcome (HashMap (AccumulateProof c))}
            → Gives (λ events. Records laws events (λ b. events_at laws b new) × IsUnique events) m
            → Gives (Moved self new log) (
                (m >>= λ events. ok (record {
                  ongoing_accum = replace self.ongoing_accum key (record { events = events });
                  ready_accum = self.ready_accum;
                }))
                >>= λ after. ready_found after key (find after.ongoing_accum key))
        moved (gives {a = events} (r, u)) =
            rw (find-replace self.ongoing_accum key (record { events = events }) absent)
              (found-Moved self key new events ready absent together r u)
