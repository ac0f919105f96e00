-- ===== src/Node/Matches/Logs.antt =====
-- node/src/block_proposer/matches.rs: the proofs stand for the events of each address, in order.
use mozak_vm.Prelude.{
  ℕ, true, false, Option, none, some, List, [], ◌∷◌, ◌++◌, ◌⊎◌, inl, inr, if◌then◌else◌, ◌==◌, ◌≡◌,
  refl, ◌∙◌, sym, ap, arith, append-nil, subst, append_assoc, Bool-cases,
}
use mozak_vm.Runner.HashMap.{
  HashMap, get, insert, get-insert, IsUnique, contains, keys, contains-keys,
}
use mozak_vm.Node.Address.{Address}
use mozak_vm.Node.Outcome.{Gives, gives, Gives-bind, Gives-map}
use mozak_vm.Node.Matches.{Accumulation, AccumulateProof, enter, enter_at, ingest, make_ready}

-- Which events at one address may stand together, and that the circuits prove such an event and join
-- two proofs of such events. A circuit refuses the others: that of accumulate_delta/core.rs has no
-- two writes and no two transfers of the owner to one side, and no fields that differ. `Of addr xs p`
-- says that `p` is a proof of the events, in order.
pub record Accumulates (c : Accumulation) : Type 1 where
  pub Together : Address → List c.Event → Type 0
  pub left : (addr : Address) (xs ys : List c.Event) → Together addr (xs ++ ys) → Together addr xs
  pub right : (addr : Address) (xs ys : List c.Event) → Together addr (xs ++ ys) → Together addr ys
  pub Of : Address → List c.Event → AccumulateProof c → Type 0
  pub single :
      (e : c.Event)
      → Together (c.address e) (e ∷ [])
      → Gives (λ p. Of (c.address e) (e ∷ []) (inl p)) (c.prove_leaf e)
  pub joined :
      (addr : Address) (xs ys : List c.Event) (p q : AccumulateProof c)
      → Together addr (xs ++ ys)
      → Of addr xs p
      → Of addr ys q
      → Gives (λ r. Of addr (xs ++ ys) (inr r)) (c.prove_branch p q)

module _ {V : Type 0} where
  not_there : (m : HashMap V) (k : ℕ) → contains (keys m) k ≡ false → get m k ≡ none
  not_there m k e = go (get m k) (sym (contains-keys m k) ∙ e)
    where
      go : (o : Option V) → elim o [ none ↦ false | some _ ↦ true ] ≡ false → o ≡ none
      go none e = refl
      go (some v) e = cc

module _ {c : Accumulation} (laws : Accumulates c) where
  abbrev Log : Type 0
  Log = ℕ → List c.Event

  unfoldable pub At : Address → List c.Event → Option (AccumulateProof c) → Type 0
  At addr xs none = xs ≡ []
  At addr xs (some p) = laws.Of addr xs p

  -- The map has a proof of the events at each address that has some.
  pub record Records (events : HashMap (AccumulateProof c)) (log : Log) : Type 0 where
    pub at : (addr : Address) → At addr (log addr) (get events addr)

  -- the events at an address, in order
  unfoldable pub events_at : Address → List c.Event → List c.Event
  events_at addr [] = []
  events_at addr (e ∷ rest) =
      let others = events_at addr rest in if c.address e == addr then e ∷ others else others

  abbrev added : Address → List c.Event → Log → Log
  added addr ys log b = log b ++ (if addr == b then ys else [])

  insert-Records :
      {events : HashMap (AccumulateProof c)} {log : Log} (addr : Address) (ys : List c.Event)
      (p : AccumulateProof c)
      → Records events log
      → laws.Of addr (log addr ++ ys) p
      → Records (insert addr p events) (added addr ys log)
  unfolding At
  insert-Records {events = events} {log = log} addr ys p r h = record {
    at = λ b. rw (get-insert addr p events b) (choice b (Bool-cases (addr == b)));
  }
    where
      choice :
          (b : Address)
          → ((addr == b) ≡ true) ⊎ ((addr == b) ≡ false)
          → At b (added addr ys log b) (if addr == b then some p else get events b)
      choice b (inl e) = let same : addr ≡ b = ground arith in rw e (rw same at h)
      choice b (inr e) = rw e (rw (append-nil (log b)) (r.at b))

  pub enter-Records :
      {events : HashMap (AccumulateProof c)} {log : Log} (addr : Address) (ys : List c.Event)
      (p : AccumulateProof c)
      → Records events log
      → laws.Together addr (log addr ++ ys)
      → laws.Of addr ys p
      → Gives (λ events'. Records events' (added addr ys log)) (enter c addr p events)
  unfolding enter At
  enter-Records {events = events} {log = log} addr ys p r together h =
      go (get events addr) (r.at addr)
    where
      go :
          (o : Option (AccumulateProof c))
          → At addr (log addr) o
          → Gives (λ events'. Records events' (added addr ys log)) (enter_at c addr p events o)
      go none none_yet = gives (insert-Records addr ys p r (rw none_yet h))
      go (some q) old =
          Gives-bind (laws.joined addr (log addr) ys q p together old h)
            λ joined h'. gives (insert-Records addr ys (inr joined) r h')

  -- the same log, by another function
  same-Records :
      {events : HashMap (AccumulateProof c)} {log log' : Log}
      → ((b : Address) → log b ≡ log' b)
      → Records events log
      → Records events log'
  same-Records {events = events} same r = record { at = λ b. rw (sym (same b)) (r.at b) }

  pub ingest-Records :
      (new : List c.Event) {events : HashMap (AccumulateProof c)} {log : Log}
      → Records events log
      → ((b : Address) → laws.Together b (log b ++ events_at b new))
      → Gives (λ events'. Records events' (λ b. log b ++ events_at b new)) (ingest c new events)
  unfolding ingest events_at
  ingest-Records [] {log = log} r together = gives (same-Records (λ b. sym (append-nil (log b))) r)
  ingest-Records (e ∷ rest) {log = log} r together = Gives-bind (laws.single e alone) λ p h.
      Gives-bind (enter-Records (c.address e) (e ∷ []) (inl p) r so_far h) λ events' r'.
        Gives-map (λ events'' r''. same-Records same r'')
          (ingest-Records rest r' λ b. subst (laws.Together b) (sym (same b)) (together b))
    where
      step :
          (b : Address)
          → ((c.address e == b) ≡ true) ⊎ ((c.address e == b) ≡ false)
          → (log b ++ (if c.address e == b then e ∷ [] else [])) ++ events_at b rest
            ≡ log b ++ (if c.address e == b then e ∷ events_at b rest else events_at b rest)
      step b (inl k) = rw k (append_assoc (log b) (e ∷ []) (events_at b rest))
      step b (inr k) = rw k (append_assoc (log b) [] (events_at b rest))

      same :
          (b : Address)
          → (log b ++ (if c.address e == b then e ∷ [] else [])) ++ events_at b rest
            ≡ log b ++ (if c.address e == b then e ∷ events_at b rest else events_at b rest)
      same b = step b (Bool-cases (c.address e == b))

      here : laws.Together (c.address e) (log (c.address e) ++ (e ∷ events_at (c.address e) rest))
      here =
          let k : (c.address e == c.address e) ≡ true = ground arith in
          rw k at (together (c.address e))

      so_far : laws.Together (c.address e) (log (c.address e) ++ (e ∷ []))
      so_far = laws.left (c.address e) _ (events_at (c.address e) rest) (
          subst (laws.Together (c.address e))
            (sym (append_assoc (log (c.address e)) (e ∷ []) (events_at (c.address e) rest))) here)

      alone : laws.Together (c.address e) (e ∷ [])
      alone = laws.right (c.address e) (log (c.address e)) (e ∷ []) so_far

  -- what is recorded beside the first entry
  without : Address → Log → Log
  without addr log b = if addr == b then [] else log b

  rest-Records :
      (addr : Address) (p : AccumulateProof c) (rest : HashMap (AccumulateProof c)) {log : Log}
      → contains (keys rest) addr ≡ false
      → Records ((addr, p) ∷ rest) log
      → Records rest (without addr log)
  unfolding At without get
  rest-Records addr p rest {log = log} fresh r = record {
    at = λ b. choice b (Bool-cases (addr == b));
  }
    where
      choice :
          (b : Address)
          → ((addr == b) ≡ true) ⊎ ((addr == b) ≡ false)
          → At b (without addr log b) (get rest b)
      choice b (inl e) =
          let same : addr ≡ b = ground arith in
          let none_there = not_there rest b (rw same at fresh) in rw e (rw none_there refl)
      choice b (inr e) = rw e (rw e at (r.at b))

  first-Records :
      (addr : Address) (p : AccumulateProof c) (rest : HashMap (AccumulateProof c)) {log : Log}
      → Records ((addr, p) ∷ rest) log
      → laws.Of addr (log addr) p
  unfolding At get
  first-Records addr p rest r =
      let same : (addr == addr) ≡ true = ground arith in rw same at (r.at addr)

  empty-At : {xs : List c.Event} (b : Address) → At b xs (get [] b) → xs ≡ []
  unfolding At get
  empty-At b e = e

  pub make_ready-Records :
      (entries : HashMap (AccumulateProof c)) {ready : HashMap (AccumulateProof c)} {log log' : Log}
      → IsUnique entries
      → Records entries log'
      → Records ready log
      → ((b : Address) → laws.Together b (log b ++ log' b))
      → Gives (λ ready'. Records ready' (λ b. log b ++ log' b)) (make_ready c entries ready)
  unfolding make_ready without
  make_ready-Records [] {log = log} {log' = log'} u new r together =
      gives (same-Records (λ b. nothing b) r)
    where
      nothing : (b : Address) → log b ≡ log b ++ log' b
      nothing b = rw (empty-At b (new.at b)) (sym (append-nil (log b)))
  make_ready-Records ((addr, p) ∷ rest) {log = log} {log' = log'} (fresh, u) new r together =
      Gives-bind
        (enter-Records addr (log' addr) p r (together addr) (first-Records addr p rest new))
        λ ready' r'.
          Gives-map (λ ready'' r''. same-Records same r'')
            (make_ready-Records rest u (rest-Records addr p rest fresh new) r'
              λ b. subst (laws.Together b) (sym (same b)) (together b))
    where
      step :
          (b : Address)
          → ((addr == b) ≡ true) ⊎ ((addr == b) ≡ false)
          → (log b ++ (if addr == b then log' addr else [])) ++ without addr log' b
            ≡ log b ++ log' b
      step b (inl k) =
          let same : addr ≡ b = ground arith in
          rw k (append-nil (log b ++ log' addr) ∙ ap (λ (b' : ℕ). log b ++ log' b') same)
      step b (inr k) = rw k (append_assoc (log b) [] (log' b))

      same :
          (b : Address)
          → (log b ++ (if addr == b then log' addr else [])) ++ without addr log' b
            ≡ log b ++ log' b
      same b = step b (Bool-cases (addr == b))
