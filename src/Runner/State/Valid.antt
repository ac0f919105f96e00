-- ===== src/Runner/State/Valid.antt =====
-- The well-formed states: 32 registers of 32 bits with R0 at zero, bytes in the memory and on the
-- tapes, and read positions on their tapes. And what an instruction may do to a state.
use mozak_vm.Prelude.{ℕ, ◌≤◌, ◌≡◌, refl, true, some, List, [], ◌∷◌, length, get_elem?, ◌∙◌}
use native.Mathlib.Nat.{le_refl, le_trans}
use mozak_vm.Word.{IsU32, IsU8}
use mozak_vm.Runner.HashMap.{get, contains}
use mozak_vm.Runner.State.{State, StateMemory, StorageDeviceTape}

abbrev pub IsBytes : List ℕ → Type 0
IsBytes [] = Unit
IsBytes (b ∷ bs) = IsU8 b × IsBytes bs

pub record IsRegisterFile (xs : List ℕ) : Type 0 where
  pub count : length xs ≡ 32
  pub r0 : get_elem? xs 0 ≡ some 0
  pub words : (i v : ℕ) → get_elem? xs i ≡ some v → IsU32 v

pub record IsMemory (m : StateMemory) : Type 0 where
  pub bytes : (a v : ℕ) → get m.content a ≡ some v → IsU8 v

pub record IsTape (t : StorageDeviceTape) : Type 0 where
  pub bytes : IsBytes t.content
  pub on_tape : t.read_index ≤ length t.content

abbrev pub AreTapes : State → Type 0
AreTapes s =
    IsTape s.private_tape
    × IsTape s.public_tape
    × IsTape s.call_tape
    × IsTape s.event_tape
    × IsBytes s.events_commitment_tape
    × IsBytes s.cast_list_commitment_tape
    × IsBytes s.self_prog_id_tape

pub record IsValid (s : State) : Type 0 where
  pub registers : IsRegisterFile s.registers
  pub pc : IsU32 s.pc
  pub memory : IsMemory s.memory
  pub tapes : AreTapes s

-- The set of read-only addresses stays, and so do the bytes there.
pub record KeepsRom (m m' : StateMemory) : Type 0 where
  pub read_only : m'.is_read_only ≡ m.is_read_only
  pub bytes : (a : ℕ) → contains m.is_read_only a ≡ true → get m'.content a ≡ get m.content a

-- A tape keeps its bytes and is read forwards.
pub record Advances (t t' : StorageDeviceTape) : Type 0 where
  pub same : t'.content ≡ t.content
  pub forwards : t.read_index ≤ t'.read_index

abbrev pub TapesAdvance : State → State → Type 0
TapesAdvance s s' =
    Advances s.private_tape s'.private_tape
    × Advances s.public_tape s'.public_tape
    × Advances s.call_tape s'.call_tape
    × Advances s.event_tape s'.event_tape
    × (s'.events_commitment_tape ≡ s.events_commitment_tape)
    × (s'.cast_list_commitment_tape ≡ s.cast_list_commitment_tape)
    × (s'.self_prog_id_tape ≡ s.self_prog_id_tape)

-- A move of the machine: the new state is well-formed; the read-only memory, the contents of the
-- tapes and the three fixed tapes stay.
pub record Evolves (s s' : State) : Type 0 where
  pub valid : IsValid s'
  pub rom : KeepsRom s.memory s'.memory
  pub tapes : TapesAdvance s s'

-- The same within an instruction, before the clock ticks.
pub record Acts (s s' : State) : Type 0 where
  pub evolves : Evolves s s'
  pub open evolves use *
  pub clk : s'.clk ≡ s.clk

pub KeepsRom-refl : (m : StateMemory) → KeepsRom m m
KeepsRom-refl m = record { read_only = refl; bytes = λ a h. refl }

KeepsRom-trans : {m n o : StateMemory} → KeepsRom m n → KeepsRom n o → KeepsRom m o
KeepsRom-trans h k = record {
  read_only = k.read_only ∙ h.read_only;
  bytes = λ a e. k.bytes a (rw h.read_only e) ∙ h.bytes a e;
}

pub Advances-refl : (t : StorageDeviceTape) → Advances t t
Advances-refl t = record { same = refl; forwards = le_refl _ }

Advances-trans : {t u v : StorageDeviceTape} → Advances t u → Advances u v → Advances t v
Advances-trans h k = record { same = k.same ∙ h.same; forwards = le_trans h.forwards k.forwards }

pub TapesAdvance-refl : (s : State) → TapesAdvance s s
TapesAdvance-refl s =
    (Advances-refl _, Advances-refl _, Advances-refl _, Advances-refl _, refl, refl, refl)

TapesAdvance-trans : (s t u : State) → TapesAdvance s t → TapesAdvance t u → TapesAdvance s u
TapesAdvance-trans s t u (a, b, c, d, e, f, g) (a', b', c', d', e', f', g') = (
  Advances-trans a a',
  Advances-trans b b',
  Advances-trans c c',
  Advances-trans d d',
  e' ∙ e,
  f' ∙ f,
  g' ∙ g,
)

pub Evolves-refl : {s : State} → IsValid s → Evolves s s
Evolves-refl {s} v = record { valid = v; rom = KeepsRom-refl s.memory; tapes = TapesAdvance-refl s }

pub Evolves-trans : {s t u : State} → Evolves s t → Evolves t u → Evolves s u
Evolves-trans {s} {t} {u} h k = record {
  valid = k.valid;
  rom = KeepsRom-trans h.rom k.rom;
  tapes = TapesAdvance-trans s t u h.tapes k.tapes;
}

pub Acts-refl : {s : State} → IsValid s → Acts s s
Acts-refl v = record { evolves = Evolves-refl v; clk = refl }

pub Acts-trans : {s t u : State} → Acts s t → Acts t u → Acts s u
Acts-trans h k = record { evolves = Evolves-trans h.evolves k.evolves; clk = k.clk ∙ h.clk }
