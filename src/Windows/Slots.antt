-- ===== src/Windows/Slots.antt =====
-- The slots that GetComPort (main_windows.c) fills: no two of them have the same serial number.
use gcfflashero.Base.{
  ℕ, zero, suc, ◌+◌, ◌^◌, ◌<◌, ◌≡◌, ◌≢◌, refl, sym, subst, ap, ◌∙◌, arith, Bool, true, false,
  Option, none, some, List, [], ◌∷◌, ◌++◌, append_assoc, length, length-append, get_or,
  get_or-append_right, if◌then◌else◌,
}
use gcfflashero.Gcf.{Device}
use gcfflashero.SStream
use gcfflashero.SStream.{match_count}
use gcfflashero.SStream.Find.{Matches, Matches-match_count}
use gcfflashero.Windows.Ports.{has_serial, first_slot, next_slot, at_slot}

abbrev pub All : (Device → Type 0) → List Device → Type 0
All P [] = Unit
All P (dev ∷ devs) = P dev × All P devs

pub All-imp :
    {P Q : Device → Type 0} (devs : List Device)
    → ((dev : Device) → P dev → Q dev)
    → All P devs
    → All Q devs
All-imp [] imp h = tt
All-imp (dev ∷ devs) imp h = (imp dev h.0, All-imp devs imp h.1)

pub at_slot-All :
    {P : Device → Type 0} (i : ℕ) (change : Device → Device) (devs : List Device)
    → ((dev : Device) → P dev → P (change dev))
    → All P devs
    → All P (at_slot i change devs)
unfolding at_slot
at_slot-All i change [] keeps h = tt
at_slot-All zero change (dev ∷ devs) keeps h = (keeps dev h.0, h.1)
at_slot-All (suc i) change (dev ∷ devs) keeps h = (h.0, at_slot-All i change devs keeps h.1)

pub length-at_slot :
    (i : ℕ) (change : Device → Device) (devs : List Device)
    → length (at_slot i change devs) ≡ length devs
unfolding at_slot
length-at_slot i change [] = refl
length-at_slot zero change (dev ∷ devs) = refl
length-at_slot (suc i) change (dev ∷ devs) = ap suc (length-at_slot i change devs)

-- Two slots with the same serial number are free.
abbrev pub Apart : List ℕ → Device → Type 0
Apart serial dev = serial ≡ dev.serial → serial ≡ []

abbrev pub Distinct : List Device → Type 0
Distinct [] = Unit
Distinct (dev ∷ devs) = All (Apart dev.serial) devs × Distinct devs

-- A change that leaves the serial number.
pub at_slot-Distinct :
    (i : ℕ) (change : Device → Device) (devs : List Device)
    → ((dev : Device) → (change dev).serial ≡ dev.serial)
    → Distinct devs
    → Distinct (at_slot i change devs)
unfolding at_slot
at_slot-Distinct i change [] keeps h = tt
at_slot-Distinct zero change (dev ∷ devs) keeps h =
    (subst (λ s. All (Apart s) devs) (sym (keeps dev)) h.0, h.1)
at_slot-Distinct (suc i) change (dev ∷ devs) keeps h = (
  at_slot-All i change devs (λ e apart same. apart (same ∙ keeps e)) h.0,
  at_slot-Distinct i change devs keeps h.1,
)

abbrev pub give_serial : List ℕ → Device → Device
give_serial serial dev = record dev { serial = serial }

-- A serial number that no slot has.
pub give_serial-Distinct :
    (i : ℕ) (serial : List ℕ) (devs : List Device)
    → All (λ dev. dev.serial ≢ serial) devs
    → Distinct devs
    → Distinct (at_slot i (give_serial serial) devs)
unfolding at_slot
give_serial-Distinct i serial [] new h = tt
give_serial-Distinct zero serial (dev ∷ devs) new h =
    (All-imp devs (λ e other same. absurd (other (sym same))) new.1, h.1)
give_serial-Distinct (suc i) serial (dev ∷ devs) new h = (
  at_slot-All i (give_serial serial) devs (λ e apart same. absurd (new.0 same)) h.0,
  give_serial-Distinct i serial devs new.1 h.1,
)

no_slot :
    (b : Bool) (later : Option ℕ)
    → (if b then some zero else next_slot later) ≡ none
    → (b ≡ false) × (later ≡ none)
no_slot false none e = (refl, refl)
no_slot false (some i) e = absurd (subst IsSlot e tt)
  where
    IsSlot : Option ℕ → Type 0
    IsSlot none = ⊥
    IsSlot (some i) = Unit
no_slot true later e = absurd (subst IsSlot e tt)
  where
    IsSlot : Option ℕ → Type 0
    IsSlot none = ⊥
    IsSlot (some i) = Unit

pub first_slot-none :
    (test : Device → Bool) (devs : List Device)
    → first_slot test devs ≡ none
    → All (λ dev. test dev ≡ false) devs
unfolding first_slot
first_slot-none test [] e = tt
first_slot-none test (dev ∷ devs) e =
    let (fails, later) = no_slot (test dev) (first_slot test devs) e in
    (fails, first_slot-none test devs later)

Matches-self : (before text : List ℕ) → Matches (before ++ text) (length before) text
Matches-self before [] = tt
Matches-self before (c ∷ cs) =
    let start : length before + 0 ≡ length before = omega arith in
    let longer : length (before ++ c ∷ []) ≡ length before + 1 = length-append before (c ∷ []) in
    (
      ap (λ n. get_or (before ++ c ∷ cs) n 0) (sym start) ∙ get_or-append_right before (c ∷ cs) 0 0,
      subst (λ n. Matches (before ++ c ∷ cs) n cs) longer
          (subst (λ mem. Matches mem (length (before ++ c ∷ [])) cs)
            (append_assoc before (c ∷ []) cs) (Matches-self (before ++ c ∷ []) cs)),
    )

-- A serial number starts with itself.
pub has_serial_self :
    (serial : List ℕ) (dev : Device)
    → length serial < 2 ^ 32
    → has_serial serial dev ≡ false
    → dev.serial ≢ serial
unfolding SStream.starts_with SStream.init
has_serial_self serial dev short not_there same =
    let whole = Matches-match_count serial 0 serial (Matches-self [] serial) in
    let there : has_serial serial (give_serial serial dev) ≡ true = ground (arith, whole) in
    let as_before =
      subst (λ t. SStream.starts_with (SStream.init (some t) (length t)) serial ≡ false) same
        not_there in
    ground (arith, there, as_before)
