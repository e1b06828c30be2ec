-- ===== src/Gpio/Pulse.antt =====
-- A reset over libgpiod is one whole pulse on one line, or nothing.
use gcfflashero.Base.{
  ℕ, ◌≡◌, ◌≢◌, refl, subst, Bool, true, false, ◌&&◌, ◌⊎◌, inl, inr, Option, none, some, List, [],
  ◌∷◌, ◌++◌, ℤ, Bool-cases, arith,
}
use gcfflashero.Gpio.{
  Chip, Gpiod, Library, no_library, no_symbol, loaded, GpioCall, load, iter_new, iter_free, unload,
  is_pinctrl, is_ftdi_cbus, rasp_bee_pulse, ftdi_pulse, chip_loop, with_library,
  libgpiod_reset_rasp_bee, libgpiod_reset_ftdi,
}

-- A chip with the label and the line is among them.
abbrev pub Among : (Option (List ℕ) → Bool) → ℕ → List Chip → Type 0
Among is_wanted offset [] = ⊥
Among is_wanted offset (chip ∷ chips) =
    ((is_wanted chip.label && chip.has_line offset) ≡ true) ⊎ Among is_wanted offset chips

-- The library loads, and has such a chip.
abbrev pub Reachable : (Option (List ℕ) → Bool) → ℕ → Library → Option (List Chip) → Type 0
Reachable is_wanted offset loaded (some chips) = Among is_wanted offset chips
Reachable is_wanted offset _ _ = ⊥

-- The calls on the line, and the pauses between them.
abbrev pub line_calls : List GpioCall → List GpioCall
line_calls [] = []
line_calls (load ∷ calls) = line_calls calls
line_calls (unload ∷ calls) = line_calls calls
line_calls (iter_new ∷ calls) = line_calls calls
line_calls (iter_free ∷ calls) = line_calls calls
line_calls (call ∷ calls) = call ∷ line_calls calls

-- What is open: nothing, the library, or the library with an iterator.
pub data Opened : Type 0 where
  nothing library iterator : Opened

-- The calls open and free in turn: the library first and last, the iterator inside it, the line only
-- while there is an iterator. Nothing is open behind the last of them.
abbrev pub Balanced : Opened → List GpioCall → Type 0
Balanced nothing [] = Unit
Balanced nothing (load ∷ calls) = Balanced library calls
Balanced library (unload ∷ calls) = Balanced nothing calls
Balanced library (iter_new ∷ calls) = Balanced iterator calls
Balanced iterator (iter_free ∷ calls) = Balanced library calls
Balanced iterator (load ∷ calls) = ⊥
Balanced iterator (unload ∷ calls) = ⊥
Balanced iterator (iter_new ∷ calls) = ⊥
Balanced iterator (_ ∷ calls) = Balanced iterator calls
Balanced _ _ = ⊥

-- The line gets the whole pulse and 0 is returned, or there is no such line, no call on a line, and
-- an error.
abbrev pub Pulsed :
    (Option (List ℕ) → Bool) → ℕ → List GpioCall → Gpiod → ℤ × List GpioCall → Type 0
Pulsed is_wanted offset pulse gpiod r =
    ((Reachable is_wanted offset gpiod.library gpiod.chips
        × (r.0 ≡ ℤ.pos 0)
        × (line_calls r.1 ≡ pulse))
      ⊎ (¬ Reachable is_wanted offset gpiod.library gpiod.chips
          × (r.0 ≢ ℤ.pos 0)
          × (line_calls r.1 ≡ [])))
    × Balanced nothing r.1

not_both : (b : Bool) → b ≡ true → b ≡ false → ⊥
not_both b e e' = ground (arith, e, e')

negative : (n : ℕ) → ℤ.negsuc n ≢ ℤ.pos 0
negative n e = absurd (subst IsNegative e tt)
  where
    IsNegative : ℤ → Type 0
    IsNegative (ℤ.pos k) = ⊥
    IsNegative (ℤ.negsuc k) = Unit

module _ (is_wanted : Option (List ℕ) → Bool) (offset : ℕ) (pulse : List GpioCall)
    (framed : line_calls (pulse ++ iter_free ∷ unload ∷ []) ≡ pulse)
    (freed : Balanced iterator (pulse ++ iter_free ∷ unload ∷ [])) where
  chip_loop-cases :
      (chips : List Chip)
      → (Among is_wanted offset chips × (chip_loop is_wanted offset pulse chips ≡ (ℤ.pos 0, pulse)))
        ⊎ (¬ Among is_wanted offset chips
            × (chip_loop is_wanted offset pulse chips ≡ (ℤ.negsuc 0, [])))
  unfolding chip_loop
  chip_loop-cases [] = inr (λ h. h, refl)
  chip_loop-cases (chip ∷ chips) =
      elim (Bool-cases (is_wanted chip.label && chip.has_line offset)) [
        | inl e ↦ inl (inl e, rw e refl)
        | inr e ↦ elim (chip_loop-cases chips) [
          | inl (among, same) ↦ inl (inr among, rw e same)
          | inr (other, same) ↦ inr (
            (λ h. elim h [ inl found ↦ not_both _ found e | inr later ↦ other later ]),
            rw e same,
          )
        ]
      ]

  -- Of a library, and of chips.
  abbrev reset_with : Library → Option (List Chip) → ℤ × List GpioCall
  reset_with = with_library is_wanted offset pulse

  reset_with-Pulsed :
      (library : Library) (chips : Option (List Chip))
      → Pulsed is_wanted offset pulse
          (record { library = library; chips = chips })
          (reset_with library chips)
  reset_with-Pulsed no_library chips = (inr ((λ h. h), negative 0, refl), tt)
  reset_with-Pulsed no_symbol chips = (inr ((λ h. h), negative 0, refl), tt)
  reset_with-Pulsed loaded none = (inr ((λ h. h), negative 1, refl), tt)
  reset_with-Pulsed loaded (some chips) = elim (chip_loop-cases chips) [
    | inl (among, same) ↦ rw same (inl (among, refl, framed), freed)
    | inr (other, same) ↦ rw same (inr (other, negative 0, refl), tt)
  ]

-- A reset over libgpiod gives the whole pulse of the RaspBee or of the ConBee to the line, and
-- returns 0, exactly if the library is complete and one of its chips has the label and the line;
-- elsewhere it calls no function of a line and returns an error. On every path a library that was
-- loaded is unloaded last, an iterator that was made is freed before that, and a line is only used
-- in between.
pub resets-Pulsed :
    (gpiod : Gpiod)
    → Pulsed is_pinctrl 17 rasp_bee_pulse gpiod (libgpiod_reset_rasp_bee gpiod)
      × Pulsed is_ftdi_cbus 0 ftdi_pulse gpiod (libgpiod_reset_ftdi gpiod)
unfolding libgpiod_reset_rasp_bee libgpiod_reset_ftdi
resets-Pulsed gpiod = (
  reset_with-Pulsed is_pinctrl 17 rasp_bee_pulse refl tt gpiod.library gpiod.chips,
  reset_with-Pulsed is_ftdi_cbus 0 ftdi_pulse refl tt gpiod.library gpiod.chips,
)
