-- ===== src/Gpio.antt =====
-- linux_libgpiod_reset.c: the resets of a RaspBee and of a ConBee over the lines of libgpiod. Whether the
-- library loads, which chips it finds and which of their lines it has are parameters; Assert is nothing,
-- as in a release build, so that what the calls on a line return does not count.
pub mod Pulse
mod Tests
use gcfflashero.Base.{
  ℕ, Bool, true, false, ◌&&◌, Option, none, some, List, [], ◌∷◌, ◌++◌, take, ◌==◌, if◌then◌else◌, ℤ,
}
use gcfflashero.Base.Text.{codes}

-- The label of a chip, and the offsets at which it has a line.
pub record Chip : Type 0 where
  pub label : Option (List ℕ)
  pub has_line : ℕ → Bool

-- What plLoadLibGpiod finds.
pub data Library : Type 0 where
  no_library no_symbol loaded : Library

-- The library, and the chips, if there is an iterator over them.
pub record Gpiod : Type 0 where
  pub library : Library
  pub chips : Option (List Chip)

-- The calls on a line, those that open and free the library and the iterator, and PL_MSleep.
pub data GpioCall : Type 0 where
  request_output set_value slept : ℕ → GpioCall
  release request_input load iter_new iter_free unload : GpioCall

abbrev pub same_text : List ℕ → List ℕ → Bool
same_text [] [] = true
same_text (x ∷ xs) (y ∷ ys) = x == y && same_text xs ys
same_text _ _ = false

-- strncmp with the length of the text, and strcmp.
abbrev pub is_pinctrl : Option (List ℕ) → Bool
is_pinctrl none = false
is_pinctrl (some label) = same_text (take 11 label) (codes "pinctrl-bcm")

abbrev pub is_ftdi_cbus : Option (List ℕ) → Bool
is_ftdi_cbus none = false
is_ftdi_cbus (some label) = same_text label (codes "ftdi-cbus")

-- The reset pin of the RaspBee is pulled low for 200 ms and left as an input.
abbrev pub rasp_bee_pulse : List GpioCall
rasp_bee_pulse =
    request_output 1
    ∷ set_value 0
    ∷ slept 200
    ∷ set_value 1
    ∷ release
    ∷ request_input
    ∷ release
    ∷ []

-- CBUS0 is toggled.
abbrev pub ftdi_pulse : List GpioCall
ftdi_pulse = request_output 0 ∷ set_value 1 ∷ set_value 0 ∷ set_value 1 ∷ release ∷ []

-- The loop over the chips, up to the first with the right label and the line: `ret`, and the calls.
unfoldable pub chip_loop :
    (Option (List ℕ) → Bool) → ℕ → List GpioCall → List Chip → ℤ × List GpioCall
chip_loop is_wanted offset pulse [] = (ℤ.negsuc 0, [])
chip_loop is_wanted offset pulse (chip ∷ chips) =
    let further = chip_loop is_wanted offset pulse chips in
    if is_wanted chip.label && chip.has_line offset then (ℤ.pos 0, pulse) else further

abbrev pub with_chips :
    (Option (List ℕ) → Bool) → ℕ → List GpioCall → Option (List Chip) → ℤ × List GpioCall
with_chips is_wanted offset pulse none = (ℤ.negsuc 1, load ∷ unload ∷ [])
with_chips is_wanted offset pulse (some chips) =
    let (ret, calls) = chip_loop is_wanted offset pulse chips in
    (ret, load ∷ iter_new ∷ (calls ++ iter_free ∷ unload ∷ []))

-- A reset. `load` is a dlopen() that gave a library, `iter_new` an iterator that was made; the library
-- is unloaded again if a function of it is missing.
abbrev pub with_library :
    (Option (List ℕ) → Bool) → ℕ → List GpioCall → Library → Option (List Chip) → ℤ × List GpioCall
with_library is_wanted offset pulse no_library chips = (ℤ.negsuc 0, [])
with_library is_wanted offset pulse no_symbol chips = (ℤ.negsuc 0, load ∷ unload ∷ [])
with_library is_wanted offset pulse loaded chips = with_chips is_wanted offset pulse chips

-- plResetRaspBeeLibGpiod
unfoldable pub libgpiod_reset_rasp_bee : Gpiod → ℤ × List GpioCall
libgpiod_reset_rasp_bee gpiod = with_library is_pinctrl 17 rasp_bee_pulse gpiod.library gpiod.chips

-- plResetFtdiLibGpiod
unfoldable pub libgpiod_reset_ftdi : Gpiod → ℤ × List GpioCall
libgpiod_reset_ftdi gpiod = with_library is_ftdi_cbus 0 ftdi_pulse gpiod.library gpiod.chips
