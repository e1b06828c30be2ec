-- ===== src/Gpio/Tests.antt =====
-- Runs of linux_libgpiod_reset.c, and the theorem about it at a concrete input.
use gcfflashero.Base.{◌≡◌, refl, true, ◌==◌, some, [], ◌∷◌, ◌++◌, ℤ}
use gcfflashero.Base.Text.{codes}
use gcfflashero.Gpio.{
  Gpiod, loaded, load, iter_new, iter_free, unload, is_pinctrl, is_ftdi_cbus, rasp_bee_pulse,
  ftdi_pulse, chip_loop, libgpiod_reset_rasp_bee, libgpiod_reset_ftdi,
}
use gcfflashero.Gpio.Pulse.{Pulsed, resets-Pulsed}

-- A Raspberry Pi: a chip without pins of its own, and the one with GPIO 17.
abbrev pi : Gpiod
pi = record {
  library = loaded;
  chips = some (
      record { label = some (codes "raspberrypi-exp-gpio"); has_line = λ i. i == 0 }
      ∷ record { label = some (codes "pinctrl-bcm2711"); has_line = λ i. true }
      ∷ []);
}

pi_reset :
    libgpiod_reset_rasp_bee pi
    ≡ (ℤ.pos 0, load ∷ iter_new ∷ rasp_bee_pulse ++ iter_free ∷ unload ∷ [])
unfolding libgpiod_reset_rasp_bee chip_loop
pi_reset = refl

no_ftdi : libgpiod_reset_ftdi pi ≡ (ℤ.negsuc 0, load ∷ iter_new ∷ iter_free ∷ unload ∷ [])
unfolding libgpiod_reset_ftdi chip_loop
no_ftdi = refl

resets-Pulsed_example :
    Pulsed is_pinctrl 17 rasp_bee_pulse pi (libgpiod_reset_rasp_bee pi)
    × Pulsed is_ftdi_cbus 0 ftdi_pulse pi (libgpiod_reset_ftdi pi)
resets-Pulsed_example = resets-Pulsed pi
