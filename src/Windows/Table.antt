-- ===== src/Windows/Table.antt =====
-- What PL_GetDevices (main_windows.c) leaves in the array of devices.
use gcfflashero.Base.{
  ℕ, ◌-◌, ◌≤◌, ◌<◌, ◌≡◌, refl, ◌∙◌, arith, Bool, true, false, Option, none, some, List, [], ◌∷◌,
  ◌++◌, length, length-append, length-take, take, get_or, leb, ◌==◌, if◌then◌else◌,
}
use gcfflashero.Base.Text.{codes}
use gcfflashero.Gcf.{Device}
use gcfflashero.SStream
use gcfflashero.Windows.Ports.{
  Present, PortSearch, has_serial, first_slot, at_slot, describe, described_slot, set_port,
  is_com_port, serial_loop, fill_slot,
}
use gcfflashero.Windows.Slots.{
  All, All-imp, at_slot-All, length-at_slot, Distinct, at_slot-Distinct, give_serial,
  give_serial-Distinct, first_slot-none, has_serial_self,
}

-- The texts fit their arrays with the NUL.
pub record FitsSlot (dev : Device) : Type 0 where
  pub serial : length dev.serial < 18
  pub path : length dev.path < 255
  pub stable : length dev.stablepath < 255

pub record IsTable (max : ℕ) (devs : List Device) : Type 0 where
  pub size : length devs ≡ max
  pub fits : All FitsSlot devs
  pub distinct : Distinct devs

pub serial_loop_short :
    (text serial : List ℕ) → length serial ≤ 16 → length (serial_loop serial text) ≤ 16
unfolding serial_loop
serial_loop_short [] serial h = h
serial_loop_short (ch ∷ rest) serial h =
    let longer = length-append serial (ch ∷ []) in
    let cut = length-take (length serial - 1) serial in
    ground (arith, h, serial_loop_short rest (serial ++ ch ∷ []), longer, cut)

-- A change of a slot behind its serial number.
record Keeps (dev dev' : Device) : Type 0 where
  same : dev'.serial ≡ dev.serial
  fits : FitsSlot dev → FitsSlot dev'

pick_keeps :
    (b : Bool) {dev x y : Device} → Keeps dev x → Keeps dev y → Keeps dev (if b then x else y)
pick_keeps true hx hy = hx
pick_keeps false hx hy = hy

unchanged : (dev : Device) → Keeps dev dev
unchanged dev = record { same = refl; fits = λ h. h }

-- The name may run into the path.
named :
    (b : Bool) (name : List ℕ) (baudrate : ℕ) (dev : Device)
    → Keeps dev (record dev { name = name; path = if b then [] else dev.path; baudrate = baudrate })
named true name baudrate dev = record {
  same = refl;
  fits = λ h. record { serial = h.serial; path = omega arith; stable = h.stable };
}
named false name baudrate dev = record {
  same = refl;
  fits = λ h. record { serial = h.serial; path = h.path; stable = h.stable };
}

describe-Keeps : (vid : ℕ) (text : List ℕ) (dev : Device) → Keeps dev (describe vid text dev)
unfolding describe
describe-Keeps vid text dev =
    let long = leb 32 (length text) in
    pick_keeps (get_or dev.name 0 0 == b'C') (unchanged dev) (
      pick_keeps
        (SStream.starts_with (SStream.init (some (take 32 text)) (length (take 32 text)))
          (codes "ConBee"))
        (named long _ 115200 dev)
        (pick_keeps (vid == 0x0403) (named long _ 38400 dev)
          (pick_keeps (vid == 0x1a86) (named long _ 115200 dev) (named long _ dev.baudrate dev))))

described_slot-Keeps :
    (vid : ℕ) (o : Option (List ℕ)) (dev : Device) → Keeps dev (described_slot vid o dev)
described_slot-Keeps vid none dev = unchanged dev
described_slot-Keeps vid (some text) dev = describe-Keeps vid text dev

set_port-Keeps : (o : Option (List ℕ)) (dev : Device) → Keeps dev (set_port o dev)
unfolding set_port
set_port-Keeps none dev = unchanged dev
set_port-Keeps (some name) dev =
    let cut = length-take 254 name in
    pick_keeps (is_com_port name)
      (record {
        same = refl;
        fits = λ h. record { serial = h.serial; path = omega arith; stable = omega arith };
      })
      (unchanged dev)

at_slot-IsTable :
    (max i : ℕ) (change : Device → Device) (devs : List Device)
    → ((dev : Device) → Keeps dev (change dev))
    → IsTable max devs
    → IsTable max (at_slot i change devs)
at_slot-IsTable max i change devs keeps h = record {
  size = length-at_slot i change devs ∙ h.size;
  fits = at_slot-All i change devs (λ dev. (keeps dev).fits) h.fits;
  distinct = at_slot-Distinct i change devs (λ dev. (keeps dev).same) h.distinct;
}

pub give_serial-IsTable :
    (max i : ℕ) (serial : List ℕ) (devs : List Device)
    → length serial ≤ 16
    → first_slot (has_serial serial) devs ≡ none
    → IsTable max devs
    → IsTable max (at_slot i (give_serial serial) devs)
give_serial-IsTable max i serial devs short new h = record {
  size = length-at_slot i (give_serial serial) devs ∙ h.size;
  fits =
      at_slot-All i (give_serial serial) devs
        (λ dev f. record { serial = omega arith; path = f.path; stable = f.stable }) h.fits;
  distinct =
      give_serial-Distinct i serial devs
        (All-imp devs (λ dev e. has_serial_self serial dev (omega arith) e)
          (first_slot-none (has_serial serial) devs new))
        h.distinct;
}

pub record Tabled (max : ℕ) (found : PortSearch) : Type 0 where
  pub table : IsTable max found.slots

pub pick-Tabled :
    (max : ℕ) (b : Bool) {x y : PortSearch}
    → Tabled max x
    → Tabled max y
    → Tabled max (if b then x else y)
pick-Tabled max true hx hy = hx
pick-Tabled max false hx hy = hy

pub fill_slot-Tabled :
    (max vid : ℕ) (present : Present) (i : ℕ) (found : PortSearch)
    → Tabled max found
    → Tabled max (fill_slot vid present i found)
fill_slot-Tabled max vid present i found h =
    let named =
      at_slot-IsTable max i (described_slot vid present.description) found.slots
        (described_slot-Keeps vid present.description) h.table in
    pick-Tabled max _ (record { table = named })
      (record {
        table =
            at_slot-IsTable max i (set_port present.port_name) _ (set_port-Keeps present.port_name)
              named;
      })
