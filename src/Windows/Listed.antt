-- ===== src/Windows/Listed.antt =====
-- GetComPort (main_windows.c) keeps the array of devices sound, device by device.
use gcfflashero.Base.{
  ℕ, zero, suc, ◌+◌, ◌≤◌, ◌≡◌, refl, arith, ◌||◌, Option, none, some, List, [], ◌∷◌, length,
  length-replicate, is_empty, replicate, ltb, ◌==◌, if_both,
}
use gcfflashero.Gcf.{Device}
use gcfflashero.SStream
use gcfflashero.Windows.Ports.{
  Present, PortSearch, has_serial, is_free, first_slot, serial_loop, serial_behind, read_instance,
  on_port_serial, serial_read, behind_product, known_vendor, take_slot, on_instance, rest_of,
  on_present, port_loop, get_com_port, empty_slot, windows_devices, listed_count,
}
use gcfflashero.Windows.Slots.{All, Distinct, Apart}
use gcfflashero.Windows.Table.{
  FitsSlot, IsTable, Tabled, pick-Tabled, fill_slot-Tabled, give_serial-IsTable, serial_loop_short,
}

take_slot-Tabled :
    (max vid : ℕ) (serial : List ℕ) (present : Present) (found : PortSearch) (known free : Option ℕ)
    → length serial ≤ 16
    → first_slot (has_serial serial) found.slots ≡ known
    → Tabled max found
    → Tabled max (take_slot vid serial present found known free)
take_slot-Tabled max vid serial present found (some i) free short e h =
    fill_slot-Tabled max vid present i found h
take_slot-Tabled max vid serial present found none none short e h = h
take_slot-Tabled max vid serial present found none (some i) short e h =
    fill_slot-Tabled max vid present i _
      (record { table = give_serial-IsTable max i serial found.slots short e h.table })

on_port_serial-Tabled :
    (max vid : ℕ) (serial : List ℕ) (present : Present) (found : PortSearch)
    → length serial ≤ 16
    → Tabled max found
    → Tabled max (on_port_serial vid serial present found)
unfolding on_port_serial
on_port_serial-Tabled max vid serial present found short h =
    take_slot-Tabled max vid serial present found (first_slot (has_serial serial) found.slots)
      (first_slot is_free found.slots) short refl h

-- A serial number that was read is short.
abbrev ShortSerial : Option (ℕ × List ℕ) → Type 0
ShortSerial none = Unit
ShortSerial (some (vid, serial)) = length serial ≤ 16

abbrev ShortText : Option (List ℕ) → Type 0
ShortText none = Unit
ShortText (some serial) = length serial ≤ 16

serial_read-Short : (vid : ℕ) (o : Option (List ℕ)) → ShortText o → ShortSerial (serial_read vid o)
serial_read-Short vid none short = tt
serial_read-Short vid (some serial) short =
    if_both ShortSerial (is_empty serial) none (some (vid, serial)) tt short

serial_behind-Short : (ss : SStream.SStream) → ShortText (serial_behind ss)
serial_behind-Short ss =
    if_both ShortText (SStream.peek_char ss == b'+' || SStream.peek_char ss == b'\\')
      (some (serial_loop [] (rest_of (record ss { pos = ss.pos + 1 })))) none
      (serial_loop_short _ [] (omega arith)) tt

behind_product-Short : (r : SStream.SStream × Option ℕ) → ShortSerial (behind_product r)
behind_product-Short (ss, none) = tt
behind_product-Short (ss, some vid) = serial_read-Short vid _ (serial_behind-Short _)

on_instance-Tabled :
    (max : ℕ) (present : Present) (found : PortSearch) (o : Option (ℕ × List ℕ))
    → ShortSerial o
    → Tabled max found
    → Tabled max (on_instance present found o)
on_instance-Tabled max present found none short h = h
on_instance-Tabled max present found (some (vid, serial)) short h =
    on_port_serial-Tabled max vid serial present found short h

on_present-Tabled :
    (max : ℕ) (present : Present) (found : PortSearch)
    → Tabled max found
    → Tabled max (on_present present found)
unfolding on_present read_instance
on_present-Tabled max present found h =
    let id = present.instance_id in
    on_instance-Tabled max present found
      (behind_product (known_vendor (SStream.init (some id) (length id))))
      (behind_product-Short (known_vendor (SStream.init (some id) (length id)))) h

port_loop-Tabled :
    (max : ℕ) (present : List Present) (found : PortSearch)
    → Tabled max found
    → Tabled max (port_loop max present found)
unfolding port_loop
port_loop-Tabled max [] found h = h
port_loop-Tabled max (device ∷ rest) found h =
    pick-Tabled max (ltb found.count max)
      (port_loop-Tabled max rest (on_present device found) (on_present-Tabled max device found h)) h

get_com_port-IsTable :
    (max : ℕ) (present : List Present) (slots : List Device)
    → IsTable max slots
    → IsTable max (get_com_port max present slots)
get_com_port-IsTable max present slots h =
    let t =
      port_loop-Tabled max present (record { slots = slots; count = 0 }) (record { table = h }) in
    t.table

empty-Distinct : (max : ℕ) → Distinct (replicate max empty_slot)
empty-Distinct zero = tt
empty-Distinct (suc max) = (free max, empty-Distinct max)
  where
    free : (n : ℕ) → All (Apart []) (replicate n empty_slot)
    free zero = tt
    free (suc n) = (λ e. refl, free n)

empty-FitsSlot : (max : ℕ) → All FitsSlot (replicate max empty_slot)
empty-FitsSlot zero = tt
empty-FitsSlot (suc max) =
    (record { serial = omega arith; path = omega arith; stable = omega arith }, empty-FitsSlot max)

listed_count_le : (devs : List Device) → listed_count devs ≤ length devs
listed_count_le [] = omega arith
listed_count_le (dev ∷ devs) = ground (arith, listed_count_le devs)

-- PL_GetDevices of Windows leaves, whatever the enumerators and the registry hold, an array of the
-- size it was given, in which no two slots have the same serial number and each serial number and
-- path fits its array with the NUL. The number it returns is not larger than the array.
pub windows_devices-IsTable :
    (max : ℕ) (usb ftdibus : List Present)
    → IsTable max (windows_devices max usb ftdibus).0 × ((windows_devices max usb ftdibus).1 ≤ max)
unfolding windows_devices
windows_devices-IsTable max usb ftdibus =
    let start : IsTable max (replicate max empty_slot) = record {
      size = length-replicate max empty_slot;
      fits = empty-FitsSlot max;
      distinct = empty-Distinct max;
    } in
    let table = get_com_port-IsTable max ftdibus _ (get_com_port-IsTable max usb _ start) in
    (
      table,
      omega (
        arith,
        listed_count_le
            (get_com_port max ftdibus (get_com_port max usb (replicate max empty_slot))),
        table.size,
      ),
    )
