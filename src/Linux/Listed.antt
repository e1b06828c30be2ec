-- ===== src/Linux/Listed.antt =====
-- What plGetLinuxUSBDevices (linux_get_usb_devices.c) lists, from udevadm or from /dev/serial/by-id,
-- fits the arrays it is given.
use gcfflashero.Base.{
  ℕ, ◌-◌, ◌≤◌, ◌<◌, ◌≡◌, refl, arith, Option, none, some, List, [], ◌∷◌, ◌++◌, ltb, ◌==◌, length,
  is_empty, if◌then◌else◌, if_both, if_cases,
}
use gcfflashero.Gcf.{Device}
use gcfflashero.Linux.{fallback, linux_usb_devices}
use gcfflashero.Linux.ById.{
  by_id_device, by_id_devices, by_id_loop, by_id_found, by_id_classified, add_device, classify,
  on_con_bee_2, on_con_bee_3, on_ftdi, serial_of, up_to_dash, is_hidden, base_dir, strstr,
  con_bee_3, con_bee_2, con_bee_ftdi,
}
use gcfflashero.Linux.Udev.{Entry, query_udevadm}
use gcfflashero.Linux.Fits.{AllFit, FitsIfAny, Listed, query_udevadm-Listed}

serial_of-short : (o : Option (List ℕ)) → length (serial_of o) < 18
serial_of-short none = omega arith
serial_of-short (some text) =
    if_cases (λ (t : List ℕ). length t < 18) (ltb (length text) 18) text [] (λ e. ground (arith, e))
      (λ e. omega arith)

by_id_found-FitsIfAny :
    (name behind : List ℕ) (baudrate : ℕ) (stable : List ℕ) (o : Option (List ℕ))
    → length name < 32
    → 0 < length name
    → FitsIfAny (by_id_found (name, behind, baudrate) stable o)
by_id_found-FitsIfAny name behind baudrate stable none short named = tt
by_id_found-FitsIfAny name behind baudrate stable (some path) short named = record {
  name = short;
  serial = serial_of-short (up_to_dash behind);
  named = named;
}

-- The kinds of names, of which there are three.
abbrev Short : Option (List ℕ × List ℕ × ℕ) → Type 0
Short none = Unit
Short (some (name, behind, baudrate)) = (length name < 32) × (0 < length name)

on_ftdi-Short : (o : Option (List ℕ)) → Short (on_ftdi o)
on_ftdi-Short none = tt
on_ftdi-Short (some found) = (omega arith, omega arith)

on_con_bee_3-Short : (d_name : List ℕ) (o : Option (List ℕ)) → Short (on_con_bee_3 d_name o)
on_con_bee_3-Short d_name none = on_ftdi-Short (strstr d_name con_bee_ftdi)
on_con_bee_3-Short d_name (some found) = (omega arith, omega arith)

on_con_bee_2-Short : (d_name : List ℕ) (o : Option (List ℕ)) → Short (on_con_bee_2 d_name o)
on_con_bee_2-Short d_name none = on_con_bee_3-Short d_name (strstr d_name con_bee_3)
on_con_bee_2-Short d_name (some found) = (omega arith, omega arith)

by_id_classified-FitsIfAny :
    (real_path : List ℕ → Option (List ℕ)) (d_name : List ℕ) (o : Option (List ℕ × List ℕ × ℕ))
    → Short o
    → FitsIfAny (by_id_classified real_path d_name o)
by_id_classified-FitsIfAny real_path d_name none short = tt
by_id_classified-FitsIfAny real_path d_name (some (name, behind, baudrate)) short =
    let stable = base_dir ++ b'/' ∷ d_name in
    by_id_found-FitsIfAny name behind baudrate stable
      (if ltb (length stable) 255 then real_path stable else none) short.0 short.1

abbrev ListFits : ℕ → List Device → Type 0
ListFits room devs = (length devs ≤ room) × AllFit devs

add_device-ListFits :
    (room : ℕ) (skipped more : List Device) (o : Option Device)
    → 0 < room
    → ListFits room skipped
    → ListFits (room - 1) more
    → FitsIfAny o
    → ListFits room (add_device skipped more o)
add_device-ListFits room skipped more none some_room s m fits = s
add_device-ListFits room skipped more (some dev) some_room s m fits =
    (omega (arith, m.0), (fits, m.1))

by_id_loop-ListFits :
    (real_path : List ℕ → Option (List ℕ)) (dir : List (List ℕ)) (room : ℕ)
    → ListFits room (by_id_loop real_path dir room)
unfolding by_id_loop
by_id_loop-ListFits real_path [] room = (omega arith, tt)
by_id_loop-ListFits real_path (d_name ∷ rest) room =
    let skipped = by_id_loop real_path rest room in
    let more = by_id_loop real_path rest (room - 1) in
    let dev = by_id_device real_path d_name in
    let fits =
      by_id_classified-FitsIfAny real_path d_name (classify d_name)
        (on_con_bee_2-Short d_name (strstr d_name con_bee_2)) in
    if_cases (ListFits room) (room == 0) []
      (if is_hidden d_name then skipped else add_device skipped more dev) (λ e. (omega arith, tt))
      (λ e.
        if_both (ListFits room) (is_hidden d_name) skipped (add_device skipped more dev)
          (by_id_loop-ListFits real_path rest room)
          (add_device-ListFits room skipped more dev (ground (arith, e))
            (by_id_loop-ListFits real_path rest room)
            (by_id_loop-ListFits real_path rest (room - 1)) fits))

by_id_devices-ListFits :
    (dir : Option (List (List ℕ))) (real_path : List ℕ → Option (List ℕ)) (room : ℕ)
    → ListFits room (by_id_devices dir real_path room)
unfolding by_id_devices
by_id_devices-ListFits none real_path room = (omega arith, tt)
by_id_devices-ListFits (some dir) real_path room = by_id_loop-ListFits real_path dir room

fallback-Listed :
    (by_id : Option (List (List ℕ))) (real_path : List ℕ → Option (List ℕ)) (room : ℕ)
    (o : Option (List Device))
    → Listed room o
    → Listed room (fallback by_id real_path room o)
fallback-Listed by_id real_path room none l = l
fallback-Listed by_id real_path room (some found) l =
    if_both (Listed room) (is_empty found) (some (by_id_devices by_id real_path room)) (some found)
      (by_id_devices-ListFits by_id real_path room) l

known :
    (room : ℕ) (o : Option (List Device))
    → Listed room o
    → (devs : List Device) × (o ≡ some devs) × (length devs ≤ room) × AllFit devs
known room none l = absurd l
known room (some devs) l = (devs, refl, l.0, l.1)

-- In a build with NDEBUG, plGetLinuxUSBDevices returns, whatever the directories, udevadm and
-- realpath() answer, with at most as many devices as there is room for; each has a name, and its
-- name and serial number fit their arrays with the NUL. The loop over the output of udevadm ends.
pub linux_usb_devices-AllFit :
    (version : Option (List ℕ)) (dev : Option (List Entry)) (stat : List ℕ → Option ℕ)
    (info : List ℕ → Option (List ℕ)) (by_id : Option (List (List ℕ)))
    (real_path : List ℕ → Option (List ℕ)) (room : ℕ)
    → (devs : List Device) × (linux_usb_devices version dev stat info by_id real_path room
        ≡ some devs)
      × (length devs ≤ room)
      × AllFit devs
unfolding linux_usb_devices
linux_usb_devices-AllFit version dev stat info by_id real_path room =
    known room (linux_usb_devices version dev stat info by_id real_path room) (
      fallback-Listed by_id real_path room (query_udevadm version dev stat info room)
        (query_udevadm-Listed version dev stat info room))
