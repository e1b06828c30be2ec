-- ===== src/Linux.antt =====
-- linux_get_usb_devices.c: the devices that udevadm knows, those of /dev/serial/by-id, and the
-- RaspBee. What the directories, stat(), udevadm, realpath() and readlink() answer is an argument.
-- A char array that holds a C string is the text without its NUL. Assert is nothing, as in a build with
-- NDEBUG.
pub mod Udev
pub mod ById
pub mod Parse
pub mod Fits
pub mod Listed
pub mod Names
mod Tests
use gcfflashero.Base.{
  ℕ, ◌-◌, Bool, false, Option, none, some, List, [], ◌∷◌, ltb, leb, ◌&&◌, ◌==◌, if◌then◌else◌,
  length, is_empty, replicate,
}
use gcfflashero.Base.Text.{codes}
use gcfflashero.Gcf.{Device}
use gcfflashero.Linux.Udev.{Entry, query_udevadm}
use gcfflashero.Linux.ById.{by_id_devices}
use gcfflashero.SStream.{put_str, init, c_string}

-- The search in /dev/serial/by-id, when udevadm knows no device.
abbrev pub fallback :
    Option (List (List ℕ))
    → (List ℕ → Option (List ℕ))
    → ℕ
    → Option (List Device)
    → Option (List Device)
fallback by_id real_path room none = none
fallback by_id real_path room (some found) =
    if is_empty found then some (by_id_devices by_id real_path room) else some found

-- plGetLinuxUSBDevices, for `room` devices. `version` is the output of `udevadm --version`, `dev` and
-- `by_id` are the directories, `none` where they can not be opened.
unfoldable pub linux_usb_devices :
    Option (List ℕ)
    → Option (List Entry)
    → (List ℕ → Option ℕ)
    → (List ℕ → Option (List ℕ))
    → Option (List (List ℕ))
    → (List ℕ → Option (List ℕ))
    → ℕ
    → Option (List Device)
linux_usb_devices version dev stat info by_id real_path room =
    fallback by_id real_path room (query_udevadm version dev stat info room)

abbrev is_rooted : List ℕ → Bool
is_rooted [] = false
is_rooted (ch ∷ rest) = ch == b'/'

-- plGetLinuxSerialDevices, with what readlink() answers for /dev/serial0, `none` where it is no link.
unfoldable pub linux_serial_devices : Option (List ℕ) → List Device
linux_serial_devices none = []
linux_serial_devices (some link) =
    let start = init (some (replicate 255 0)) 255 in
    let ss = if is_rooted link then start else put_str start (codes "/dev/") in
    if ltb 0 (length link) && ltb (length link) 254
    then record {
      baudrate = 38400;
      name = codes "RaspBee";
      path = c_string (put_str ss link).str;
      serial = [];
      stablepath = codes "/dev/serial0";
    }
      ∷ []
    else []

-- PL_GetDevices of main_posix.c: the RaspBee is listed where no USB device is.
pub pl_get_devices : Option (List Device) → Option (List ℕ) → Option (List Device)
pl_get_devices none link = none
pl_get_devices (some usb) link = some (if is_empty usb then linux_serial_devices link else usb)
