-- ===== src/Linux/Udev.antt =====
-- query_udevadm of linux_get_usb_devices.c.
use gcfflashero.Base
use gcfflashero.Base.{
  ℕ, zero, suc, ◌+◌, ◌-◌, ◌/◌, ◌%◌, Bool, true, false, not, ◌&&◌, ◌||◌, Option, none, some, List,
  [], ◌∷◌, ltb, leb, ◌==◌, if◌then◌else◌, length, is_empty, replicate, ℤ, u32,
}
use gcfflashero.Base.Text.{codes}
use gcfflashero.Gcf.{Device}
use gcfflashero.SStream.{
  SStream, init, c_string, find, starts_with, remaining, peek_char, put_str, get_long, is_ok,
}

-- What is found out about one device.
pub record Usb : Type 0 where
  pub vendor : ℕ
  pub serial : List ℕ
  pub name : List ℕ
  pub baudrate : ℕ

abbrev pub is_alnum : ℕ → Bool
is_alnum ch = leb b'A' ch && leb ch b'Z' || leb b'a' ch && leb ch b'z' || leb b'0' ch && leb ch b'9'

abbrev pub is_name_char : ℕ → Bool
is_name_char ch = ch == b' ' || ch == b'_' || is_alnum ch

-- The loops that copy a value, of at most `limit` characters, each of which the test accepts.
unfoldable pub copy_value : (ℕ → Bool) → ℕ → SStream → SStream × List ℕ
copy_value accepts zero ss = (ss, [])
copy_value accepts (suc limit) ss =
    let (ss', more) = copy_value accepts limit (record ss { pos = ss.pos + 1 }) in
    if ltb ss.pos ss.len && accepts (peek_char ss) then (ss', peek_char ss ∷ more) else (ss, [])

-- A line of the key, and the stream behind its `=`.
abbrev pub value_at : SStream → List ℕ → Option SStream
value_at ss key =
    let (ss', found) = find ss (codes "=") in
    if starts_with ss key && found then some (record ss' { pos = ss'.pos + 1 }) else none

abbrev pub read_vendor : SStream → ℕ → ℕ
read_vendor ss old =
    if starts_with ss (codes "1cf1")
    then 0x1cf1
    else if starts_with ss (codes "0403")
    then 0x0403
    else if starts_with ss (codes "1a86")
    then 0x1a86
    else old

abbrev pub read_serial : SStream → Usb → SStream × Usb
read_serial ss usb =
    let (ss', text) = copy_value is_alnum 17 ss in (ss', record usb { serial = text })

abbrev pub name_baudrate : List ℕ → ℕ → ℕ
name_baudrate name old =
    let s2 = init (some name) (length name) in
    if starts_with s2 (codes "ConBee_III")
    then 115200
    else if starts_with s2 (codes "ConBee_II")
    then 115200
    else old

abbrev pub read_name : SStream → Usb → SStream × Usb
read_name ss usb =
    let (ss', text) = copy_value is_name_char 31 ss in
    (ss', record usb { name = text; baudrate = name_baudrate text usb.baudrate })

-- The body of the loop, behind the "E: " of a line: the three tests, one after the other.
abbrev pub on_model : SStream → Usb → Option SStream → SStream × Usb
on_model ss usb none = (ss, usb)
on_model ss usb (some value) = read_name value usb

abbrev pub on_serial : SStream → Usb → Option SStream → SStream × Usb
on_serial ss usb none = on_model ss usb (value_at ss (codes "ID_USB_MODEL="))
on_serial ss usb (some value) = read_serial value usb

abbrev pub on_vendor : SStream → Usb → Option SStream → SStream × Usb
on_vendor ss usb none = on_serial ss usb (value_at ss (codes "ID_USB_SERIAL_SHORT="))
on_vendor ss usb (some value) = (value, record usb { vendor = read_vendor value usb.vendor })

unfoldable pub parse_line : SStream → Usb → SStream × Usb
parse_line ss usb = on_vendor ss usb (value_at ss (codes "ID_USB_VENDOR_ID="))

-- The loop over the output of `udevadm info`, and `none` where the fuel runs out.
unfoldable pub parse_loop : ℕ → SStream → Usb → Option Usb
parse_loop zero ss usb = none
parse_loop (suc fuel) ss usb =
    let (here, found) = find ss (codes "E: ") in
    let (next, usb') = parse_line (record here { pos = here.pos + 3 }) usb in
    let rest = parse_loop fuel next usb' in
    if found && ltb 8 (remaining here) then rest else some usb

abbrev pub no_usb : Usb
no_usb = record { vendor = 0; serial = []; name = []; baudrate = 0 }

-- The fuel is one more than the number of characters.
unfoldable pub parse_output : List ℕ → Option Usb
parse_output output =
    let n = length output in
    let parsed = parse_loop (suc n) (init (some output) n) no_usb in
    if ltb 0 n && ltb n 16383 then parsed else some no_usb

-- What stands behind the loop: the CH340 has no serial number, and all three fields are needed.
abbrev pub judge_usb : List ℕ → Usb → Option Device
judge_usb path usb =
    let ch340 = usb.vendor == 0x1a86 in
    let serial = if ch340 && is_empty usb.serial then codes "1" else usb.serial in
    if not (usb.vendor == 0) && not (is_empty serial) && not (is_empty usb.name)
    then some (record {
      baudrate = if ch340 then 115200 else usb.baudrate;
      name = usb.name;
      path = path;
      serial = serial;
      stablepath = path;
    })
    else none

-- A directory entry: whether it is a character device, and its name.
pub record Entry : Type 0 where
  pub is_chr : Bool
  pub d_name : List ℕ

abbrev pub dev_path : List ℕ → List ℕ
dev_path d_name =
    let ss = put_str (init (some (replicate 255 0)) 255) (codes "/dev/") in
    c_string (put_str ss d_name).str

abbrev pub info_command : List ℕ → List ℕ
info_command d_name =
    let ss = put_str (init (some (replicate 16384 0)) 16384) (codes "udevadm info --name=") in
    c_string (put_str (put_str ss (codes "/dev/")) d_name).str

abbrev pub is_tty : Option ℕ → Bool
is_tty none = false
is_tty (some rdev) = let major = u32 (rdev / 256) in major == 166 || major == 188

abbrev pub judged : List ℕ → Option Usb → Option (Option Device)
judged path none = none
judged path (some usb) = some (judge_usb path usb)

abbrev pub described : List ℕ → Option (List ℕ) → Option (Option Device)
described path none = some none
described path (some output) = judged path (parse_output output)

-- One entry of the directory that is a character device.
abbrev pub query_entry :
    (List ℕ → Option ℕ) → (List ℕ → Option (List ℕ)) → List ℕ → Option (Option Device)
query_entry stat info d_name =
    let path = dev_path d_name in
    if is_tty (stat path) then described path (info (info_command d_name)) else some none

abbrev pub cons_to : Device → Option (List Device) → Option (List Device)
cons_to dev none = none
cons_to dev (some devs) = some (dev ∷ devs)

-- What the rest of the loop does when the entry is no device, and when it is one.
abbrev pub listed :
    Option (List Device) → Option (List Device) → Option (Option Device) → Option (List Device)
listed skipped more none = none
listed skipped more (some none) = skipped
listed skipped more (some (some dev)) = cons_to dev more

-- The loop over the directory, with room for `room` devices.
unfoldable pub query_dir :
    (List ℕ → Option ℕ) → (List ℕ → Option (List ℕ)) → List Entry → ℕ → Option (List Device)
query_dir stat info [] room = some []
query_dir stat info (entry ∷ rest) room =
    let skipped = query_dir stat info rest room in
    let more = query_dir stat info rest (room - 1) in
    if not entry.is_chr
    then skipped
    else if room == 0
    then some []
    else listed skipped more (query_entry stat info entry.d_name)

abbrev is_zero : ℤ → Bool
is_zero (Base.ℤ.pos zero) = true
is_zero _ = false

-- Whether the output of `udevadm --version` is a number.
abbrev pub has_udevadm : Option (List ℕ) → Bool
has_udevadm none = false
has_udevadm (some output) =
    let (ss, version) = get_long (init (some output) (length output)) in
    ltb 0 (length output) && ltb (length output) 10 && is_ok ss.status && not (is_zero version)

-- query_udevadm
unfoldable pub query_udevadm :
    Option (List ℕ)
    → Option (List Entry)
    → (List ℕ → Option ℕ)
    → (List ℕ → Option (List ℕ))
    → ℕ
    → Option (List Device)
query_udevadm version none stat info room = some []
query_udevadm version (some dir) stat info room =
    let found = query_dir stat info dir room in if has_udevadm version then found else some []
