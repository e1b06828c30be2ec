-- ===== src/Windows/Ports.antt =====
-- main_windows.c: the search for devices, GetComPort and PL_GetDevices. What SetupAPI and the registry
-- say of each device that is present is a parameter.
use gcfflashero.Base.{
  ℕ, zero, suc, ◌+◌, ◌-◌, Bool, true, false, not, ◌&&◌, ◌||◌, Option, none, some, List, [], ◌∷◌,
  ◌++◌, length, is_empty, take, drop, get_or, replicate, ltb, leb, ◌==◌, if◌then◌else◌,
}
use gcfflashero.Base.Text.{codes}
use gcfflashero.Gcf.{Device}
use gcfflashero.SStream
use gcfflashero.SStream.{SStream}

-- A device of an enumerator: its instance id, the description that the bus reports, and the name of
-- its port.
pub record Present : Type 0 where
  pub instance_id : List ℕ
  pub description : Option (List ℕ)
  pub port_name : Option (List ℕ)

-- A search for a vendor, and behind it for a product. The first stays where it ended if the second
-- fails.
abbrev pub find_ids : SStream → List ℕ → List ℕ → SStream × Bool
find_ids ss vendor product =
    let (ss, found) = SStream.find ss vendor in
    if found then SStream.find ss product else (ss, false)

-- The vendor of a device that is known, and the position of its product.
abbrev pub known_vendor : SStream → SStream × Option ℕ
known_vendor ss =
    let (ss1, con_bee_2) = find_ids ss (codes "VID_1CF1") (codes "PID_0030") in
    let (ss2, ftdi) = find_ids ss1 (codes "VID_0403") (codes "PID_6015") in
    let (ss3, ch340) = find_ids ss2 (codes "VID_1A86") (codes "PID_7523") in
    if con_bee_2
    then (ss1, some 0x1cf1)
    else if ftdi
    then (ss2, some 0x0403)
    else if ch340
    then (ss3, some 0x1a86)
    else (ss3, none)

abbrev pub is_serial_char : ℕ → Bool
is_serial_char ch =
    (leb b'A' ch && leb ch b'Z') || (leb b'a' ch && leb ch b'z') || (leb b'0' ch && leb ch b'9')

-- The end of a serial number. FTDIBUS appends an A in front of a backslash.
abbrev pub serial_end : List ℕ → ℕ → List ℕ
serial_end serial ch =
    if ch == b'\\' && not (is_empty serial) && get_or serial (length serial - 1) 0 == b'A'
    then take (length serial - 1) serial
    else serial

-- The loop that copies the serial number, whose array has room for 18 characters.
unfoldable pub serial_loop : List ℕ → List ℕ → List ℕ
serial_loop serial [] = serial
serial_loop serial (ch ∷ rest) =
    let longer = serial_loop (serial ++ ch ∷ []) rest in
    if leb 18 (length serial + 2)
    then serial
    else if is_serial_char ch
    then longer
    else serial_end serial ch

-- What is left of a stream.
abbrev pub rest_of : SStream → List ℕ
rest_of ss = drop ss.pos (take ss.len ss.str)

abbrev pub serial_behind : SStream → Option (List ℕ)
serial_behind ss =
    let ch = SStream.peek_char ss in
    if ch == b'+' || ch == b'\\'
    then some (serial_loop [] (rest_of (record ss { pos = ss.pos + 1 })))
    else none

abbrev pub serial_read : ℕ → Option (List ℕ) → Option (ℕ × List ℕ)
serial_read vid none = none
serial_read vid (some serial) = if is_empty serial then none else some (vid, serial)

-- Behind PID_XXXX.
abbrev pub behind_product : SStream × Option ℕ → Option (ℕ × List ℕ)
behind_product (ss, none) = none
behind_product (ss, some vid) = serial_read vid (serial_behind (record ss { pos = ss.pos + 8 }))

-- Vendor and serial number of an instance id.
unfoldable pub read_instance : List ℕ → Option (ℕ × List ℕ)
read_instance id = behind_product (known_vendor (SStream.init (some id) (length id)))

-- The serial number in a slot starts with this one, or is it.
abbrev pub has_serial : List ℕ → Device → Bool
has_serial serial dev =
    SStream.starts_with (SStream.init (some dev.serial) (length dev.serial)) serial

abbrev pub is_free : Device → Bool
is_free dev = is_empty dev.serial

abbrev pub next_slot : Option ℕ → Option ℕ
next_slot none = none
next_slot (some i) = some (suc i)

-- The first slot that passes a test.
unfoldable pub first_slot : (Device → Bool) → List Device → Option ℕ
first_slot test [] = none
first_slot test (dev ∷ devs) =
    let later = next_slot (first_slot test devs) in if test dev then some zero else later

-- A change of one slot.
unfoldable pub at_slot : ℕ → (Device → Device) → List Device → List Device
at_slot i change [] = []
at_slot zero change (dev ∷ devs) = change dev ∷ devs
at_slot (suc i) change (dev ∷ devs) = dev ∷ at_slot i change devs

-- The name and the baudrate. The name has room for 32 characters; the NUL behind a longer one is the
-- first character of the path, the field behind it.
unfoldable pub describe : ℕ → List ℕ → Device → Device
describe vid text dev =
    let name = take 32 text in
    let dev' = record dev { name = name; path = if leb 32 (length text) then [] else dev.path } in
    if get_or dev.name 0 0 == b'C'
    then dev
    else if SStream.starts_with (SStream.init (some name) (length name)) (codes "ConBee")
    then record dev' { baudrate = 115200 }
    else if vid == 0x0403
    then record dev' { name = codes "Serial FTDI"; baudrate = 38400 }
    else if vid == 0x1a86
    then record dev' { name = codes "Serial CH340"; baudrate = 115200 }
    else dev'

abbrev pub described_slot : ℕ → Option (List ℕ) → Device → Device
described_slot vid none dev = dev
described_slot vid (some text) dev = describe vid text dev

-- COM and a digit.
abbrev pub is_com_port : List ℕ → Bool
is_com_port name =
    get_or name 0 0 == b'C'
    && get_or name 1 0 == b'O'
    && get_or name 2 0 == b'M'
    && leb b'0' (get_or name 3 0)
    && leb (get_or name 3 0) b'9'

unfoldable pub set_port : Option (List ℕ) → Device → Device
set_port none dev = dev
set_port (some name) dev =
    if is_com_port name
    then record dev { path = take 254 name; stablepath = take 254 name }
    else dev

-- The slots, and how many of them this search has filled (`devcount`).
pub record PortSearch : Type 0 where
  pub slots : List Device
  pub count : ℕ

-- What is done with the slot of a device. It is the name in the first slot that has to be there for
-- the port to be looked up.
abbrev pub fill_slot : ℕ → Present → ℕ → PortSearch → PortSearch
fill_slot vid present i found =
    let slots = at_slot i (described_slot vid present.description) found.slots in
    if is_empty_name slots
    then record found { slots = slots }
    else record found { slots = at_slot i (set_port present.port_name) slots }
  where
    is_empty_name : List Device → Bool
    is_empty_name [] = true
    is_empty_name (dev ∷ devs) = is_empty dev.name

-- The slot that knows the serial number, or else a free one, which takes it.
abbrev pub take_slot : ℕ → List ℕ → Present → PortSearch → Option ℕ → Option ℕ → PortSearch
take_slot vid serial present found (some i) free = fill_slot vid present i found
take_slot vid serial present found none none = found
take_slot vid serial present found none (some i) = fill_slot vid present i (record {
  slots = at_slot i (λ dev. record dev { serial = serial }) found.slots;
  count = suc found.count;
})

unfoldable pub on_port_serial : ℕ → List ℕ → Present → PortSearch → PortSearch
on_port_serial vid serial present found =
    take_slot vid serial present found (first_slot (has_serial serial) found.slots)
      (first_slot is_free found.slots)

abbrev pub on_instance : Present → PortSearch → Option (ℕ × List ℕ) → PortSearch
on_instance present found none = found
on_instance present found (some (vid, serial)) = on_port_serial vid serial present found

unfoldable pub on_present : Present → PortSearch → PortSearch
on_present present found = on_instance present found (read_instance present.instance_id)

-- The loop of GetComPort, which stops when the search has filled as many slots as there are.
unfoldable pub port_loop : ℕ → List Present → PortSearch → PortSearch
port_loop max [] found = found
port_loop max (present ∷ rest) found =
    let further = port_loop max rest (on_present present found) in
    if ltb found.count max then further else found

-- GetComPort
abbrev pub get_com_port : ℕ → List Present → List Device → List Device
get_com_port max present slots = (port_loop max present (record { slots = slots; count = 0 })).slots

abbrev pub empty_slot : Device
empty_slot = record { baudrate = 0; name = []; path = []; serial = []; stablepath = [] }

abbrev pub is_listed : Device → Bool
is_listed dev = not (is_empty dev.serial) && not (is_empty dev.path)

abbrev pub listed_count : List Device → ℕ
listed_count [] = 0
listed_count (dev ∷ devs) = if is_listed dev then suc (listed_count devs) else listed_count devs

-- PL_GetDevices: the slots, and how many of them are complete.
unfoldable pub windows_devices : ℕ → List Present → List Present → List Device × ℕ
windows_devices max usb ftdibus =
    let slots = get_com_port max ftdibus (get_com_port max usb (replicate max empty_slot)) in
    (slots, listed_count slots)
