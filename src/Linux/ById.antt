-- ===== src/Linux/ById.antt =====
-- The search of plGetLinuxUSBDevices (linux_get_usb_devices.c) in /dev/serial/by-id, in a build with
-- NDEBUG. In a build without it an Assert ends the program at an empty serial number, a path that does
-- not fit, and a link that does not resolve.
use gcfflashero.Base.{
  ℕ, ◌+◌, ◌-◌, Bool, true, false, Option, none, some, List, [], ◌∷◌, ◌++◌, ltb, ◌==◌, if◌then◌else◌,
  length, drop,
}
use gcfflashero.Base.Text.{codes}
use gcfflashero.Gcf.{Device}

abbrev pub is_prefix : List ℕ → List ℕ → Bool
is_prefix [] text = true
is_prefix (c ∷ cs) [] = false
is_prefix (c ∷ cs) (d ∷ text) = let rest = is_prefix cs text in if c == d then rest else false

-- strstr(): the text from the first place on where the needle stands.
unfoldable pub strstr : List ℕ → List ℕ → Option (List ℕ)
strstr [] needle = if is_prefix needle [] then some [] else none
strstr (c ∷ cs) needle =
    let later = strstr cs needle in if is_prefix needle (c ∷ cs) then some (c ∷ cs) else later

-- The characters before the first `-`, where there is one.
unfoldable pub up_to_dash : List ℕ → Option (List ℕ)
up_to_dash [] = none
up_to_dash (c ∷ cs) =
    let rest = up_to_dash cs in
    if c == b'-' then some [] else elim rest [ none ↦ none | some text ↦ some (c ∷ text) ]

abbrev pub con_bee_2 : List ℕ
con_bee_2 = codes "ConBee_II"

abbrev pub con_bee_3 : List ℕ
con_bee_3 = codes "ConBee_III"

abbrev pub con_bee_ftdi : List ℕ
con_bee_ftdi = codes "FT230X_Basic_UART"

abbrev pub con_bee_1 : List ℕ
con_bee_1 = codes "ConBee"

-- The name, what stands behind the key and one more character, and the baud rate: the three tests,
-- one after the other. Where the name ends with its key, the code goes on one character behind the
-- NUL; the model has no text there.
abbrev pub on_ftdi : Option (List ℕ) → Option (List ℕ × List ℕ × ℕ)
on_ftdi none = none
on_ftdi (some found) = some (con_bee_1, drop (length con_bee_ftdi + 1) found, 38400)

abbrev pub on_con_bee_3 : List ℕ → Option (List ℕ) → Option (List ℕ × List ℕ × ℕ)
on_con_bee_3 d_name none = on_ftdi (strstr d_name con_bee_ftdi)
on_con_bee_3 d_name (some found) = some (con_bee_3, drop (length con_bee_3 + 1) found, 115200)

abbrev pub on_con_bee_2 : List ℕ → Option (List ℕ) → Option (List ℕ × List ℕ × ℕ)
on_con_bee_2 d_name none = on_con_bee_3 d_name (strstr d_name con_bee_3)
on_con_bee_2 d_name (some found) = some (con_bee_2, drop (length con_bee_2 + 1) found, 115200)

abbrev pub classify : List ℕ → Option (List ℕ × List ℕ × ℕ)
classify d_name = on_con_bee_2 d_name (strstr d_name con_bee_2)

-- The serial number, which fits `serial` of Device with its NUL.
abbrev pub serial_of : Option (List ℕ) → List ℕ
serial_of none = []
serial_of (some text) = if ltb (length text) 18 then text else []

abbrev pub base_dir : List ℕ
base_dir = codes "/dev/serial/by-id"

-- The device, when realpath() has answered. A path of 254 bytes or more is not copied; the model
-- leaves it empty then, as PL_GetDevices does.
abbrev pub by_id_found : List ℕ × List ℕ × ℕ → List ℕ → Option (List ℕ) → Option Device
by_id_found (name, behind, baudrate) stable none = none
by_id_found (name, behind, baudrate) stable (some path) = some (record {
  baudrate = baudrate;
  name = name;
  path = if ltb (length path + 1) 255 then path else [];
  serial = serial_of (up_to_dash behind);
  stablepath = stable;
})

abbrev pub by_id_classified :
    (List ℕ → Option (List ℕ)) → List ℕ → Option (List ℕ × List ℕ × ℕ) → Option Device
by_id_classified real_path d_name none = none
by_id_classified real_path d_name (some kind) =
    let stable = base_dir ++ b'/' ∷ d_name in
    by_id_found kind stable (if ltb (length stable) 255 then real_path stable else none)

-- One entry, unless it is skipped.
abbrev pub by_id_device : (List ℕ → Option (List ℕ)) → List ℕ → Option Device
by_id_device real_path d_name = by_id_classified real_path d_name (classify d_name)

abbrev pub add_device : List Device → List Device → Option Device → List Device
add_device skipped more none = skipped
add_device skipped more (some dev) = dev ∷ more

abbrev pub is_hidden : List ℕ → Bool
is_hidden [] = false
is_hidden (c ∷ cs) = c == b'.'

-- The loop over the directory.
unfoldable pub by_id_loop : (List ℕ → Option (List ℕ)) → List (List ℕ) → ℕ → List Device
by_id_loop real_path [] room = []
by_id_loop real_path (d_name ∷ rest) room =
    let skipped = by_id_loop real_path rest room in
    let more = by_id_loop real_path rest (room - 1) in
    if room == 0
    then []
    else if is_hidden d_name
    then skipped
    else add_device skipped more (by_id_device real_path d_name)

unfoldable pub by_id_devices : Option (List (List ℕ)) → (List ℕ → Option (List ℕ)) → ℕ → List Device
by_id_devices none real_path room = []
by_id_devices (some dir) real_path room = by_id_loop real_path dir room
