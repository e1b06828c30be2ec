-- ===== src/Linux/Fits.antt =====
-- What query_udevadm (linux_get_usb_devices.c) lists fits the arrays it is given.
use gcfflashero.Base.{
  ℕ, ◌-◌, ◌≤◌, ◌<◌, ◌≡◌, arith, true, not, ◌&&◌, Option, none, some, List, [], ◌∷◌, ◌==◌, length,
  is_empty, if◌then◌else◌, if_both, if_cases,
}
use gcfflashero.Base.Text.{codes}
use gcfflashero.Gcf.{Device}
use gcfflashero.Linux.Udev.{
  Entry, Usb, query_entry, query_dir, query_udevadm, parse_output, described, judged, judge_usb,
  dev_path, is_tty, info_command, listed, cons_to, has_udevadm,
}
use gcfflashero.Linux.Parse.{and_right, IsUsb, Parsed, parse_output-Parsed}

-- The texts fit `name` and `serial` of Device with their NUL, and there is a name.
pub record Fits (dev : Device) : Type 0 where
  pub name : length dev.name < 32
  pub serial : length dev.serial < 18
  pub named : 0 < length dev.name

abbrev pub AllFit : List Device → Type 0
AllFit [] = Unit
AllFit (dev ∷ devs) = Fits dev × AllFit devs

abbrev pub FitsIfAny : Option Device → Type 0
FitsIfAny none = Unit
FitsIfAny (some dev) = Fits dev

positive : {A : Type 0} (xs : List A) → not (is_empty xs) ≡ true → 0 < length xs
positive [] e = absurd (ground (arith, e))
positive (x ∷ xs) e = omega arith

judge_usb-FitsIfAny : (path : List ℕ) (usb : Usb) → IsUsb usb → FitsIfAny (judge_usb path usb)
judge_usb-FitsIfAny path usb h =
    let ch340 = usb.vendor == 0x1a86 in
    let serial = if ch340 && is_empty usb.serial then codes "1" else usb.serial in
    let short =
      if_both (λ (t : List ℕ). length t < 18) (ch340 && is_empty usb.serial) (codes "1") usb.serial
        (omega arith) (omega (arith, h.serial.0)) in
    let dev : Device = record {
      baudrate = if ch340 then 115200 else usb.baudrate;
      name = usb.name;
      path = path;
      serial = serial;
      stablepath = path;
    } in
    if_cases FitsIfAny (not (usb.vendor == 0) && not (is_empty serial) && not (is_empty usb.name))
      (some dev) none
      (λ e. record {
        name = omega (arith, h.name.0);
        serial = short;
        named = positive usb.name (and_right (not (usb.vendor == 0) && not (is_empty serial)) e);
      })
      (λ e. tt)

-- A result there is, and it fits.
abbrev Looked : Option (Option Device) → Type 0
Looked none = ⊥
Looked (some o) = FitsIfAny o

judged-Looked : (path : List ℕ) (o : Option Usb) → Parsed o → Looked (judged path o)
judged-Looked path none parsed = parsed
judged-Looked path (some usb) parsed = judge_usb-FitsIfAny path usb parsed

described-Looked : (path : List ℕ) (o : Option (List ℕ)) → Looked (described path o)
described-Looked path none = tt
described-Looked path (some output) =
    judged-Looked path (parse_output output) (parse_output-Parsed output)

-- A list there is, not too long, and of devices that fit.
abbrev pub Listed : ℕ → Option (List Device) → Type 0
Listed room none = ⊥
Listed room (some devs) = (length devs ≤ room) × AllFit devs

cons_to-Listed :
    (room : ℕ) (dev : Device) (more : Option (List Device))
    → 0 < room
    → Fits dev
    → Listed (room - 1) more
    → Listed room (cons_to dev more)
cons_to-Listed room dev none some_room fits l = l
cons_to-Listed room dev (some devs) some_room fits l = (omega (arith, l.0), (fits, l.1))

listed-Listed :
    (room : ℕ) (skipped more : Option (List Device)) (o : Option (Option Device))
    → 0 < room
    → Listed room skipped
    → Listed (room - 1) more
    → Looked o
    → Listed room (listed skipped more o)
listed-Listed room skipped more none some_room s m looked = looked
listed-Listed room skipped more (some none) some_room s m looked = s
listed-Listed room skipped more (some (some dev)) some_room s m looked =
    cons_to-Listed room dev more some_room looked m

query_dir-Listed :
    (stat : List ℕ → Option ℕ) (info : List ℕ → Option (List ℕ)) (dir : List Entry) (room : ℕ)
    → Listed room (query_dir stat info dir room)
unfolding query_dir
query_dir-Listed stat info [] room = (omega arith, tt)
query_dir-Listed stat info (entry ∷ rest) room =
    let skipped = query_dir stat info rest room in
    let more = query_dir stat info rest (room - 1) in
    let looked =
      if_both Looked (is_tty (stat (dev_path entry.d_name)))
        (described (dev_path entry.d_name) (info (info_command entry.d_name))) (some none)
        (described-Looked (dev_path entry.d_name) (info (info_command entry.d_name))) tt in
    let found = listed skipped more (query_entry stat info entry.d_name) in
    if_both (Listed room) (not entry.is_chr) skipped (if room == 0 then some [] else found)
      (query_dir-Listed stat info rest room)
      (if_cases (Listed room) (room == 0) (some []) found (λ e. (omega arith, tt))
        (λ e.
          listed-Listed room skipped more (query_entry stat info entry.d_name) (ground (arith, e))
            (query_dir-Listed stat info rest room) (query_dir-Listed stat info rest (room - 1))
            looked))

pub query_udevadm-Listed :
    (version : Option (List ℕ)) (dir : Option (List Entry)) (stat : List ℕ → Option ℕ)
    (info : List ℕ → Option (List ℕ)) (room : ℕ)
    → Listed room (query_udevadm version dir stat info room)
unfolding query_udevadm
query_udevadm-Listed version none stat info room = (omega arith, tt)
query_udevadm-Listed version (some dir) stat info room =
    if_both (Listed room) (has_udevadm version) (query_dir stat info dir room) (some [])
      (query_dir-Listed stat info dir room) (omega arith, tt)
