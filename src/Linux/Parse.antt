-- ===== src/Linux/Parse.antt =====
-- The parser of the output of udevadm in linux_get_usb_devices.c: it ends, and its fields fit.
use gcfflashero.Base.{
  ℕ, zero, suc, ◌+◌, ◌-◌, ◌≤◌, ◌<◌, ◌≡◌, refl, sym, ◌∙◌, subst, arith, Bool, inl, inr, true, false,
  ◌&&◌, Option, none, some, List, [], ◌∷◌, ltb, length, if_both, if_cases,
}
use gcfflashero.Base.Text.{codes}
use gcfflashero.SStream.{SStream, init, find, starts_with, remaining, peek_char}
use gcfflashero.SStream.Find.{find-IsFirst}
use gcfflashero.Linux.Udev.{
  Usb, copy_value, value_at, is_alnum, is_name_char, parse_line, parse_loop, parse_output, no_usb,
  on_model, on_serial, on_vendor,
}

abbrev pub AllAccepted : (ℕ → Bool) → List ℕ → Type 0
AllAccepted accepts [] = Unit
AllAccepted accepts (c ∷ cs) = (accepts c ≡ true) × AllAccepted accepts cs

-- A value of at most `limit` characters of a kind.
abbrev pub Field : (ℕ → Bool) → ℕ → List ℕ → Type 0
Field accepts limit text = (length text ≤ limit) × AllAccepted accepts text

-- Serial number and name fit their arrays with the NUL, and hold the characters that are meant.
pub record IsUsb (usb : Usb) : Type 0 where
  pub serial : Field is_alnum 17 usb.serial
  pub name : Field is_name_char 31 usb.name

-- The stream does not move back, and keeps its length.
abbrev pub MovesOn : SStream → SStream → Type 0
MovesOn ss ss' = (ss.pos ≤ ss'.pos) × (ss'.len ≡ ss.len)

copy_value-MovesOn :
    (accepts : ℕ → Bool) (limit : ℕ) (ss : SStream) → MovesOn ss (copy_value accepts limit ss).0
unfolding copy_value
copy_value-MovesOn accepts zero ss = (omega arith, refl)
copy_value-MovesOn accepts (suc limit) ss =
    let (ss', more) = copy_value accepts limit (record ss { pos = ss.pos + 1 }) in
    let (on, same) = copy_value-MovesOn accepts limit (record ss { pos = ss.pos + 1 }) in
    if_both (λ (r : SStream × List ℕ). MovesOn ss r.0) (ltb ss.pos ss.len && accepts (peek_char ss))
      (ss', peek_char ss ∷ more) (ss, []) (omega arith, same) (omega arith, refl)

pub and_right : (a : Bool) {b : Bool} → (a && b) ≡ true → b ≡ true
and_right true e = e
and_right false e = absurd (ground (arith, e))

copy_value-Field :
    (accepts : ℕ → Bool) (limit : ℕ) (ss : SStream)
    → Field accepts limit (copy_value accepts limit ss).1
unfolding copy_value
copy_value-Field accepts zero ss = (omega arith, tt)
copy_value-Field accepts (suc limit) ss =
    let (ss', more) = copy_value accepts limit (record ss { pos = ss.pos + 1 }) in
    let (short, all) = copy_value-Field accepts limit (record ss { pos = ss.pos + 1 }) in
    if_cases (λ (r : SStream × List ℕ). Field accepts (suc limit) r.1)
      (ltb ss.pos ss.len && accepts (peek_char ss)) (ss', peek_char ss ∷ more) (ss, [])
      (λ e. (omega arith, (and_right (ltb ss.pos ss.len) e, all))) (λ e. (omega arith, tt))

find-MovesOn : (ss : SStream) (needle : List ℕ) → MovesOn ss (find ss needle).0
find-MovesOn ss needle = elim (find-IsFirst ss needle) [
  | inl (p, e, first) ↦ subst (λ r. MovesOn ss r.0) (sym e) (first.from_start, refl)
  | inr (e, absent) ↦ subst (λ r. MovesOn ss r.0) (sym e) (omega arith, refl)
]

abbrev At : SStream → Option SStream → Type 0
At ss none = Unit
At ss (some value) = MovesOn ss value

value_at-At : (ss : SStream) (key : List ℕ) → At ss (value_at ss key)
value_at-At ss key =
    let (ss', found) = find ss (codes "=") in
    let (on, same) = find-MovesOn ss (codes "=") in
    if_both (At ss) (starts_with ss key && found) (some (record ss' { pos = ss'.pos + 1 })) none
      (omega arith, same) tt

abbrev Kept : SStream → SStream × Usb → Type 0
Kept ss (ss', usb) = MovesOn ss ss' × IsUsb usb

read-Kept :
    (accepts : ℕ → Bool) (limit : ℕ) (ss value : SStream)
    → MovesOn ss value
    → MovesOn ss (copy_value accepts limit value).0
read-Kept accepts limit ss value on =
    let more = copy_value-MovesOn accepts limit value in (omega arith, more.1 ∙ on.1)

on_model-Kept :
    (ss : SStream) (usb : Usb) (o : Option SStream)
    → IsUsb usb
    → At ss o
    → Kept ss (on_model ss usb o)
on_model-Kept ss usb none h on = ((omega arith, refl), h)
on_model-Kept ss usb (some value) h on = (
  read-Kept is_name_char 31 ss value on,
  record { serial = h.serial; name = copy_value-Field is_name_char 31 value },
)

on_serial-Kept :
    (ss : SStream) (usb : Usb) (o : Option SStream)
    → IsUsb usb
    → At ss o
    → Kept ss (on_serial ss usb o)
on_serial-Kept ss usb none h on =
    on_model-Kept ss usb (value_at ss (codes "ID_USB_MODEL=")) h
      (value_at-At ss (codes "ID_USB_MODEL="))
on_serial-Kept ss usb (some value) h on = (
  read-Kept is_alnum 17 ss value on,
  record { serial = copy_value-Field is_alnum 17 value; name = h.name },
)

on_vendor-Kept :
    (ss : SStream) (usb : Usb) (o : Option SStream)
    → IsUsb usb
    → At ss o
    → Kept ss (on_vendor ss usb o)
on_vendor-Kept ss usb none h on =
    on_serial-Kept ss usb (value_at ss (codes "ID_USB_SERIAL_SHORT=")) h
      (value_at-At ss (codes "ID_USB_SERIAL_SHORT="))
on_vendor-Kept ss usb (some value) h on = (on, record { serial = h.serial; name = h.name })

parse_line-Kept : (ss : SStream) (usb : Usb) → IsUsb usb → Kept ss (parse_line ss usb)
unfolding parse_line
parse_line-Kept ss usb h =
    on_vendor-Kept ss usb (value_at ss (codes "ID_USB_VENDOR_ID=")) h
      (value_at-At ss (codes "ID_USB_VENDOR_ID="))

remaining_inside : (ss : SStream) → ltb 8 (remaining ss) ≡ true → ss.pos < ss.len
unfolding remaining
remaining_inside ss e = ground (arith, e)

-- A result there is, and it is sound.
abbrev pub Parsed : Option Usb → Type 0
Parsed none = ⊥
Parsed (some usb) = IsUsb usb

-- Each round moves on, so one more round than there are characters is enough.
parse_loop-Parsed :
    (fuel : ℕ) (ss : SStream) (usb : Usb)
    → ss.len - ss.pos < fuel
    → IsUsb usb
    → Parsed (parse_loop fuel ss usb)
unfolding parse_loop
parse_loop-Parsed zero ss usb enough h = absurd (omega arith)
parse_loop-Parsed (suc fuel) ss usb enough h =
    let (here, found) = find ss (codes "E: ") in
    let (on, same) = find-MovesOn ss (codes "E: ") in
    let (next, usb') = parse_line (record here { pos = here.pos + 3 }) usb in
    let ((on', same'), h') = parse_line-Kept (record here { pos = here.pos + 3 }) usb h in
    if_cases Parsed (found && ltb 8 (remaining here)) (parse_loop fuel next usb') (some usb)
      (λ e.
        let inside = remaining_inside here (and_right found e) in
        parse_loop-Parsed fuel next usb' (omega arith) h')
      (λ e. h)

no_usb-IsUsb : IsUsb no_usb
no_usb-IsUsb = record { serial = (omega arith, tt); name = (omega arith, tt) }

-- The fuel is enough for any output, and what is read fits.
pub parse_output-Parsed : (output : List ℕ) → Parsed (parse_output output)
unfolding parse_output init
parse_output-Parsed output =
    let n = length output in
    if_both Parsed (ltb 0 n && ltb n 16383) (parse_loop (suc n) (init (some output) n) no_usb)
      (some no_usb)
      (parse_loop-Parsed (suc n) (init (some output) n) no_usb (omega arith) no_usb-IsUsb)
      no_usb-IsUsb
