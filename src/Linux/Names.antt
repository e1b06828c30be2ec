-- ===== src/Linux/Names.antt =====
-- The names of /dev/serial/by-id that plGetLinuxUSBDevices (linux_get_usb_devices.c) knows.
use gcfflashero.Base.{
  ℕ, ◌+◌, ◌<◌, ◌≡◌, ◌≢◌, refl, ap, ap₂, ◌∙◌, arith, true, false, Option, none, some, List, [], ◌∷◌,
  ◌++◌, Bool, length, ltb, ◌==◌, if◌then◌else◌, drop,
}
use gcfflashero.Linux.ById.{
  strstr, up_to_dash, con_bee_2, on_con_bee_2, by_id_device, by_id_found, by_id_classified,
  serial_of, base_dir,
}

abbrev pub Without : ℕ → List ℕ → Type 0
Without c [] = Unit
Without c (d ∷ ds) = (c ≢ d) × Without c ds

-- Where the first character of the needle does not occur, the search goes on behind.
strstr-skip :
    (c : ℕ) (cs before text : List ℕ)
    → Without c before
    → strstr (before ++ text) (c ∷ cs) ≡ strstr text (c ∷ cs)
unfolding strstr
strstr-skip c cs [] text free = refl
strstr-skip c cs (d ∷ ds) text free =
    let other : (c == d) ≡ false = ground (arith, free.0) in
    rw other (strstr-skip c cs ds text free.1)

strstr-here : (text : List ℕ) → strstr (con_bee_2 ++ text) con_bee_2 ≡ some (con_bee_2 ++ text)
unfolding strstr
strstr-here text = refl

up_to_dash-append :
    (text rest : List ℕ) → Without b'-' text → up_to_dash (text ++ b'-' ∷ rest) ≡ some text
unfolding up_to_dash
up_to_dash-append [] rest free = refl
up_to_dash-append (c ∷ cs) rest free =
    let other : (c == b'-') ≡ false = ground (arith, free.0) in
    rw (other, up_to_dash-append cs rest free.1) refl

-- A name with ConBee_II in it, and a link to the device.
abbrev pub entry_name : List ℕ → ℕ → List ℕ → List ℕ → List ℕ
entry_name before x serial rest = before ++ (con_bee_2 ++ x ∷ (serial ++ b'-' ∷ rest))

abbrev pub stable_path : List ℕ → List ℕ
stable_path d_name = base_dir ++ b'/' ∷ d_name

-- An entry of /dev/serial/by-id with ConBee_II in its name, and no C before it, is listed under
-- that name with what stands behind one more character, up to the next dash, as serial number, if
-- that has 1 to 17 characters, the paths fit their arrays and the link resolves. That holds too
-- where the one more character is the third I of ConBee_III.
pub by_id_device-con_bee_2 :
    (real_path : List ℕ → Option (List ℕ)) (before : List ℕ) (x : ℕ) (serial rest path : List ℕ)
    → Without b'C' before
    → Without b'-' serial
    → 0 < length serial
    → length serial < 18
    → length (stable_path (entry_name before x serial rest)) < 255
    → real_path (stable_path (entry_name before x serial rest)) ≡ some path
    → length path + 1 < 255
    → by_id_device real_path (entry_name before x serial rest)
      ≡ some (record {
        baudrate = 115200;
        name = con_bee_2;
        path = path;
        serial = serial;
        stablepath = stable_path (entry_name before x serial rest);
      })
by_id_device-con_bee_2 real_path before x serial rest path free undashed named short fits resolved
      fits_path =
    let behind = x ∷ (serial ++ b'-' ∷ rest) in
    let d_name = before ++ (con_bee_2 ++ behind) in
    let stable = base_dir ++ b'/' ∷ d_name in
    let found : strstr d_name con_bee_2 ≡ some (con_bee_2 ++ behind) =
      strstr-skip b'C' (drop 1 con_bee_2) before (con_bee_2 ++ behind) free ∙ strstr-here behind in
    let short_stable : ltb (length stable) 255 ≡ true = ground arith in
    let short_path : ltb (length path + 1) 255 ≡ true = ground arith in
    let short_serial : ltb (length serial) 18 ≡ true = ground arith in
    ap (λ o. by_id_classified real_path d_name (on_con_bee_2 d_name o)) found
    ∙ ap
        (λ b.
          by_id_found (con_bee_2, serial ++ b'-' ∷ rest, 115200) stable
            (if b then real_path stable else none))
        short_stable
    ∙ ap (by_id_found (con_bee_2, serial ++ b'-' ∷ rest, 115200) stable) resolved
    ∙ ap₂
        (λ (b : Bool) s. some (record {
          baudrate = 115200;
          name = con_bee_2;
          path = if b then path else [];
          serial = serial_of s;
          stablepath = stable;
        }))
        short_path (up_to_dash-append serial rest undashed)
    ∙ ap
        (λ (b : Bool). some (record {
          baudrate = 115200;
          name = con_bee_2;
          path = path;
          serial = if b then serial else [];
          stablepath = stable;
        }))
        short_serial
