-- ===== src/SStream/Tests.antt =====
-- Runs of u_sstream.c, and the theorems about it at concrete inputs.
use gcfflashero.Base
use gcfflashero.Base.{
  ℕ, suc, ◌+◌, ◌*◌, ◌-◌, ◌^◌, ◌≤◌, ◌<◌, List, [], ◌∷◌, ◌++◌, replicate, ◌≡◌, ◌⊎◌, arith, refl, some,
  true, false,
}
use gcfflashero.Base.Text.{codes}
use gcfflashero.SStream.Print.{put_long, put_hex, low_digits}
use gcfflashero.SStream.RoundTrip.{reread, get_long-put_long}
use gcfflashero.SStream.Hex.{spelled, put_hex_lem}
use gcfflashero.SStream.Copied.{Copied, put_str_lem}
use gcfflashero.SStream.{
  err_no_space, copy_str, put_str, SStream, ok, find, find_loop, match_count, strtol, digit_loop,
  get_long,
}
use gcfflashero.SStream.Number.{strtol-decimal}
use gcfflashero.SStream.Find.{IsFirst, IsAbsent, find-IsFirst}

abbrev path : SStream
path = record { str = codes "/dev/ttyACM0"; pos = 0; len = 12; status = ok }

find_run : find path (codes "ttyACM") ≡ (record path { pos = 5 }, true)
unfolding find find_loop match_count
find_run = refl

find-IsFirst_example :
    ((p : ℕ) × (find path (codes "ttyACM") ≡ (record path { pos = p }, true))
      × IsFirst path (codes "ttyACM") 0 p)
    ⊎ ((find path (codes "ttyACM") ≡ (path, false)) × IsAbsent path (codes "ttyACM") 0)
find-IsFirst_example = find-IsFirst path (codes "ttyACM")

abbrev number : SStream
number = record { str = codes " 42s"; pos = 0; len = 4; status = ok }

get_long_run : get_long number ≡ (record number { pos = 3 }, Base.ℤ.pos 42)
unfolding get_long strtol digit_loop
get_long_run = refl

-- A number above 2 ^ 64 that is read without an error: the sum wraps to a larger number than before.
strtol_wraps : (strtol (codes "25000000000000000000")).err.overflow ≡ false
unfolding strtol digit_loop
strtol_wraps = refl

digits_read : strtol (codes "42s") ≡ record {
  negative = false;
  result = 42;
  used = 2;
  err = record { invalid = false; overflow = false; underflow = false };
}
digits_read = strtol-decimal b'4' (codes "2") (codes "s") (refl, (refl, tt)) refl (omega arith)

abbrev empty : SStream
empty = record { str = replicate 40 7; pos = 2; len = 40; status = ok }

-- The least long.
put_long_run :
    put_long empty (Base.ℤ.negsuc (2 ^ 63 - 1))
    ≡ record empty { str = 7 ∷ 7 ∷ codes "-9223372036854775808" ++ 0 ∷ replicate 17 7; pos = 22 }
unfolding put_long low_digits copy_str
put_long_run = refl

get_long-put_long_example :
    let ss' = put_long empty (Base.ℤ.negsuc 41) in
    get_long (reread empty ss') ≡ (record (reread empty ss') { pos = ss'.pos }, Base.ℤ.negsuc 41)
get_long-put_long_example =
    get_long-put_long empty (Base.ℤ.negsuc 41) refl refl (omega arith) (omega arith) (omega arith)

-- One byte is left, which the sign takes before the test for space: the text has no NUL any more.
put_long_sign_left :
    put_long (record empty { pos = 39 }) (Base.ℤ.negsuc 4)
    ≡ record { str = replicate 39 7 ++ b'-' ∷ []; pos = 40; len = 40; status = err_no_space }
unfolding put_long low_digits copy_str
put_long_sign_left = refl

put_str_lem_example :
    ((2 + 3 + 1 < 40)
      × ((mem : List ℕ) × Copied (replicate 40 7) mem 2 (codes "abc")
          × (put_str empty (codes "abc") ≡ record empty { str = mem; pos = 5 })))
    ⊎ ((40 ≤ 2 + 3 + 1) × (put_str empty (codes "abc") ≡ record empty { status = err_no_space }))
put_str_lem_example = put_str_lem empty (codes "abc") refl refl (omega arith)

hex_put :
    ((2 + 2 * 2 < 40)
      × ((text : List ℕ) × (mem : List ℕ) × (spelled text ≡ 0xC0 ∷ 7 ∷ [])
          × Copied (replicate 40 7) mem 2 text
          × (put_hex empty (0xC0 ∷ 7 ∷ []) ≡ record empty { str = mem; pos = 6 })))
    ⊎ ((40 ≤ 2 + 2 * 2) × (put_hex empty (0xC0 ∷ 7 ∷ []) ≡ record empty { status = err_no_space }))
hex_put =
    put_hex_lem empty (0xC0 ∷ 7 ∷ []) (omega arith, (omega arith, tt)) refl (omega arith)
      (omega arith) (omega arith)
