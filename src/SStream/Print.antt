-- ===== src/SStream/Print.antt =====
-- u_sstream.c: the output of integers and of bytes in hexadecimal, and U_sstream_put_u32hex of gcf.c.
use gcfflashero.Base
use gcfflashero.Base.{
  ℕ, zero, suc, ◌+◌, ◌-◌, ◌*◌, ◌/◌, ◌%◌, ◌^◌, List, [], ◌∷◌, ◌++◌, ltb, ◌==◌, if◌then◌else◌, length,
  set, u32, ℤ, bit_and,
}
use gcfflashero.SStream.{SStream, err_no_space, is_ok, room, copy_str}

-- `buf` after the loop: the digits of a number, the last one first. Twenty rounds are enough for
-- 64 bits.
unfoldable pub low_digits : ℕ → ℕ → List ℕ
low_digits zero n = []
low_digits (suc rounds) n =
    let rest = low_digits rounds (n / 10) in (b'0' + n % 10) ∷ (if n / 10 == 0 then [] else rest)

abbrev pub reverse : List ℕ → List ℕ
reverse [] = []
reverse (x ∷ xs) = reverse xs ++ x ∷ []

-- The test for space, the reverse copy, and the NUL.
abbrev pub put_digits : SStream → List ℕ → SStream
put_digits ss buf =
    if ltb (room ss) (length buf + 1)
    then record ss { status = err_no_space }
    else record ss { str = copy_str ss.str ss.pos (reverse buf); pos = ss.pos + length buf }

-- The division of C truncates, so the digits are those of the magnitude.
abbrev pub magnitude : ℤ → ℕ
magnitude (Base.ℤ.pos n) = n
magnitude (Base.ℤ.negsuc n) = suc n

abbrev pub put_sign : SStream → ℤ → SStream
put_sign ss (Base.ℤ.pos n) = ss
put_sign ss (Base.ℤ.negsuc n) = record ss { str = set ss.str ss.pos b'-'; pos = u32 (ss.pos + 1) }

-- U_sstream_put_long, on 64-bit long
unfoldable pub put_long : SStream → ℤ → SStream
put_long ss num =
    if is_ok ss.status then put_digits (put_sign ss num) (low_digits 20 (magnitude num)) else ss

-- U_sstream_put_longlong
unfoldable pub put_longlong : SStream → ℤ → SStream
put_longlong ss num =
    if is_ok ss.status then put_digits (put_sign ss num) (low_digits 20 (magnitude num)) else ss

-- U_sstream_put_ulonglong
unfoldable pub put_ulonglong : SStream → ℕ → SStream
put_ulonglong ss num = if is_ok ss.status then put_digits ss (low_digits 20 num) else ss

-- ss_hex_table
abbrev pub hex_char : ℕ → ℕ
hex_char n = if ltb n 10 then b'0' + n else b'A' + (n - 10)

-- The two characters of each byte.
abbrev pub hex_text : List ℕ → List ℕ
hex_text [] = []
hex_text (b ∷ bs) = hex_char (bit_and b 0xF0 / 16) ∷ hex_char (bit_and b 0x0F) ∷ hex_text bs

-- U_sstream_put_hex, which does not look at the status.
unfoldable pub put_hex : SStream → List ℕ → SStream
put_hex ss bytes =
    if ltb (room ss) (u32 (u32 (length bytes * 2) + 1))
    then record ss { status = err_no_space }
    else record ss {
      str = copy_str ss.str ss.pos (hex_text bytes);
      pos = ss.pos + length bytes * 2;
    }

-- The bytes that U_sstream_put_u32hex (gcf.c) shifts out of a 64-bit number, from bit 31 down.
abbrev pub top_bytes : ℕ → ℕ → List ℕ
top_bytes zero val = []
top_bytes (suc rounds) val = val / 2 ^ 24 % 256 ∷ top_bytes rounds (val * 2 ^ 8 % 2 ^ 64)

-- U_sstream_put_u32hex, with the put_hex of gcf.c
unfoldable pub put_u32hex : SStream → ℕ → SStream
put_u32hex ss val =
    if ltb (room ss) 9
    then record ss { status = err_no_space }
    else record ss { str = copy_str ss.str ss.pos (hex_text (top_bytes 4 val)); pos = ss.pos + 8 }
