-- ===== src/BufferHelper.antt =====
-- buffer_helper.c: little-endian fields behind a moving pointer. The memory is a list of bytes, a
-- pointer an index into it; a put returns the memory and the pointer after the field, a get the
-- value and the pointer after the field. The caller has room for the field, as in C.
pub mod RoundTrip
mod Tests
use gcfflashero.Base.{ℕ, ◌+◌, ◌%◌, ◌^◌, List, bit_and, bit_or, get_or, set, u8, u16, ◌<<<◌, ◌>>>◌}

-- `*out++ = v`
abbrev pub put : List ℕ × ℕ → ℕ → List ℕ × ℕ
put (mem, out) v = (set mem out (u8 v), out + 1)

pub put_u8_le : List ℕ × ℕ → ℕ → List ℕ × ℕ
put_u8_le out v = put out v

pub put_u16_le : List ℕ × ℕ → ℕ → List ℕ × ℕ
put_u16_le out v = let out = put out (bit_and v 0x00FF) in put out (bit_and v 0xFF00 >>> 8)

pub put_u32_le : List ℕ × ℕ → ℕ → List ℕ × ℕ
put_u32_le out v =
    let out = put out (bit_and v 0x000000FF >>> 0) in
    let out = put out (bit_and v 0x0000FF00 >>> 8) in
    let out = put out (bit_and v 0x00FF0000 >>> 16) in put out (bit_and v 0xFF000000 >>> 24)

pub get_u8_le : List ℕ → ℕ → ℕ × ℕ
get_u8_le mem p = (get_or mem p 0, p + 1)

unfoldable pub get_u16_le : List ℕ → ℕ → ℕ × ℕ
get_u16_le mem p = (u16 (bit_or (get_or mem p 0) (get_or mem (p + 1) 0 <<< 8)), p + 2)

-- The casts to unsigned long come before the shifts, so nothing is lost.
unfoldable pub get_u32_le : List ℕ → ℕ → ℕ × ℕ
get_u32_le mem p =
    let v = bit_and (get_or mem p 0) 0xFF in
    let v = bit_or v (bit_and (get_or mem (p + 1) 0 <<< 8) 0x0000FF00) in
    let v = bit_or v (bit_and (get_or mem (p + 2) 0 <<< 16) 0x00FF0000) in
    (bit_or v (bit_and (get_or mem (p + 3) 0 <<< 24) 0xFF000000), p + 4)
