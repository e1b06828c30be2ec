-- ===== src/BufferHelper/Tests.antt =====
-- Runs of buffer_helper.c, and the theorems about it at concrete inputs.
use gcfflashero.Base.{ℕ, ◌≡◌, refl, inr, List, [], ◌∷◌, arith, length, get_or}
use gcfflashero.BufferHelper.{put_u8_le, put_u16_le, put_u32_le, get_u8_le, get_u16_le, get_u32_le}
use gcfflashero.BufferHelper.RoundTrip.{
  get_u32_le-put_u32_le, put_u32_le_rest, get_u16_le-put_u16_le,
}

abbrev memory : List ℕ
memory = 1 ∷ 2 ∷ 3 ∷ 4 ∷ 5 ∷ 6 ∷ []

put-cafefeed : put_u32_le (memory, 1) 0xCAFEFEED ≡ (1 ∷ 0xED ∷ 0xFE ∷ 0xFE ∷ 0xCA ∷ 6 ∷ [], 5)
unfolding put_u32_le
put-cafefeed = refl

put-byte : put_u8_le (memory, 5) 0x1AC ≡ (1 ∷ 2 ∷ 3 ∷ 4 ∷ 5 ∷ 0xAC ∷ [], 6)
unfolding put_u8_le
put-byte = refl

get-byte : get_u8_le memory 2 ≡ (3, 3)
unfolding get_u8_le
get-byte = refl

get_u32_le-put_u32_le_example :
    let (mem, out) = put_u32_le (memory, 1) 0x1CAFEFEED in
    (get_u32_le mem 1 ≡ (0xCAFEFEED, 5)) × (out ≡ 5)
get_u32_le-put_u32_le_example = get_u32_le-put_u32_le memory 1 0x1CAFEFEED (omega arith)

four_bytes_put :
    let (mem, out) = put_u32_le (memory, 1) 0xCAFEFEED in (get_or mem 5 0 ≡ 6) × (length mem ≡ 6)
four_bytes_put = put_u32_le_rest memory 1 0xCAFEFEED 5 (omega arith) (inr (omega arith))

short_read_back :
    let (mem, out) = put_u16_le (memory, 0) 0xBEEF in (get_u16_le mem 0 ≡ (0xBEEF, 2)) × (out ≡ 2)
short_read_back = get_u16_le-put_u16_le memory 0 0xBEEF (omega arith) (omega arith)
