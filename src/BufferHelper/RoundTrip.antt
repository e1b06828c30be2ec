-- ===== src/BufferHelper/RoundTrip.antt =====
-- The fields of buffer_helper.c as numbers, and that a get reads what a put wrote.
use gcfflashero.Base.{
  ℕ, ◌+◌, ◌*◌, ◌/◌, ◌%◌, ◌^◌, ◌≤◌, ◌<◌, ◌⊎◌, ◌≡◌, refl, ◌∙◌, ap, List, arith, bit_and, get_or,
  length, set, u8,
}
use gcfflashero.Base.Bits.{bit_or-shift, bit_and-shift, bit_and-mask, or_up, le32, le32_bytes}
use gcfflashero.Base.Fields.{write2, write4, Field4, write2-Field2, write4-Field4}
use gcfflashero.BufferHelper.{put_u8_le, put_u16_le, put_u32_le, get_u16_le, get_u32_le}

-- `(v & (0xFF << k)) >> k` is the byte at bit k.
mask_byte8 : (v : ℕ) → u8 (bit_and v 0xFF00 / 2 ^ 8) ≡ v / 2 ^ 8 % 256
mask_byte8 v = rw (bit_and-shift 8 v 255, bit_and-mask 8 (v / 2 ^ 8)) (omega arith)

mask_byte16 : (v : ℕ) → u8 (bit_and v 0xFF0000 / 2 ^ 16) ≡ v / 2 ^ 16 % 256
mask_byte16 v = rw (bit_and-shift 16 v 255, bit_and-mask 8 (v / 2 ^ 16)) (omega arith)

mask_byte24 : (v : ℕ) → u8 (bit_and v 0xFF000000 / 2 ^ 24) ≡ v / 2 ^ 24 % 256
mask_byte24 v = rw (bit_and-shift 24 v 255, bit_and-mask 8 (v / 2 ^ 24)) (omega arith)

pub put_u8_lem : (mem : List ℕ) (p v : ℕ) → put_u8_le (mem, p) v ≡ (set mem p (v % 256), p + 1)
unfolding put_u8_le
put_u8_lem mem p v = refl

pub put_u32_lem :
    (mem : List ℕ) (p v : ℕ)
    → put_u32_le (mem, p) v
      ≡ (write4 mem p (v % 256) (v / 2 ^ 8 % 256) (v / 2 ^ 16 % 256) (v / 2 ^ 24 % 256), p + 4)
unfolding put_u32_le
put_u32_lem mem p v =
    let byte0 : u8 (bit_and v 0xFF / 2 ^ 0) ≡ v % 256 = rw (bit_and-mask 8 v) (omega arith) in
    let two : p + 1 + 1 ≡ p + 2 = omega arith in
    let three : p + 2 + 1 ≡ p + 3 = omega arith in
    let four : p + 3 + 1 ≡ p + 4 = omega arith in
    rw (two, three, four, byte0, mask_byte8 v, mask_byte16 v, mask_byte24 v)

-- What get_u32_le reads at four bytes.
pub get_u32_lem :
    (mem : List ℕ) (p a b c d : ℕ)
    → a < 256
    → b < 256
    → c < 256
    → d < 256
    → get_or mem p 0 ≡ a
    → get_or mem (p + 1) 0 ≡ b
    → get_or mem (p + 2) 0 ≡ c
    → get_or mem (p + 3) 0 ≡ d
    → get_u32_le mem p ≡ (le32 a b c d, p + 4)
unfolding get_u32_le
get_u32_lem mem p a b c d ha hb hc hd ea eb ec ed =
    let fa : bit_and a 0xFF ≡ a = bit_and-mask 8 a ∙ omega arith in
    let shift8 : b * 2 ^ 8 / 2 ^ 8 ≡ b = omega arith in
    let shift16 : c * 2 ^ 16 / 2 ^ 16 ≡ c = omega arith in
    let shift24 : d * 2 ^ 24 / 2 ^ 24 ≡ d = omega arith in
    let fb : bit_and (b * 2 ^ 8) 0xFF00 ≡ b * 2 ^ 8 =
      bit_and-shift 8 (b * 2 ^ 8) 255 ∙ rw (shift8, bit_and-mask 8 b) (omega arith) in
    let fc : bit_and (c * 2 ^ 16) 0xFF0000 ≡ c * 2 ^ 16 =
      bit_and-shift 16 (c * 2 ^ 16) 255 ∙ rw (shift16, bit_and-mask 8 c) (omega arith) in
    let fd : bit_and (d * 2 ^ 24) 0xFF000000 ≡ d * 2 ^ 24 =
      bit_and-shift 24 (d * 2 ^ 24) 255 ∙ rw (shift24, bit_and-mask 8 d) (omega arith) in
    rw (ea, eb, ec, ed, fa, fb, fc, fd) (ap (λ t. (t, p + 4)) (or_up a b c d ha hb hc))

-- get_u32_le reads at a place what put_u32_le wrote there, the low 32 bits of the value; both move
-- the pointer by 4.
pub get_u32_le-put_u32_le :
    (mem : List ℕ) (p v : ℕ)
    → p + 4 ≤ length mem
    → let (mem', out) = put_u32_le (mem, p) v in
      (get_u32_le mem' p ≡ (v % 2 ^ 32, p + 4)) × (out ≡ p + 4)
get_u32_le-put_u32_le mem p v room = rw (put_u32_lem mem p v) (
  get_u32_lem _ p _ _ _ _ (omega arith) (omega arith) (omega arith) (omega arith) field.byte0
        field.byte1 field.byte2 field.byte3
      ∙ ap (λ t. (t, p + 4)) (le32_bytes v),
  refl,
)
  where
    field :
        Field4 mem
          (write4 mem p (v % 256) (v / 2 ^ 8 % 256) (v / 2 ^ 16 % 256) (v / 2 ^ 24 % 256))
          p
          (v % 256)
          (v / 2 ^ 8 % 256)
          (v / 2 ^ 16 % 256)
          (v / 2 ^ 24 % 256)
    field = write4-Field4 mem p _ _ _ _ room

-- put_u32_le changes the four bytes at the pointer and no other.
pub put_u32_le_rest :
    (mem : List ℕ) (p v i : ℕ)
    → p + 4 ≤ length mem
    → (i < p) ⊎ (p + 4 ≤ i)
    → let (mem', out) = put_u32_le (mem, p) v in
      (get_or mem' i 0 ≡ get_or mem i 0) × (length mem' ≡ length mem)
put_u32_le_rest mem p v i room apart = rw (put_u32_lem mem p v) (field.rest i apart, field.size)
  where
    field :
        Field4 mem
          (write4 mem p (v % 256) (v / 2 ^ 8 % 256) (v / 2 ^ 16 % 256) (v / 2 ^ 24 % 256))
          p
          (v % 256)
          (v / 2 ^ 8 % 256)
          (v / 2 ^ 16 % 256)
          (v / 2 ^ 24 % 256)
    field = write4-Field4 mem p _ _ _ _ room

pub put_u16_lem :
    (mem : List ℕ) (p v : ℕ)
    → put_u16_le (mem, p) v ≡ (write2 mem p (v % 256) (v / 2 ^ 8 % 256), p + 2)
unfolding put_u16_le
put_u16_lem mem p v =
    let byte0 : u8 (bit_and v 0xFF) ≡ v % 256 = rw (bit_and-mask 8 v) (omega arith) in
    let two : p + 1 + 1 ≡ p + 2 = omega arith in rw (two, byte0, mask_byte8 v)

-- get_u16_le reads at a place what put_u16_le wrote there, for the values of an unsigned short;
-- both move the pointer by 2.
pub get_u16_le-put_u16_le :
    (mem : List ℕ) (p v : ℕ)
    → p + 2 ≤ length mem
    → v < 2 ^ 16
    → let (mem', out) = put_u16_le (mem, p) v in (get_u16_le mem' p ≡ (v, p + 2)) × (out ≡ p + 2)
unfolding get_u16_le
get_u16_le-put_u16_le mem p v room small =
    let field = write2-Field2 mem p (v % 256) (v / 2 ^ 8 % 256) room in
    rw
      (
        put_u16_lem mem p v,
        field.byte0,
        field.byte1,
        bit_or-shift 8 (v % 256) (v / 2 ^ 8 % 256) (omega arith),
      )
      (ap (λ t. (t, p + 2)) (omega arith), refl)
