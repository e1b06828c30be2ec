-- ===== src/BStream/RoundTrip.antt =====
-- u_bstream.c: what a get returns, and that it reads back what a put wrote.
use gcfflashero.Base.{
  ℕ, ◌+◌, ◌%◌, ◌≤◌, ◌<◌, ◌^◌, ◌≡◌, ◌∙◌, ap, arith, length, u64, true, false, lt→ltb, ltb,
}
use gcfflashero.Base.Bits.{le32_bytes}
use gcfflashero.BStream.{
  BStream, Status, ok, is_ok, is_null, memory, byte_at, verify, verify_write, verify_read,
  read_past_end, write_past_end, put_u8, put_u16_le, put_u32_le, get_u8, get_u16_le, get_u16_be,
  get_u32_le, get_u32_be, get, u8_value, u16_le_value, u16_be_value, u32_le_value, u32_be_value, Op,
  u8_put, u16_put, u32_put, u8_got, u16_le_got, u16_be_got, u32_le_got, u32_be_got, step, u32_write,
  u16_write,
}
use gcfflashero.BStream.Reads.{Ready, verify-Ready, next, get_u16_le-Ready, get_u32_le-Ready}
use gcfflashero.BStream.Writes.{rewind, u32_field, u16_field, u32_write-Ready, u16_write-Ready}

-- The bytes that a call puts or gets.
abbrev pub width : Op → ℕ
width (u8_put v) = 1
width (u16_put v) = 2
width (u32_put v) = 4
width u8_got = 1
width u16_le_got = 2
width u16_be_got = 2
width u32_le_got = 4
width u32_be_got = 4

-- The status that it sets where they do not fit.
abbrev pub past_status : Op → Status
past_status (u8_put v) = write_past_end
past_status (u16_put v) = write_past_end
past_status (u32_put v) = write_past_end
past_status _ = read_past_end

module _ (bs : BStream) (fine : bs.status ≡ ok) (backed : is_null bs.bytes ≡ false)
    (small : bs.size + 4 < 2 ^ 64) (within : bs.pos ≤ bs.size) where
  verify_past :
      (past : Status) (n : ℕ)
      → n ≤ 4
      → bs.size < bs.pos + n
      → verify past bs n ≡ (record bs { status = past }, false)
  verify_past past n le over =
      let far : ltb bs.size (u64 (bs.pos + n)) ≡ true = lt→ltb _ _ (omega arith) in
      rw (fine, backed, far)

  get_past :
      (n : ℕ) (value : BStream → ℕ)
      → n ≤ 4
      → bs.size < bs.pos + n
      → get n value bs ≡ (record bs { status = read_past_end }, 0)
  unfolding verify_read
  get_past n value le over = rw (verify_past read_past_end n le over)

  pub get_u32_le_past :
      bs.size < bs.pos + 4 → get_u32_le bs ≡ (record bs { status = read_past_end }, 0)
  unfolding get_u32_le verify_read
  get_u32_le_past over = rw (verify_past read_past_end 4 (omega arith) over)

  -- A call for which the rest of a sound stream is too short sets the status, and does nothing
  -- else: no byte is written, and the position stays.
  pub step_past_end :
      (op : Op) → bs.size < bs.pos + width op → step bs op ≡ record bs { status = past_status op }
  unfolding step put_u8 put_u16_le put_u32_le get_u8 get_u16_le get_u16_be get_u32_le get_u32_be
      verify_write verify_read
  step_past_end (u8_put v) over = rw (verify_past write_past_end 1 (omega arith) over)
  step_past_end (u16_put v) over = rw (verify_past write_past_end 2 (omega arith) over)
  step_past_end (u32_put v) over = rw (verify_past write_past_end 4 (omega arith) over)
  step_past_end u8_got over = ap (λ t. t.0) (get_past 1 u8_value (omega arith) over)
  step_past_end u16_le_got over = ap (λ t. t.0) (get_past 2 u16_le_value (omega arith) over)
  step_past_end u16_be_got over = ap (λ t. t.0) (get_past 2 u16_be_value (omega arith) over)
  step_past_end u32_le_got over = ap (λ t. t.0) (get_past 4 u32_le_value (omega arith) over)
  step_past_end u32_be_got over = ap (λ t. t.0) (get_past 4 u32_be_value (omega arith) over)

pub get_u32_le_failed : (bs : BStream) → is_ok bs.status ≡ false → get_u32_le bs ≡ (bs, 0)
unfolding get_u32_le verify_read
get_u32_le_failed bs e = rw e

-- A 32-bit field that was put is what a get at its place returns, and the position after the get
-- is the one after the put.
pub get-put_u32_le :
    (bs : BStream) (v : ℕ)
    → Ready 4 bs
    → bs.pos + 4 ≤ length (memory bs)
    → let after = put_u32_le bs v in
      let (bs', value) = get_u32_le (rewind bs.pos after) in (value ≡ v % 2 ^ 32) × (bs' ≡ after)
unfolding put_u32_le verify_write
get-put_u32_le bs v r extent =
    let back = rewind bs.pos (u32_write v bs) in
    let field = u32_field bs v extent in
    let ready = u32_write-Ready bs v r in
    let at0 : next back 0 ≡ v % 256 = ap (byte_at back) (omega arith) ∙ field.byte0 in
    let moved : bs.pos + 4 ≡ bs.pos + 1 + 1 + 1 + 1 = omega arith in
    rw
      (
        verify-Ready write_past_end 4 bs (omega arith) r,
        get_u32_le-Ready back ready,
        at0,
        field.byte1,
        field.byte2,
        field.byte3,
      )
      (le32_bytes v, ap (λ p. rewind p (u32_write v bs)) moved)

-- A 16-bit field that was put, with a value of an unsigned short, is what a get at its place
-- returns, and the position after the get is the one after the put.
pub get-put_u16_le :
    (bs : BStream) (v : ℕ)
    → Ready 2 bs
    → bs.pos + 2 ≤ length (memory bs)
    → v < 2 ^ 16
    → let after = put_u16_le bs v in
      let (bs', value) = get_u16_le (rewind bs.pos after) in (value ≡ v) × (bs' ≡ after)
unfolding put_u16_le verify_write
get-put_u16_le bs v r extent small =
    let back = rewind bs.pos (u16_write v bs) in
    let field = u16_field bs v extent in
    let ready = u16_write-Ready bs v r in
    let at0 : next back 0 ≡ v % 256 = ap (byte_at back) (omega arith) ∙ field.byte0 in
    let moved : bs.pos + 2 ≡ bs.pos + 1 + 1 = omega arith in
    rw
      (
        verify-Ready write_past_end 2 bs (omega arith) r,
        get_u16_le-Ready back ready,
        at0,
        field.byte1,
      )
      (omega arith, ap (λ p. rewind p (u16_write v bs)) moved)
