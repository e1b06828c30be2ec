-- ===== src/BStream.antt =====
-- u_bstream.c: a byte stream over a buffer with a sticky status.
pub mod Bounds
pub mod Reads
pub mod Writes
pub mod RoundTrip
mod Tests
use mathlib.Core.Option
use gcfflashero.Base.{
  ℕ, ◌+◌, Bool, true, false, List, ltb, if◌then◌else◌, bit_and, bit_or, get_or, set, u8, u16, u64,
  ◌<<<◌, ◌>>>◌, Option, some, none, [], ◌∷◌,
}

-- U_BStreamStatus
pub data Status : Type 0 where
  ok read_past_end write_past_end not_initialised : Status

-- U_BStream; `bytes` is the memory at `data`, `none` for a null pointer.
pub record BStream : Type 0 where
  pub bytes : Option (List ℕ)
  pub pos : ℕ
  pub size : ℕ
  pub status : Status

unfoldable pub init : Option (List ℕ) → ℕ → BStream
init mem size = record { bytes = mem; pos = 0; size = size; status = ok }

abbrev pub is_ok : Status → Bool
is_ok ok = true
is_ok _ = false

abbrev is_null : Option (List ℕ) → Bool
is_null none = true
is_null (some _) = false

-- U_bstream_verify_write and U_bstream_verify_read differ in the status alone. `unsigned long` is
-- 64 bits wide, so the addition wraps there.
abbrev verify : Status → BStream → ℕ → BStream × Bool
verify past bs n =
    if is_ok bs.status
    then if is_null bs.bytes
      then (record bs { status = not_initialised }, false)
      else if ltb bs.size (u64 (bs.pos + n))
      then (record bs { status = past }, false)
      else (bs, true)
    else (bs, false)

pub verify_write : BStream → ℕ → BStream × Bool
verify_write = verify write_past_end

pub verify_read : BStream → ℕ → BStream × Bool
verify_read = verify read_past_end

abbrev pub memory : BStream → List ℕ
memory bs = elim bs.bytes [ none ↦ [] | some mem ↦ mem ]

-- `bs->data[i]`
abbrev pub byte_at : BStream → ℕ → ℕ
byte_at bs i = get_or (memory bs) i 0

-- `bs->data[bs->pos++] = v`. It runs after a successful check, so `pos` is below `size` and the
-- increment does not wrap.
abbrev put_byte : ℕ → BStream → BStream
put_byte v bs = record bs {
  bytes = Option.map (λ mem. set mem bs.pos (u8 v)) bs.bytes;
  pos = bs.pos + 1;
}

-- What the puts share: nothing is written where the check fails.
abbrev put : ℕ → (BStream → BStream) → BStream → BStream
put n write bs = let (bs, room) = verify_write bs n in if room then write bs else bs

abbrev u16_write : ℕ → BStream → BStream
u16_write v bs = put_byte (bit_and (v >>> 8) 0xFF) (put_byte (bit_and (v >>> 0) 0xFF) bs)

abbrev u32_write : ℕ → BStream → BStream
u32_write v bs =
    let bs = put_byte (bit_and (v >>> 0) 0xFF) bs in
    let bs = put_byte (bit_and (v >>> 8) 0xFF) bs in
    let bs = put_byte (bit_and (v >>> 16) 0xFF) bs in put_byte (bit_and (v >>> 24) 0xFF) bs

pub put_u8 : BStream → ℕ → BStream
put_u8 bs v = put 1 (put_byte v) bs

pub put_u16_le : BStream → ℕ → BStream
put_u16_le bs v = put 2 (u16_write v) bs

pub put_u32_le : BStream → ℕ → BStream
put_u32_le bs v = put 4 (u32_write v) bs

-- `bs->pos += n` after a successful check; it does not wrap.
abbrev skip : ℕ → BStream → BStream
skip n bs = record bs { pos = bs.pos + n }

-- What the gets share: the stream and the value, which is 0 where the check fails.
abbrev get : ℕ → (BStream → ℕ) → BStream → BStream × ℕ
get n value bs =
    let (bs, room) = verify_read bs n in if room then (skip n bs, value bs) else (bs, 0)

abbrev u8_value : BStream → ℕ
u8_value bs = byte_at bs bs.pos

-- `result = data[pos + 1]; result <<= 8; result |= data[pos]` on an unsigned short
abbrev u16_le_value : BStream → ℕ
u16_le_value bs = bit_or (u16 (byte_at bs (bs.pos + 1) <<< 8)) (byte_at bs bs.pos)

abbrev u16_be_value : BStream → ℕ
u16_be_value bs = bit_or (u16 (byte_at bs bs.pos <<< 8)) (byte_at bs (bs.pos + 1))

-- `result = d; result <<= 8; result |= c; …` on an unsigned long
abbrev shift_in : ℕ → ℕ → ℕ → ℕ → ℕ
shift_in d c b a = bit_or (u64 (bit_or (u64 (bit_or (u64 (d <<< 8)) c <<< 8)) b <<< 8)) a

abbrev u32_le_value : BStream → ℕ
u32_le_value bs =
    shift_in (byte_at bs (bs.pos + 3)) (byte_at bs (bs.pos + 2)) (byte_at bs (bs.pos + 1))
      (byte_at bs bs.pos)

abbrev u32_be_value : BStream → ℕ
u32_be_value bs =
    shift_in (byte_at bs bs.pos) (byte_at bs (bs.pos + 1)) (byte_at bs (bs.pos + 2))
      (byte_at bs (bs.pos + 3))

pub get_u8 : BStream → BStream × ℕ
get_u8 = get 1 u8_value

pub get_u16_le : BStream → BStream × ℕ
get_u16_le = get 2 u16_le_value

pub get_u16_be : BStream → BStream × ℕ
get_u16_be = get 2 u16_be_value

pub get_u32_le : BStream → BStream × ℕ
get_u32_le = get 4 u32_le_value

pub get_u32_be : BStream → BStream × ℕ
get_u32_be = get 4 u32_be_value

-- A client's call.
pub data Op : Type 0 where
  u8_put u16_put u32_put : ℕ → Op
  u8_got u16_le_got u16_be_got u32_le_got u32_be_got : Op

pub step : BStream → Op → BStream
step bs (u8_put v) = put_u8 bs v
step bs (u16_put v) = put_u16_le bs v
step bs (u32_put v) = put_u32_le bs v
step bs u8_got = (get_u8 bs).0
step bs u16_le_got = (get_u16_le bs).0
step bs u16_be_got = (get_u16_be bs).0
step bs u32_le_got = (get_u32_le bs).0
step bs u32_be_got = (get_u32_be bs).0

pub run : BStream → List Op → BStream
run bs [] = bs
run bs (op ∷ ops) = run (step bs op) ops
