-- ===== src/BStream/Tests.antt =====
-- Runs of u_bstream.c, and the theorems about it at concrete inputs.
use gcfflashero.Base.{ℕ, ◌≤◌, ◌≡◌, refl, some, none, List, [], ◌∷◌, arith, length, get_or}
use gcfflashero.BStream.{
  BStream, ok, read_past_end, write_past_end, not_initialised, init, memory, put_u32_le, put_u16_le,
  get_u16_be, get_u32_le, get_u16_le, verify_read, Op, u8_put, u16_put, u32_put, u16_le_got, step,
  run,
}
use gcfflashero.BStream.Bounds.{run_stays_inside, run_failed}
use gcfflashero.BStream.Reads.{Ready}
use gcfflashero.BStream.Writes.{rewind}
use gcfflashero.BStream.RoundTrip.{get-put_u32_le, get-put_u16_le, step_past_end}

abbrev bytes : List ℕ
bytes = 1 ∷ 2 ∷ 3 ∷ 4 ∷ 5 ∷ 6 ∷ []

-- Five of the six bytes.
abbrev stream : BStream
stream = record { bytes = some bytes; pos = 0; size = 5; status = ok }

init-stream : init (some bytes) 5 ≡ stream
unfolding init
init-stream = refl

get-big_endian : get_u16_be stream ≡ (record stream { pos = 2 }, 0x0102)
unfolding get_u16_be verify_read
get-big_endian = refl

null_stream : (get_u16_be (init none 5)).0.status ≡ not_initialised
unfolding get_u16_be verify_read init
null_stream = refl

abbrev script : List Op
script = u32_put 0xCAFEFEED ∷ u16_le_got ∷ u8_put 7 ∷ []

run_stays_inside_example :
    let bs' = run stream script in
    (bs'.pos ≤ bs'.size)
    × (bs'.size ≡ 5)
    × (length (memory bs') ≡ 6)
    × (get_or (memory bs') 5 0 ≡ 6)
run_stays_inside_example = run_stays_inside stream script 5 (omega arith) (omega arith)

abbrev failed : BStream
failed = record stream { status = read_past_end }

error_stays : run failed script ≡ failed
error_stays = run_failed failed script refl

too_short :
    step (record stream { pos = 4 }) (u16_put 7)
    ≡ record stream { pos = 4; status = write_past_end }
too_short =
    step_past_end (record stream { pos = 4 }) refl refl (omega arith) (omega arith) (u16_put 7)
      (omega arith)

stream-Ready : Ready 4 stream
stream-Ready = record { fine = refl; backed = refl; room = omega arith; bytes = omega arith }

u32_read_back :
    let after = put_u32_le stream 0xCAFEFEED in
    let (bs', value) = get_u32_le (rewind 0 after) in (value ≡ 0xCAFEFEED) × (bs' ≡ after)
u32_read_back = get-put_u32_le stream 0xCAFEFEED stream-Ready (omega arith)

stream-Ready_two : Ready 2 stream
stream-Ready_two = record { fine = refl; backed = refl; room = omega arith; bytes = omega arith }

u16_read_back :
    let after = put_u16_le stream 0xBEEF in
    let (bs', value) = get_u16_le (rewind 0 after) in (value ≡ 0xBEEF) × (bs' ≡ after)
u16_read_back = get-put_u16_le stream 0xBEEF stream-Ready_two (omega arith) (omega arith)
