-- ===== src/Protocol.antt =====
-- protocol.c: the framed byte protocol of the serial line, PROT_SendFlagged and
-- PROT_ReceiveFlagged with PROT_RxState of protocol.h.
pub mod Frame
pub mod Inv
pub mod Stream
pub mod RoundTrip
pub mod Detect
mod Tests
use gcfflashero.Base.{
  ℕ, zero, suc, ◌+◌, ◌-◌, ◌/◌, ◌%◌, ◌^◌, Bool, true, false, ◌&&◌, Option, none, some, List, [], ◌∷◌,
  ◌++◌, ltb, leb, ◌==◌, if◌then◌else◌, length, get_or, set, take, u16,
}

abbrev pub fr_end : ℕ
fr_end = 0xC0

abbrev pub fr_esc : ℕ
fr_esc = 0xDB

abbrev pub t_fr_end : ℕ
t_fr_end = 0xDC

abbrev pub t_fr_esc : ℕ
t_fr_esc = 0xDD

-- sizeof(rx->buf)
abbrev pub buf_size : ℕ
buf_size = 256

-- `~crc + 1` for an unsigned short that is promoted to a 32-bit int, as its bit pattern.
abbrev pub neg32 : ℕ → ℕ
neg32 crc = (2 ^ 32 - crc) % 2 ^ 32

-- `(~crc + 1) & 0xFF`
abbrev pub crc_low : ℕ → ℕ
crc_low crc = neg32 crc % 256

-- `((~crc + 1) >> 8) & 0xFF`: the bits that the shift brings in from the left are masked.
abbrev pub crc_high : ℕ → ℕ
crc_high crc = neg32 crc / 256 % 256

-- The calls of PROT_Putc for one byte of the payload or of the checksum.
unfoldable pub put_escaped : ℕ → List ℕ
put_escaped c =
    if c == fr_esc
    then fr_esc ∷ t_fr_esc ∷ []
    else if c == fr_end
    then fr_esc ∷ t_fr_end ∷ []
    else c ∷ []

-- The `while` loop of PROT_SendFlagged, over its variables `i` and `crc` (unsigned short) and the
-- bytes put so far. The first argument is fuel, and `none` means that it ran out.
pub send_loop : ℕ → List ℕ → ℕ → ℕ → List ℕ → Option (ℕ × List ℕ)
send_loop zero payload i crc out = none
send_loop (suc fuel) payload i crc out =
    let c = get_or payload i 0 in
    let rest = send_loop fuel payload (u16 (i + 1)) (u16 (crc + c)) (out ++ put_escaped c) in
    if ltb i (length payload) then rest else some (crc, out)

abbrev finish_frame : Option (ℕ × List ℕ) → Option (List ℕ)
finish_frame none = none
finish_frame (some (crc, out)) =
    some (out ++ put_escaped (crc_low crc) ++ put_escaped (crc_high crc) ++ fr_end ∷ [])

-- PROT_SendFlagged: the bytes put until PROT_Flush.
pub send_flagged : ℕ → List ℕ → Option (List ℕ)
send_flagged fuel payload = finish_frame (send_loop fuel payload 0 0 (fr_end ∷ []))

-- PROT_RxState. Of `escaped` only the bit ASC_FLAG is ever set.
pub record RxState : Type 0 where
  pub bufpos : ℕ
  pub crc : ℕ
  pub escaped : Bool
  pub buf : List ℕ

-- `a -= b` on an unsigned short, for a byte b.
abbrev pub sub16 : ℕ → ℕ → ℕ
sub16 a b = u16 (a + 2 ^ 16 - b)

-- The checksum test of a frame whose end has come; the last two bytes of the buffer are the
-- received checksum, and were added to `crc` too.
pub crc_valid : RxState → Bool
crc_valid rx = crc_low sum == low && crc_high sum == high
  where
    high : ℕ
    high = get_or rx.buf (rx.bufpos - 1) 0

    low : ℕ
    low = get_or rx.buf (rx.bufpos - 2) 0

    sum : ℕ
    sum = sub16 (sub16 rx.crc high) low

-- `case FR_END`: the state after it, and what was handed to PROT_Packet, if anything.
pub frame_end : RxState → RxState × List (List ℕ)
frame_end rx = (
  record rx { bufpos = 0; crc = 0; escaped = false },
  if rx.escaped
      then []
      else if leb 2 rx.bufpos && crc_valid rx
      then take (rx.bufpos - 2) rx.buf ∷ []
      else [],
)

-- "we reach here with every byte for the buffer"
pub store : RxState → ℕ → RxState
store rx c =
    if ltb rx.bufpos buf_size
    then record rx { buf = set rx.buf rx.bufpos c; bufpos = rx.bufpos + 1; crc = u16 (rx.crc + c) }
    else rx

-- The byte after FR_ESC; any but the two codes is dropped.
pub store_unescaped : RxState → ℕ → RxState
store_unescaped rx c =
    if c == t_fr_esc then store rx fr_esc else if c == t_fr_end then store rx fr_end else rx

-- One round of the loop of PROT_ReceiveFlagged.
pub rx_byte : RxState → ℕ → RxState × List (List ℕ)
rx_byte rx c =
    if c == fr_end
    then frame_end rx
    else if c == fr_esc
    then (record rx { escaped = true }, [])
    else if rx.escaped
    then (store_unescaped (record rx { escaped = false }) c, [])
    else (store rx c, [])

-- The loop of PROT_ReceiveFlagged over `pos` (unsigned short), with fuel as in `send_loop`; the
-- list collects the packets handed to PROT_Packet.
pub receive_loop : ℕ → List ℕ → ℕ → RxState → List (List ℕ) → Option (RxState × List (List ℕ))
receive_loop zero input pos rx packets = none
receive_loop (suc fuel) input pos rx packets =
    let (rx', found) = rx_byte rx (get_or input pos 0) in
    let rest = receive_loop fuel input (u16 (pos + 1)) rx' (packets ++ found) in
    if ltb pos (length input) then rest else some (rx, packets)

-- PROT_ReceiveFlagged; its early return at `len == 0` is the loop that makes no round.
pub receive_flagged : ℕ → RxState → List ℕ → Option (RxState × List (List ℕ))
receive_flagged fuel rx input = receive_loop fuel input 0 rx []
