-- ===== src/Protocol/Detect.antt =====
-- What the checksum of PROT_ReceiveFlagged (protocol.c) lets through.
use gcfflashero.Base.{
  ℕ, suc, ◌+◌, ◌-◌, ◌^◌, ◌≤◌, ◌<◌, ◌≡◌, ◌≢◌, ◌∙◌, ap, true, false, List, [], ◌∷◌, ◌++◌, arith,
  length, u16, append-nil, AllBytes, get_or, take, take-suc-suc, length-take, AllBytes-get_or, suc,
}
use gcfflashero.Protocol.{RxState, fr_end, crc_low, crc_high, sub16, crc_valid, frame_end, rx_byte}
use gcfflashero.Protocol.Frame.{sum, stuff, checksum}
use gcfflashero.Protocol.Inv.{IsValid, contents, sum-append}
use gcfflashero.Protocol.Stream.{rx_bytes}
use gcfflashero.Protocol.RoundTrip.{Holds, rx_bytes-framed}

checksum_injective :
    (a b : ℕ) → a < 2 ^ 16 → b < 2 ^ 16 → crc_low a ≡ crc_low b → crc_high a ≡ crc_high b → a ≡ b
checksum_injective a b ha hb low high = omega arith

-- From a valid state of the receiver, the frame of a payload of at most 254 bytes, one byte of
-- which was replaced by another behind the computation of its checksum and before it was escaped,
-- is not delivered, and leaves the receiver idle.
pub corrupted_byte_rejected :
    (rx : RxState) (xs ys : List ℕ) (b b' : ℕ)
    → IsValid rx
    → length (xs ++ b' ∷ ys) ≤ 254
    → b < 256
    → b' < 256
    → b ≢ b'
    → let (rx', packets) =
        rx_bytes rx
          (fr_end ∷ (stuff ((xs ++ b' ∷ ys) ++ checksum (xs ++ b ∷ ys)) ++ fr_end ∷ [])) in
      Holds rx' [] × (packets ≡ (frame_end rx).1)
corrupted_byte_rejected rx xs ys b b' v room hb hb' ne =
    let sent = u16 (sum (xs ++ b ∷ ys)) in
    let (idle, found) =
      rx_bytes-framed rx (xs ++ b' ∷ ys) (crc_low sent) (crc_high sent) v room (omega arith)
        (omega arith) in
    (
      idle,
      found
          ∙ ground (
            arith,
            append-nil (frame_end rx).1,
            checksum_injective (u16 (sum (xs ++ b' ∷ ys))) sent (omega arith) (omega arith),
            sum-append xs (b' ∷ ys),
            sum-append xs (b ∷ ys),
          ),
    )

-- The last two bytes that the buffer holds, where their checksum test passes.
contents-crc_valid :
    (rx : RxState) (k : ℕ)
    → IsValid rx
    → AllBytes rx.buf
    → rx.bufpos ≡ suc (suc k)
    → crc_valid rx ≡ true
    → contents rx ≡ take k rx.buf ++ checksum (take k rx.buf)
unfolding crc_valid
contents-crc_valid rx k v bytes e ok =
    let low = get_or rx.buf k 0 in
    let high = get_or rx.buf (suc k) 0 in
    let one : rx.bufpos - 1 ≡ suc k = omega arith in
    let two : rx.bufpos - 2 ≡ k = omega arith in
    let split : contents rx ≡ take k rx.buf ++ low ∷ high ∷ [] =
      ap (λ n. take n rx.buf) e ∙ take-suc-suc k rx.buf 0 (omega (arith, v.size)) in
    let total : rx.crc ≡ u16 (sum (take k rx.buf) + (low + (high + 0))) =
      v.summed
      ∙ ap (λ t. u16 (sum t)) split
      ∙ ap u16 (sum-append (take k rx.buf) (low ∷ high ∷ [])) in
    let small_low = AllBytes-get_or rx.buf k bytes in
    let small_high = AllBytes-get_or rx.buf (suc k) bytes in
    let left : sub16 (sub16 rx.crc high) low ≡ u16 (sum (take k rx.buf)) = omega arith in
    let same = rw (one, two, left) at ok in split ∙ ground arith

-- From a valid state with bytes in its buffer, a packet is handed over only at a delimiter outside
-- an escape. It has at most 254 bytes, and the packet and a checksum that is right for it are what
-- the receive buffer holds then of the bytes since the last delimiter.
pub delivered_checksummed :
    (rx : RxState) (c : ℕ) {packet : List ℕ}
    → IsValid rx
    → AllBytes rx.buf
    → (rx_byte rx c).1 ≡ packet ∷ []
    → (c ≡ fr_end)
      × (rx.escaped ≡ false)
      × (length packet ≤ 254)
      × (contents rx ≡ packet ++ checksum packet)
unfolding rx_byte frame_end
delivered_checksummed rx c v bytes e =
    ground
      (arith, contents-crc_valid rx (rx.bufpos - 2) v bytes, length-take (rx.bufpos - 2) rx.buf)
