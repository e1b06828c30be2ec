-- ===== src/Protocol/Tests.antt =====
-- Runs of the frame protocol (protocol.c), and the theorems about it at concrete inputs.
use gcfflashero.Base.{
  ℕ, suc, ◌≡◌, ◌≤◌, ◌^◌, refl, none, some, false, List, [], ◌∷◌, ◌++◌, arith, length, replicate,
  length-replicate,
}
use gcfflashero.Protocol.{
  RxState, put_escaped, send_loop, send_flagged, crc_valid, frame_end, rx_byte, receive_flagged,
  fr_end,
}
use gcfflashero.Protocol.Frame.{
  frame, stuff, checksum, send_flagged-eq-frame, send_flagged_diverges,
}
use gcfflashero.Protocol.Inv.{IsValid, contents}
use gcfflashero.Protocol.Stream.{
  rx_bytes, rx_bytes-IsValid, ◌>>=◌, receive_flagged-eq-rx_bytes, receive_flagged_chunks,
}
use gcfflashero.Protocol.RoundTrip.{Holds, receive_flagged-send_flagged, rx_bytes-frames, frames}
use gcfflashero.Protocol.Detect.{corrupted_byte_rejected, delivered_checksummed}

-- After `U_bzero`.
abbrev fresh : RxState
fresh = record { bufpos = 0; crc = 0; escaped = false; buf = replicate 256 0 }

-- The request for the bootloader's id, and a payload of the two codes that are escaped.
abbrev id_request : List ℕ
id_request = 0x81 ∷ 0x02 ∷ []

abbrev codes : List ℕ
codes = 0xC0 ∷ 0xDB ∷ []

send-id_request : send_flagged 3 id_request ≡ some (0xC0 ∷ 0x81 ∷ 0x02 ∷ 0x7D ∷ 0xFF ∷ 0xC0 ∷ [])
unfolding send_flagged send_loop put_escaped
send-id_request = refl

send-codes :
    send_flagged 3 codes ≡ some (0xC0 ∷ 0xDB ∷ 0xDC ∷ 0xDB ∷ 0xDD ∷ 0x65 ∷ 0xFE ∷ 0xC0 ∷ [])
unfolding send_flagged send_loop put_escaped
send-codes = refl

fresh-IsValid : IsValid fresh
fresh-IsValid = omega arith

fresh-Holds : Holds fresh []
fresh-Holds = record { valid = fresh-IsValid; plain = refl; count = refl; bytes = refl }

send_flagged-eq-frame_example : send_flagged 3 codes ≡ some (frame codes)
send_flagged-eq-frame_example = send_flagged-eq-frame codes (omega arith)

send_flagged_diverges_example : send_flagged 5 (replicate (2 ^ 16) 7) ≡ none
send_flagged_diverges_example =
    send_flagged_diverges 5 (replicate (2 ^ 16) 7)
      (omega (arith, length-replicate {0} {A = ℕ} (2 ^ 16) 7))

receive_flagged-eq-rx_bytes_example : receive_flagged 3 fresh codes ≡ some (rx_bytes fresh codes)
receive_flagged-eq-rx_bytes_example = receive_flagged-eq-rx_bytes fresh codes (omega arith)

two_calls : receive_flagged 5 fresh (id_request ++ codes) ≡ (do
  (rx', found) ← receive_flagged 3 fresh id_request
  (rx'', later) ← receive_flagged 3 rx' codes
  some (rx'', found ++ later))
two_calls = receive_flagged_chunks fresh id_request codes (omega arith)

receive_flagged-send_flagged_example :
    (wire : List ℕ) × (rx' : RxState) × (send_flagged 3 codes ≡ some wire)
    × (receive_flagged (suc (length wire)) fresh wire
        ≡ some (rx', (frame_end fresh).1 ++ codes ∷ []))
    × Holds rx' []
receive_flagged-send_flagged_example =
    receive_flagged-send_flagged fresh codes fresh-IsValid (omega arith)

rx_bytes-IsValid_example : IsValid (rx_bytes fresh codes).0
rx_bytes-IsValid_example = rx_bytes-IsValid fresh codes fresh-IsValid

rx_bytes-frames_example :
    let (rx', packets) = rx_bytes fresh (frames (id_request ∷ codes ∷ [])) in
    Holds rx' [] × (packets ≡ id_request ∷ codes ∷ [])
rx_bytes-frames_example = rx_bytes-frames fresh (id_request ∷ codes ∷ []) fresh-Holds (omega arith)

-- The byte 0x02 is replaced by 0x03 before it is escaped.
corrupted_byte_rejected_example :
    let (rx', packets) =
      rx_bytes fresh
        (fr_end ∷ (stuff ((0x81 ∷ 0x03 ∷ []) ++ checksum id_request) ++ fr_end ∷ [])) in
    Holds rx' [] × (packets ≡ (frame_end fresh).1)
corrupted_byte_rejected_example =
    corrupted_byte_rejected fresh (0x81 ∷ []) [] 0x02 0x03 fresh-IsValid (omega arith) (omega arith)
      (omega arith) (omega arith)

abbrev received : RxState
received = record {
  bufpos = 4;
  crc = 0x1FF;
  escaped = false;
  buf = 0x81 ∷ 0x02 ∷ 0x7D ∷ 0xFF ∷ replicate 252 0;
}

received-delivers : (rx_byte received fr_end).1 ≡ id_request ∷ []
unfolding rx_byte frame_end crc_valid
received-delivers = refl

delivered_checksummed_example :
    ◌≡◌ {A = ℕ} fr_end fr_end
    × (received.escaped ≡ false)
    × (length id_request ≤ 254)
    × (contents received ≡ id_request ++ checksum id_request)
delivered_checksummed_example =
    delivered_checksummed received fr_end (omega arith) (omega arith) received-delivers
