-- ===== src/Protocol/RoundTrip.antt =====
-- What was framed by PROT_SendFlagged is delivered by PROT_ReceiveFlagged (protocol.c).
use gcfflashero.Base.{
  ℕ, suc, ◌+◌, ◌-◌, ◌*◌, ◌≤◌, ◌<◌, ◌≡◌, refl, sym, ◌∙◌, ap, false, ◌&&◌, some, List, [], ◌∷◌, ◌++◌,
  arith, length, get_or, take, u16, append_assoc, append-nil, length-append, take-take, take-append,
  get_or-take, get_or-append_right, ◌==◌, if◌then◌else◌,
}
use gcfflashero.Protocol.{
  RxState, fr_end, buf_size, put_escaped, crc_low, crc_high, crc_valid, sub16, frame_end, store,
  store_unescaped, rx_byte, send_flagged, receive_flagged,
}
use gcfflashero.Protocol.Frame.{sum, stuff, checksum, frame, send_flagged-eq-frame}
use gcfflashero.Protocol.Inv.{
  IsValid, contents, contents-store, store-IsValid, frame_end-IsValid, sum-append,
}
use gcfflashero.Protocol.Stream.{rx_bytes, rx_bytes-append, receive_flagged-eq-rx_bytes}

-- The bytes of a frame in its course: no escape is open, and the buffer holds `xs`.
pub record Holds (rx : RxState) (xs : List ℕ) : Type 0 where
  pub valid : IsValid rx
  pub plain : rx.escaped ≡ false
  pub count : rx.bufpos ≡ length xs
  pub bytes : contents rx ≡ xs

stored : RxState → List ℕ → RxState
stored rx [] = rx
stored rx (x ∷ xs) = stored (store rx x) xs

store-plain : (rx : RxState) (c : ℕ) → (store rx c).escaped ≡ rx.escaped
unfolding store
store-plain rx c = ground arith

bufpos-store : (rx : RxState) (c : ℕ) → rx.bufpos < buf_size → (store rx c).bufpos ≡ rx.bufpos + 1
unfolding store
bufpos-store rx c h = ground arith

store-Holds :
    (rx : RxState) (xs : List ℕ) (c : ℕ)
    → Holds rx xs
    → length xs < buf_size
    → Holds (store rx c) (xs ++ c ∷ [])
store-Holds rx xs c h room = record {
  valid = store-IsValid rx c h.valid;
  plain = store-plain rx c ∙ h.plain;
  count = omega (arith, bufpos-store rx c, h.count, length-append {0} xs (c ∷ []));
  bytes = contents-store rx c h.valid (omega arith) ∙ ap (λ t. t ++ c ∷ []) h.bytes;
}

stored-Holds :
    (rx : RxState) (xs ys : List ℕ)
    → Holds rx xs
    → length xs + length ys ≤ buf_size
    → Holds (stored rx ys) (xs ++ ys)
unfolding stored
stored-Holds rx xs [] h room = rw append-nil h
stored-Holds rx xs (y ∷ ys) h room = rw (← append_assoc xs (y ∷ []) ys) (
    stored-Holds (store rx y) (xs ++ y ∷ []) ys (store-Holds rx xs y h (omega arith))
      (omega (arith, length-append {0} xs (y ∷ []))))

-- An escaped byte arrives as the byte.
rx_bytes-put_escaped :
    (rx : RxState) (b : ℕ) (rest : List ℕ)
    → rx.escaped ≡ false
    → rx_bytes rx (put_escaped b ++ rest) ≡ rx_bytes (store rx b) rest
unfolding rx_bytes put_escaped rx_byte store_unescaped
rx_bytes-put_escaped rx b rest h = ground arith

rx_bytes-stuff :
    (rx : RxState) (xs rest : List ℕ)
    → rx.escaped ≡ false
    → rx_bytes rx (stuff xs ++ rest) ≡ rx_bytes (stored rx xs) rest
unfolding stuff stored
rx_bytes-stuff rx [] rest h = refl
rx_bytes-stuff rx (x ∷ xs) rest h = rw append_assoc (
    rx_bytes-put_escaped rx x (stuff xs ++ rest) h
    ∙ rx_bytes-stuff (store rx x) xs rest (store-plain rx x ∙ h))

module _ (rx : RxState) (xs : List ℕ) (low high : ℕ) (h : Holds rx (xs ++ low ∷ high ∷ [])) where
  bufpos_at : rx.bufpos ≡ suc (suc (length xs))
  bufpos_at = omega (arith, h.count, length-append {0} xs (low ∷ high ∷ []))

  byte_at : (i : ℕ) → i < 2 → get_or rx.buf (length xs + i) 0 ≡ get_or (low ∷ high ∷ []) i 0
  byte_at i lt =
      sym (get_or-take rx.bufpos (length xs + i) rx.buf 0 (omega (arith, bufpos_at)))
      ∙ ap (λ t. get_or t (length xs + i) 0) h.bytes
      ∙ get_or-append_right xs (low ∷ high ∷ []) i 0

  payload_at : take (length xs) rx.buf ≡ xs
  payload_at =
      sym (take-take (length xs) rx.bufpos rx.buf (omega (arith, bufpos_at)))
      ∙ ap (take (length xs)) h.bytes
      ∙ take-append xs (low ∷ high ∷ [])

  sum_at : low < 256 → high < 256 → sub16 (sub16 rx.crc high) low ≡ u16 (sum xs)
  sum_at lo hi = omega (arith, h.valid.summed, ap sum h.bytes, sum-append xs (low ∷ high ∷ []))

  -- At the end of a frame the payload is handed over exactly if its checksum is right.
  pub frame_end-Holds :
      low < 256
      → high < 256
      → (frame_end rx).1
        ≡ (if crc_low (u16 (sum xs)) == low && crc_high (u16 (sum xs)) == high then xs ∷ [] else [])
  unfolding frame_end crc_valid
  frame_end-Holds lo hi =
      let two : rx.bufpos - 2 ≡ length xs = omega (arith, bufpos_at) in
      let one : rx.bufpos - 1 ≡ length xs + 1 = omega (arith, bufpos_at) in
      let at_low : get_or rx.buf (length xs) 0 ≡ low =
        ap (λ k. get_or rx.buf k 0) (omega arith) ∙ byte_at 0 (omega arith) in
      rw (h.plain, two, one, byte_at 1 (omega arith), at_low, payload_at, sum_at lo hi)
        (ground (arith, bufpos_at))

Holds-start : (rx : RxState) → IsValid rx → Holds (frame_end rx).0 []
unfolding frame_end
Holds-start rx v = record {
  valid = frame_end-IsValid rx v;
  plain = refl;
  count = refl;
  bytes = refl;
}

rx_byte-end : (rx : RxState) → rx_byte rx fr_end ≡ frame_end rx
unfolding rx_byte
rx_byte-end rx = refl

rx_bytes-delimited :
    (rx : RxState) (body : List ℕ)
    → IsValid rx
    → let start = (frame_end rx).0 in
      let (rx', packets) = frame_end (stored start body) in
      rx_bytes rx (fr_end ∷ (stuff body ++ fr_end ∷ [])) ≡ (rx', (frame_end rx).1 ++ packets)
unfolding rx_bytes
rx_bytes-delimited rx body v =
    let start = (frame_end rx).0 in
    rw (rx_byte-end, rx_bytes-stuff start body (fr_end ∷ []) (Holds-start rx v).plain, rx_byte-end)
      (rw append-nil)

-- The bytes between two delimiters, `xs` and then the two bytes `low` and `high`.
pub rx_bytes-framed :
    (rx : RxState) (xs : List ℕ) (low high : ℕ)
    → IsValid rx
    → length xs ≤ 254
    → low < 256
    → high < 256
    → let (rx', packets) = rx_bytes rx (fr_end ∷ (stuff (xs ++ low ∷ high ∷ []) ++ fr_end ∷ [])) in
      Holds rx' []
      × (packets
          ≡ (frame_end rx).1
            ++ (if crc_low (u16 (sum xs)) == low && crc_high (u16 (sum xs)) == high
                then xs ∷ []
                else []))
rx_bytes-framed rx xs low high v room lo hi =
    let body = xs ++ low ∷ high ∷ [] in
    let start = (frame_end rx).0 in
    let held : Holds (stored start body) body =
      stored-Holds start [] body (Holds-start rx v)
        (omega (arith, length-append {0} xs (low ∷ high ∷ []))) in
    rw (rx_bytes-delimited rx body v) (
      Holds-start (stored start body) held.valid,
      rw (frame_end-Holds (stored start body) xs low high held lo hi),
    )

-- Whatever was received before, with an escape or a frame left open or not, a frame of at most 254
-- bytes is delivered whole, after at most what its first delimiter ends.
pub rx_bytes-frame :
    (rx : RxState) (xs : List ℕ)
    → IsValid rx
    → length xs ≤ 254
    → let (rx', packets) = rx_bytes rx (frame xs) in
      Holds rx' [] × (packets ≡ (frame_end rx).1 ++ xs ∷ [])
unfolding frame
rx_bytes-frame rx xs v room =
    let (idle, found) =
      rx_bytes-framed rx xs (crc_low (u16 (sum xs))) (crc_high (u16 (sum xs))) v room (omega arith)
        (omega arith) in
    (idle, found ∙ ap (λ t. (frame_end rx).1 ++ t) (ground arith))

length-stuff : (xs : List ℕ) → length (stuff xs) ≤ 2 * length xs
unfolding stuff put_escaped
length-stuff [] = omega arith
length-stuff (x ∷ xs) = ground (arith, length-stuff xs)

pub length-frame : (xs : List ℕ) → length (frame xs) ≤ 2 * length xs + 6
unfolding frame
length-frame xs = omega (
  arith,
  length-append {0} (stuff (xs ++ checksum xs)) (fr_end ∷ []),
  length-append {0} xs (checksum xs),
  length-stuff (xs ++ checksum xs),
)

-- What PROT_SendFlagged puts for a payload of at most 254 bytes, PROT_ReceiveFlagged hands to
-- PROT_Packet as that payload, from every valid state. Before it comes at most the packet that the
-- first delimiter ends, and after it the state waits for a new frame.
pub receive_flagged-send_flagged :
    (rx : RxState) (payload : List ℕ)
    → IsValid rx
    → length payload ≤ 254
    → (wire : List ℕ) × (rx' : RxState) × (send_flagged (suc (length payload)) payload ≡ some wire)
      × (receive_flagged (suc (length wire)) rx wire ≡ some (rx', (frame_end rx).1 ++ payload ∷ []))
      × Holds rx' []
receive_flagged-send_flagged rx payload v room =
    let (rx', packets) = rx_bytes rx (frame payload) in
    let (idle, found) = rx_bytes-frame rx payload v room in
    (
      frame payload,
      rx',
      send_flagged-eq-frame payload (omega arith),
      receive_flagged-eq-rx_bytes rx (frame payload) (omega (arith, length-frame payload))
          ∙ ap (λ ps. some (rx', ps)) found,
      idle,
    )

pub frames : List (List ℕ) → List ℕ
frames [] = []
frames (p ∷ ps) = frame p ++ frames ps

abbrev pub AllShort : List (List ℕ) → Type 0
AllShort [] = Unit
AllShort (p ∷ ps) = (length p ≤ 254) × AllShort ps

frame_end-idle : (rx : RxState) → Holds rx [] → (frame_end rx).1 ≡ []
unfolding frame_end
frame_end-idle rx h = ground arith

-- From an idle state a stream of frames of at most 254 bytes each is delivered packet by packet:
-- none is lost, merged, repeated or reordered, and the state is idle again.
pub rx_bytes-frames :
    (rx : RxState) (ps : List (List ℕ))
    → Holds rx []
    → AllShort ps
    → let (rx', packets) = rx_bytes rx (frames ps) in Holds rx' [] × (packets ≡ ps)
unfolding frames rx_bytes
rx_bytes-frames rx [] h short = (h, refl)
rx_bytes-frames rx (p ∷ ps) h short =
    let (idle, found) = rx_bytes-frame rx p h.valid short.0 in
    let (idle', rest) = rx_bytes-frames (rx_bytes rx (frame p)).0 ps idle short.1 in
    rw rx_bytes-append (idle', rw (found, rest, frame_end-idle rx h))
