-- ===== src/Protocol/Frame.antt =====
-- What a frame is, without loop variables: the delimiter, the escaped payload and checksum, the
-- delimiter. PROT_SendFlagged (protocol.c) puts exactly that.
use gcfflashero.Base.{
  ℕ, zero, suc, ◌+◌, ◌^◌, ◌≤◌, ◌<◌, ◌≡◌, refl, ◌∙◌, none, some, List, [], ◌∷◌, ◌++◌, arith, length,
  get_or, drop, drop-cons, drop_all, u16, lt→ltb, append_assoc, append-nil,
}
use native.Mathlib.Nat.{add_assoc, zero-add}
use gcfflashero.Protocol.{fr_end, crc_low, crc_high, put_escaped, send_loop, send_flagged}

abbrev pub sum : List ℕ → ℕ
sum [] = 0
sum (x ∷ xs) = x + sum xs

unfoldable pub stuff : List ℕ → List ℕ
stuff [] = []
stuff (x ∷ xs) = put_escaped x ++ stuff xs

-- The 16-bit two's complement of the sum of the payload, low byte first.
abbrev pub checksum : List ℕ → List ℕ
checksum xs = crc_low (u16 (sum xs)) ∷ crc_high (u16 (sum xs)) ∷ []

unfoldable pub frame : List ℕ → List ℕ
frame xs = fr_end ∷ (stuff (xs ++ checksum xs) ++ fr_end ∷ [])

pub stuff-append : (xs ys : List ℕ) → stuff (xs ++ ys) ≡ stuff xs ++ stuff ys
unfolding stuff
stuff-append [] ys = refl
stuff-append (x ∷ xs) ys = simp (stuff-append xs ys, append_assoc)

-- The loop from index `i` on, with fuel for the rounds left and an `i` that does not wrap.
send_loop-from :
    (n fuel : ℕ) (payload : List ℕ) (i crc : ℕ) (out : List ℕ)
    → i + n ≡ length payload
    → n < fuel
    → length payload < 2 ^ 16
    → send_loop fuel payload i (u16 crc) out
      ≡ some (u16 (crc + sum (drop i payload)), out ++ stuff (drop i payload))
unfolding send_loop stuff
send_loop-from n zero payload i crc out e h small = absurd (omega arith)
send_loop-from zero (suc fuel) payload i crc out e h small =
    ground (arith, drop_all i payload (omega arith), append-nil out)
send_loop-from (suc n) (suc fuel) payload i crc out e h small =
    let c = get_or payload i 0 in
    let next : u16 (i + 1) ≡ suc i = omega arith in
    let added : u16 (u16 crc + c) ≡ u16 (crc + c) = omega arith in
    rw (lt→ltb i (length payload) (omega arith), drop-cons i payload 0 (omega arith), next, added)
      (send_loop-from n fuel payload (suc i) (crc + c) (out ++ put_escaped c) (omega arith)
          (omega arith) small
        ∙ simp (append_assoc, add_assoc))

-- PROT_SendFlagged puts the frame of any payload of at most 65535 bytes, and returns.
pub send_flagged-eq-frame :
    (payload : List ℕ)
    → length payload < 2 ^ 16
    → send_flagged (suc (length payload)) payload ≡ some (frame payload)
unfolding send_flagged frame stuff
send_flagged-eq-frame payload small =
    rw
      (
        send_loop-from (length payload) (suc (length payload)) payload 0 0 (fr_end ∷ [])
            (omega arith) (omega arith) small,
        zero-add,
      )
      (simp (stuff-append, append_assoc, append-nil))

send_loop_diverges :
    (fuel : ℕ) (payload : List ℕ) (i crc : ℕ) (out : List ℕ)
    → 2 ^ 16 ≤ length payload
    → i < 2 ^ 16
    → send_loop fuel payload i crc out ≡ none
unfolding send_loop
send_loop_diverges zero payload i crc out h small = refl
send_loop_diverges (suc fuel) payload i crc out h small =
    let c = get_or payload i 0 in
    rw (lt→ltb i (length payload) (omega arith)) (
      send_loop_diverges fuel payload (u16 (i + 1)) (u16 (crc + c)) (out ++ put_escaped c) h
        (omega arith))

-- A payload of more than 65535 bytes keeps the unsigned short counter of PROT_SendFlagged below its
-- length for ever: the loop does not end, whatever the number of rounds it is given.
pub send_flagged_diverges :
    (fuel : ℕ) (payload : List ℕ) → 2 ^ 16 ≤ length payload → send_flagged fuel payload ≡ none
unfolding send_flagged
send_flagged_diverges fuel payload h =
    rw (send_loop_diverges fuel payload 0 0 (fr_end ∷ []) h (omega arith))
