-- ===== src/Protocol/Stream.antt =====
-- PROT_ReceiveFlagged (protocol.c) as a function of the bytes, without loop variables, and the
-- independence of how a stream is cut into calls.
use gcfflashero.Base.{
  ℕ, zero, suc, ◌+◌, ◌^◌, ◌<◌, ◌≡◌, refl, ◌∙◌, Option, none, some, List, [], ◌∷◌, ◌++◌, arith,
  length, length-append, get_or, drop, drop-cons, drop_all, u16, lt→ltb, append_assoc, append-nil,
}
use gcfflashero.Protocol.{RxState, rx_byte, receive_loop, receive_flagged}
use gcfflashero.Protocol.Inv.{IsValid, rx_byte-IsValid}

infixl 5 ◌>>=◌
abbrev pub ◌>>=◌ : {A B : Type 0} → Option A → (A → Option B) → Option B
none >>= f = none
some a >>= f = f a

-- The state after the bytes, and the packets handed over, in order.
unfoldable pub rx_bytes : RxState → List ℕ → RxState × List (List ℕ)
rx_bytes rx [] = (rx, [])
rx_bytes rx (c ∷ cs) =
    let (rx', found) = rx_byte rx c in let (rx'', later) = rx_bytes rx' cs in (rx'', found ++ later)

receive_loop-from :
    (n fuel : ℕ) (input : List ℕ) (pos : ℕ) (rx : RxState) (packets : List (List ℕ))
    → pos + n ≡ length input
    → n < fuel
    → length input < 2 ^ 16
    → receive_loop fuel input pos rx packets
      ≡ (let (rx', found) = rx_bytes rx (drop pos input) in some (rx', packets ++ found))
unfolding receive_loop rx_bytes
receive_loop-from n zero input pos rx packets e h small = absurd (omega arith)
receive_loop-from zero (suc fuel) input pos rx packets e h small =
    ground (arith, drop_all pos input (omega arith), append-nil packets)
receive_loop-from (suc n) (suc fuel) input pos rx packets e h small =
    let (rx', found) = rx_byte rx (get_or input pos 0) in
    let next : u16 (pos + 1) ≡ suc pos = omega arith in
    rw (lt→ltb pos (length input) (omega arith), drop-cons pos input 0 (omega arith), next)
      (receive_loop-from n fuel input (suc pos) rx' (packets ++ found) (omega arith) (omega arith)
          small
        ∙ simp append_assoc)

-- One call of at most 65535 bytes returns, and has handled each byte once and in order.
pub receive_flagged-eq-rx_bytes :
    (rx : RxState) (input : List ℕ)
    → length input < 2 ^ 16
    → receive_flagged (suc (length input)) rx input ≡ some (rx_bytes rx input)
unfolding receive_flagged
receive_flagged-eq-rx_bytes rx input small =
    receive_loop-from (length input) (suc (length input)) input 0 rx [] (omega arith) (omega arith)
      small

pub rx_bytes-append :
    (rx : RxState) (xs ys : List ℕ)
    → rx_bytes rx (xs ++ ys) ≡ (
        let (rx', found) = rx_bytes rx xs in
        let (rx'', later) = rx_bytes rx' ys in (rx'', found ++ later))
unfolding rx_bytes
rx_bytes-append rx [] ys = refl
rx_bytes-append rx (x ∷ xs) ys =
    let (rx', found) = rx_byte rx x in rw (rx_bytes-append rx' xs ys) (simp append_assoc)

-- The invariant of the receiver holds after any bytes whatever, from any state in which it holds.
pub rx_bytes-IsValid : (rx : RxState) (cs : List ℕ) → IsValid rx → IsValid (rx_bytes rx cs).0
unfolding rx_bytes
rx_bytes-IsValid rx [] v = v
rx_bytes-IsValid rx (c ∷ cs) v = rx_bytes-IsValid (rx_byte rx c).0 cs (rx_byte-IsValid rx c v)

-- How a stream of less than 2 ^ 16 bytes is cut into two calls makes no difference: one call with all
-- of it leaves the state of two calls with its parts, and hands over what they hand over, in order.
pub receive_flagged_chunks :
    (rx : RxState) (xs ys : List ℕ)
    → length (xs ++ ys) < 2 ^ 16
    → receive_flagged (suc (length (xs ++ ys))) rx (xs ++ ys) ≡ (do
      (rx', found) ← receive_flagged (suc (length xs)) rx xs
      (rx'', later) ← receive_flagged (suc (length ys)) rx' ys
      some (rx'', found ++ later))
receive_flagged_chunks rx xs ys small =
    let sizes = length-append {0} xs ys in
    rw (
      receive_flagged-eq-rx_bytes rx (xs ++ ys) small,
      receive_flagged-eq-rx_bytes rx xs (omega (arith, sizes)),
      receive_flagged-eq-rx_bytes (rx_bytes rx xs).0 ys (omega (arith, sizes)),
      rx_bytes-append,
    )
