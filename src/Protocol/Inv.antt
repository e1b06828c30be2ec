-- ===== src/Protocol/Inv.antt =====
-- The invariant of PROT_RxState (protocol.h), and what a delivered packet is.
use gcfflashero.Base.{
  ℕ, suc, ◌+◌, ◌≤◌, ◌<◌, ◌≡◌, ap, false, List, [], ◌∷◌, ◌++◌, arith, length, set, take, u16,
  length-set, take-suc-set,
}
use native.Mathlib.Decide.{dec_lt}
use gcfflashero.Protocol.{
  RxState, fr_end, fr_esc, buf_size, frame_end, store, store_unescaped, rx_byte,
}
use gcfflashero.Protocol.Frame.{sum}

-- The bytes that the buffer holds of those since the last delimiter.
abbrev pub contents : RxState → List ℕ
contents rx = take rx.bufpos rx.buf

-- The buffer keeps its size, the write index stays inside it, and `crc` is the sum of the bytes it
-- holds.
pub record IsValid (rx : RxState) : Type 0 where
  pub size : length rx.buf ≡ buf_size
  pub within : rx.bufpos ≤ buf_size
  pub summed : rx.crc ≡ u16 (sum (contents rx))

pub sum-append : (xs ys : List ℕ) → sum (xs ++ ys) ≡ sum xs + sum ys
sum-append [] ys = omega arith
sum-append (x ∷ xs) ys = omega (arith, sum-append xs ys)

pub contents-store :
    (rx : RxState) (c : ℕ)
    → IsValid rx
    → rx.bufpos < buf_size
    → contents (store rx c) ≡ contents rx ++ c ∷ []
unfolding store
contents-store rx c v h =
    let one : rx.bufpos + 1 ≡ suc rx.bufpos = omega arith in
    ground
      (arith, one, take-suc-set rx.bufpos rx.buf c, ap (λ n. take n (set rx.buf rx.bufpos c)) one)

pub store-IsValid : (rx : RxState) (c : ℕ) → IsValid rx → IsValid (store rx c)
unfolding store
store-IsValid rx c v = elim (dec_lt rx.bufpos buf_size) [
  | yes h ↦ record {
    size = ground (arith, length-set rx.buf rx.bufpos c);
    within = ground arith;
    summed = rw (contents-store rx c v h, sum-append) (ground arith);
  }
  | no full ↦ ground arith
]

pub frame_end-IsValid : (rx : RxState) → IsValid rx → IsValid (frame_end rx).0
unfolding frame_end
frame_end-IsValid rx v = ground arith

store_unescaped-IsValid : (rx : RxState) (c : ℕ) → IsValid rx → IsValid (store_unescaped rx c)
unfolding store_unescaped
store_unescaped-IsValid rx c v =
    ground (arith, store-IsValid rx fr_esc v, store-IsValid rx fr_end v)

pub rx_byte-IsValid : (rx : RxState) (c : ℕ) → IsValid rx → IsValid (rx_byte rx c).0
unfolding rx_byte
rx_byte-IsValid rx c v = ground (
  arith,
  frame_end-IsValid rx v,
  store-IsValid rx c v,
  store_unescaped-IsValid (record rx { escaped = false }) c,
)
