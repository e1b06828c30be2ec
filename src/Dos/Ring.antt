-- ===== src/Dos/Ring.antt =====
-- The receive ring of main_dos.c as an array: the bytes from the head to the tail.
use gcfflashero.Base.{
  ℕ, zero, suc, ◌+◌, ◌-◌, ◌%◌, ◌≤◌, ◌<◌, ◌≡◌, refl, sym, ap, ap₂, ◌∙◌, arith, ◌==◌, List, [], ◌∷◌,
  ◌++◌, length, length-set, get_or, get_or-set_self, get_or-set_ne, set, append_assoc, append-nil,
  Bool-cases, inl, inr,
}
use gcfflashero.Dos.{Rx, rx_buf_size, next_slot_of, store_char, store_chars, port_isr, take_chars}

-- `n` bytes of the ring from the slot `i` on.
unfoldable pub slots : List ℕ → ℕ → ℕ → List ℕ
slots mem i zero = []
slots mem i (suc n) = get_or mem i 0 ∷ slots mem (next_slot_of i) n

abbrev pub waiting_count : Rx → ℕ
waiting_count rx = (rx.rx_tail + rx_buf_size - rx.rx_head) % rx_buf_size

-- The bytes that wait for PL_Loop, in order.
abbrev pub waiting : Rx → List ℕ
waiting rx = slots rx.rx_buf rx.rx_head (waiting_count rx)

pub record IsRing (rx : Rx) : Type 0 where
  pub size : length rx.rx_buf ≡ rx_buf_size
  pub head : rx.rx_head < rx_buf_size
  pub tail : rx.rx_tail < rx_buf_size

-- A slot behind those that are looked at.
slots-set :
    (n : ℕ) (mem : List ℕ) (i m k v : ℕ)
    → i < rx_buf_size
    → m < rx_buf_size
    → n ≤ m
    → k ≡ (i + m) % rx_buf_size
    → slots (set mem k v) i n ≡ slots mem i n
unfolding slots
slots-set zero mem i m k v hi hm hn e = refl
slots-set (suc n) mem i m k v hi hm hn e =
    ap₂ ◌∷◌ (get_or-set_ne mem k i v 0 (λ same. omega arith)) (
      slots-set n mem (next_slot_of i) (m - 1) k v (omega arith) (omega arith) (omega arith)
        (omega arith))

-- Behind the bytes that wait, one more.
slots-put :
    (n : ℕ) (mem : List ℕ) (i k v : ℕ)
    → length mem ≡ rx_buf_size
    → i < rx_buf_size
    → n < rx_buf_size
    → k ≡ (i + n) % rx_buf_size
    → slots (set mem k v) i (suc n) ≡ slots mem i n ++ v ∷ []
unfolding slots
slots-put zero mem i k v size hi hn e =
    let here : i ≡ k = omega arith in
    ap (λ c. c ∷ [])
      (ap (λ j. get_or (set mem k v) j 0) here ∙ get_or-set_self mem k v 0 (omega arith))
slots-put (suc n) mem i k v size hi hn e =
    ap₂ ◌∷◌ (get_or-set_ne mem k i v 0 (λ same. omega arith))
      (slots-put n mem (next_slot_of i) k v size (omega arith) (omega arith) (omega arith))

store_char-IsRing : (ch : ℕ) (rx : Rx) → IsRing rx → IsRing (store_char ch rx)
store_char-IsRing ch rx h = record {
  size = length-set rx.rx_buf rx.rx_tail ch ∙ h.size;
  head = h.head;
  tail = omega arith;
}

waiting-store_char :
    (ch : ℕ) (rx : Rx)
    → IsRing rx
    → waiting_count rx < 1023
    → (waiting (store_char ch rx) ≡ waiting rx ++ ch ∷ [])
      × (waiting_count (store_char ch rx) ≡ suc (waiting_count rx))
waiting-store_char ch rx h room =
    let count : waiting_count (store_char ch rx) ≡ suc (waiting_count rx) = omega (arith, h) in
    (
      ap (slots (set rx.rx_buf rx.rx_tail ch) rx.rx_head) count
          ∙ slots-put (waiting_count rx) rx.rx_buf rx.rx_head rx.rx_tail ch h.size h.head
              (omega arith) (omega (arith, h)),
      count,
    )

-- A ring of 1024 bytes that wait is empty.
pub full_ring_lost :
    (ch : ℕ) (rx : Rx) → IsRing rx → waiting_count rx ≡ 1023 → waiting (store_char ch rx) ≡ []
unfolding slots
full_ring_lost ch rx h full =
    let count : waiting_count (store_char ch rx) ≡ 0 = omega (arith, h) in
    ap (slots (set rx.rx_buf rx.rx_tail ch) rx.rx_head) count

pub store_chars-waiting :
    (chars : List ℕ) (rx : Rx)
    → IsRing rx
    → waiting_count rx + length chars ≤ 1023
    → (waiting (store_chars chars rx) ≡ waiting rx ++ chars) × IsRing (store_chars chars rx)
unfolding store_chars
store_chars-waiting [] rx h room = (sym (append-nil (waiting rx)), h)
store_chars-waiting (ch ∷ rest) rx h room =
    let (stored, count) = waiting-store_char ch rx h (omega arith) in
    let (later, kept) =
      store_chars-waiting rest (store_char ch rx) (store_char-IsRing ch rx h) (omega arith) in
    (later ∙ ap (λ t. t ++ rest) stored ∙ append_assoc (waiting rx) (ch ∷ []) rest, kept)

-- An interrupt finds room for its characters.
pub waiting-port_isr :
    (chars : List ℕ) (rx : Rx)
    → IsRing rx
    → waiting_count rx + length chars ≤ 1023
    → (waiting (port_isr chars rx) ≡ waiting rx ++ chars) × IsRing (port_isr chars rx)
unfolding port_isr slots
waiting-port_isr chars rx h room = elim (Bool-cases (rx.rx_tail == rx.rx_head)) [
  | inl same ↦
      let none_wait : waiting_count rx ≡ 0 = ground (arith, h, same) in
      let start : IsRing (record rx { rx_head = 0; rx_tail = 0 }) = record {
        size = h.size;
        head = omega arith;
        tail = omega arith;
      } in
      let (stored, kept) =
        store_chars-waiting chars (record rx { rx_head = 0; rx_tail = 0 }) start (omega arith) in
      rw same (stored ∙ ap (λ n. slots rx.rx_buf rx.rx_head n ++ chars) (sym none_wait), kept)
  | inr apart ↦ rw apart (store_chars-waiting chars rx h room)
]

-- What PL_Loop takes out, and what still waits.
pub take_chars-waiting :
    (rounds : ℕ) (rx : Rx)
    → IsRing rx
    → ((take_chars rounds rx).0 ++ waiting (take_chars rounds rx).1 ≡ waiting rx)
      × IsRing (take_chars rounds rx).1
unfolding take_chars slots
take_chars-waiting zero rx h = (refl, h)
take_chars-waiting (suc rounds) rx h = elim (Bool-cases (rx.rx_head == rx.rx_tail)) [
  | inl same ↦ rw same (refl, h)
  | inr apart ↦
      let moved : IsRing (record rx { rx_head = next_slot_of rx.rx_head }) = record {
        size = h.size;
        head = omega arith;
        tail = h.tail;
      } in
      let (later, kept) =
        take_chars-waiting rounds (record rx { rx_head = next_slot_of rx.rx_head }) moved in
      let count : waiting_count rx
          ≡ suc (waiting_count (record rx { rx_head = next_slot_of rx.rx_head })) =
        ground (arith, h, apart) in
      rw apart (
        ap (λ t. get_or rx.rx_buf rx.rx_head 0 ∷ t) later
            ∙ ap (slots rx.rx_buf rx.rx_head) (sym count),
        kept,
      )
]
