-- ===== src/Dos.antt =====
-- main_dos.c: the bytes received, a ring of 1024 bytes between the interrupt of the serial port, port_isr,
-- and PL_Loop, which turns the interrupt off while it takes bytes out. What the port holds when it
-- interrupts is a parameter, and so is the order of interrupts and rounds of the loop. The bytes to
-- send are in Windows.
pub mod Loop
pub mod Ring
pub mod Order
mod Tests
use gcfflashero.Base.{ℕ, zero, suc, ◌+◌, ◌%◌, List, [], ◌∷◌, ◌++◌, ◌==◌, if◌then◌else◌, get_or, set}

-- sizeof(platform.rx_buf)
abbrev pub rx_buf_size : ℕ
rx_buf_size = 1024

-- The fields of PL_Internal for receiving.
pub record Rx : Type 0 where
  pub rx_buf : List ℕ
  pub rx_head : ℕ
  pub rx_tail : ℕ

-- The mask of one less than the size is the remainder.
abbrev pub next_slot_of : ℕ → ℕ
next_slot_of i = (i + 1) % rx_buf_size

-- A character of the port. Nothing looks whether the ring is full.
abbrev pub store_char : ℕ → Rx → Rx
store_char ch rx = record rx {
  rx_buf = set rx.rx_buf rx.rx_tail ch;
  rx_tail = next_slot_of rx.rx_tail;
}

unfoldable pub store_chars : List ℕ → Rx → Rx
store_chars [] rx = rx
store_chars (ch ∷ rest) rx = store_chars rest (store_char ch rx)

-- port_isr, with the characters that the port holds.
unfoldable pub port_isr : List ℕ → Rx → Rx
port_isr chars rx =
    store_chars chars
      (if rx.rx_tail == rx.rx_head then record rx { rx_head = 0; rx_tail = 0 } else rx)

-- The loop of PL_Loop that copies what waits into `buf`.
unfoldable pub take_chars : ℕ → Rx → List ℕ × Rx
take_chars zero rx = ([], rx)
take_chars (suc rounds) rx =
    let (buf, rx') = take_chars rounds (record rx { rx_head = next_slot_of rx.rx_head }) in
    if rx.rx_head == rx.rx_tail then ([], rx) else (get_or rx.rx_buf rx.rx_head 0 ∷ buf, rx')

-- The ring, and what GCF_Received has been given so far.
pub record Dos : Type 0 where
  pub rx : Rx
  pub handed : List ℕ

-- An interrupt, or a round of PL_Loop, which takes at most 128 bytes.
pub data Happening : Type 0 where
  interrupted : List ℕ → Happening
  polled : Happening

abbrev pub step : Dos → Happening → Dos
step dos (interrupted chars) = record dos { rx = port_isr chars dos.rx }
step dos polled =
    let (buf, rx) = take_chars 128 dos.rx in record dos { rx = rx; handed = dos.handed ++ buf }

abbrev pub run : Dos → List Happening → Dos
run dos [] = dos
run dos (h ∷ hs) = run (step dos h) hs
