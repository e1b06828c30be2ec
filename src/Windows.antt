-- ===== src/Windows.antt =====
-- main_windows.c and main_dos.c: the bytes to send, which both platform layers keep in a plain buffer,
-- PROT_Putc and PROT_Flush. How many bytes a write to the port takes is an argument.
pub mod Send
pub mod Loop
pub mod Timer
pub mod Arguments
pub mod Printf
pub mod Inside
pub mod Ports
pub mod Slots
pub mod Table
pub mod Listed
mod Tests
use gcfflashero.Base.{
  ℕ, ◌+◌, ◌-◌, Bool, not, ◌&&◌, List, [], ◌∷◌, ◌++◌, ltb, ◌==◌, if◌then◌else◌, set, take,
}

abbrev pub tx_size : ℕ
tx_size = 2048

-- The fields of PL_Internal for sending, and what has been written to the port so far.
pub record Sender : Type 0 where
  pub txbuf : List ℕ
  pub txpos : ℕ
  pub sent : List ℕ

-- PROT_Putc: a full buffer refuses the byte.
unfoldable pub putc : ℕ → Sender → Sender
putc ch tx =
    if ltb (tx.txpos + 1) tx_size
    then record tx { txbuf = set tx.txbuf tx.txpos ch; txpos = tx.txpos + 1 }
    else tx

-- The calls of PROT_Putc in PROT_SendFlagged.
abbrev pub putcs : List ℕ → Sender → Sender
putcs [] tx = tx
putcs (ch ∷ rest) tx = putcs rest (putc ch tx)

-- PROT_Write: `written` bytes of the data get through.
abbrev pub write : ℕ → List ℕ → Sender → Sender
write written bytes tx = record tx { sent = tx.sent ++ take written bytes }

-- PROT_Flush
unfoldable pub flush : ℕ → Sender → Sender
flush written tx =
    if not (tx.txpos == 0) && ltb tx.txpos tx_size
    then record (write written (take tx.txpos tx.txbuf) tx) { txpos = 0 }
    else tx
