-- ===== src/Posix.antt =====
-- main_posix.c: the platform layer on Linux and macOS. The serial line with its ring of bytes to
-- send, PROT_Putc, PROT_Write and PROT_Flush, the timer, and the main loop PL_Loop.
pub mod Ring
pub mod Queue
pub mod Refine
pub mod Transmit
pub mod Loop
pub mod Timer
pub mod Core
mod Tests
use gcfflashero.Base.{
  ℕ, zero, suc, ◌+◌, ◌-◌, ◌%◌, ◌^◌, Bool, true, false, ◌&&◌, List, [], ◌∷◌, ◌++◌, ltb, leb, ◌==◌,
  if◌then◌else◌, length, get_or, set, take, u32, u64, replicate,
}

-- TX_BUF_SIZE
abbrev pub tx_buf_size : ℕ
tx_buf_size = 2048

-- PL_Internal without the receive buffer; `open` says that `fd` is not 0. `sent` is what the calls
-- of write() have accepted on the lines so far.
pub record Posix : Type 0 where
  pub timer : ℕ
  pub is_open : Bool
  pub running : Bool
  pub txbuf : List ℕ
  pub tx_rp : ℕ
  pub tx_wp : ℕ
  pub sent : List ℕ

-- PL_SetTimeout and PL_ClearTimeout; `now` is what PL_Time returns.
pub set_timeout : ℕ → ℕ → Posix → Posix
set_timeout now ms pl = record pl { timer = u64 (now + ms) }

pub clear_timeout : Posix → Posix
clear_timeout pl = record pl { timer = 0 }

-- PL_ShutDown
pub shut_down : Posix → Posix
shut_down pl = record pl { running = false }

-- PL_Connect, with what open() answers, and whether it succeeded.
pub connect : Bool → Posix → Posix × Bool
connect opens pl =
    if pl.is_open then (pl, true) else (record pl { is_open = opens; tx_rp = 0; tx_wp = 0 }, opens)

-- PL_Disconnect, up to the event it dispatches.
pub disconnect : Posix → Posix
disconnect pl = record pl { is_open = false; tx_rp = 0; tx_wp = 0 }

-- PROT_Putc
pub putc : ℕ → Posix → Posix
putc ch pl =
    let wp = u32 (pl.tx_wp + 1) in
    if pl.is_open
    then record pl {
      txbuf = set pl.txbuf (pl.tx_wp % tx_buf_size) ch;
      tx_wp = wp;
      tx_rp = if wp % tx_buf_size == pl.tx_rp % tx_buf_size then u32 (pl.tx_rp + 1) else pl.tx_rp;
    }
    else pl

-- The calls of PROT_Putc for the bytes of a text, in PROT_Write and PROT_SendFlagged.
pub putcs : List ℕ → Posix → Posix
putcs [] pl = pl
putcs (ch ∷ rest) pl = putcs rest (putc ch pl)

-- What a call of write() returns: a count, or -1 with EINTR or with another error.
pub data Written : Type 0 where
  accepted : ℕ → Written
  interrupted failed : Written

-- The loop of PROT_Flush that fills `buf`, of 512 bytes; the first argument counts the rounds left.
pub collect : ℕ → Posix → ℕ → List ℕ
collect zero pl len = []
collect (suc rounds) pl len =
    let rest = collect rounds pl (len + 1) in
    if pl.tx_wp % tx_buf_size == u32 (pl.tx_rp + len) % tx_buf_size
    then []
    else get_or pl.txbuf (u32 (pl.tx_rp + len) % tx_buf_size) 0 ∷ rest

-- The loop of PROT_Flush over the calls of write(), of which the list holds the results in order.
-- A call beyond the list fails.
pub write_loop : List Written → ℕ → ℕ → ℕ
write_loop [] len pos = pos
write_loop (accepted n ∷ rest) len pos =
    let more = write_loop rest len (pos + n) in
    if ltb pos len && ltb 0 n && leb n (len - pos) then more else pos
write_loop (interrupted ∷ rest) len pos =
    let again = write_loop rest len pos in if ltb pos len then again else pos
write_loop (failed ∷ rest) len pos = pos

-- PROT_Flush on an open line.
pub flush_open : List Written → Posix → Posix
flush_open results pl =
    let buf = collect 512 pl 0 in
    let pos = write_loop results (length buf) 0 in
    record pl { tx_rp = u32 (pl.tx_rp + pos); sent = pl.sent ++ take pos buf }

-- PROT_Flush, and whether it dispatches EV_DISCONNECTED.
pub flush : List Written → Posix → Posix × Bool
flush results pl =
    if pl.is_open
    then (flush_open results pl, false)
    else (record pl { tx_rp = 0; tx_wp = 0 }, true)

-- PROT_Write
pub write : List ℕ → List Written → Posix → Posix × Bool
write bytes results pl = flush results (putcs bytes pl)
