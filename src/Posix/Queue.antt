-- ===== src/Posix/Queue.antt =====
-- What the transmit ring of main_posix.c promises: a queue of at most 2047 bytes, in which the
-- oldest byte gives way to a new one, and from which a flush sends at most 512.
use gcfflashero.Base.{
  ℕ, ◌+◌, ◌-◌, Bool, false, ◌&&◌, ◌==◌, List, [], ◌∷◌, ◌++◌, length, min, ltb, leb, if◌then◌else◌,
  take, drop,
}
use gcfflashero.Posix.{
  Posix, connect, disconnect, putc, flush, Written, accepted, interrupted, failed,
}
use gcfflashero.Posix.Ring.{waiting}

-- The serial line as its user sees it.
pub record Line : Type 0 where
  pub is_open : Bool
  pub queue : List ℕ
  pub sent : List ℕ

abbrev pub capacity : ℕ
capacity = 2047

-- A full queue loses its oldest byte.
abbrev pub push : ℕ → List ℕ → List ℕ
push ch queue = if length queue == capacity then drop 1 queue ++ ch ∷ [] else queue ++ ch ∷ []

-- How many of `n` bytes the calls of write() take.
unfoldable pub taken : List Written → ℕ → ℕ
taken [] n = 0
taken (accepted k ∷ rest) n =
    let more = taken rest (n - k) in if ltb 0 k && leb k n then k + more else 0
taken (interrupted ∷ rest) n = taken rest n
taken (failed ∷ rest) n = 0

-- The calls of the core.
pub data Op : Type 0 where
  byte_put : ℕ → Op
  flushed : List Written → Op
  connected : Bool → Op
  disconnected : Op

abbrev pub line_step : Line → Op → Line
line_step line (byte_put ch) =
    if line.is_open then record line { queue = push ch line.queue } else line
line_step line (flushed results) =
    let n = taken results (min 512 (length line.queue)) in
    if line.is_open
    then record line { queue = drop n line.queue; sent = line.sent ++ take n line.queue }
    else record line { queue = [] }
line_step line (connected opens) =
    if line.is_open then line else record line { is_open = opens; queue = [] }
line_step line disconnected = record line { is_open = false; queue = [] }

abbrev pub line_run : Line → List Op → Line
line_run line [] = line
line_run line (op ∷ ops) = line_run (line_step line op) ops

abbrev pub step : Posix → Op → Posix
step pl (byte_put ch) = putc ch pl
step pl (flushed results) = (flush results pl).0
step pl (connected opens) = (connect opens pl).0
step pl disconnected = disconnect pl

abbrev pub run : Posix → List Op → Posix
run pl [] = pl
run pl (op ∷ ops) = run (step pl op) ops

abbrev pub view : Posix → Line
view pl = record { is_open = pl.is_open; queue = waiting pl; sent = pl.sent }
