-- ===== src/Posix/Transmit.antt =====
-- From PROT_SendFlagged (protocol.c) through the ring of main_posix.c to write().
use gcfflashero.Base.{ℕ, ◌-◌, ◌<◌, true, List, [], ◌∷◌, min}
use gcfflashero.Posix.{Posix, putcs, Written, flush}
use gcfflashero.Posix.Queue.{Line, Op, byte_put, flushed, taken}

abbrev puts : List ℕ → List Op
puts [] = []
puts (ch ∷ rest) = byte_put ch ∷ puts rest

abbrev pub flushes : List (List Written) → List Op
flushes [] = []
flushes (results ∷ rest) = flushed results ∷ flushes rest

-- The calls of PROT_Flush that follow one another.
abbrev pub flush_all : List (List Written) → Posix → Posix
flush_all [] pl = pl
flush_all (results ∷ rest) pl = flush_all rest (flush results pl).0

-- In each call of PROT_Flush, write() takes a byte at least of the `waits` bytes that wait, as long as
-- there are any. A call offers 512 of them at most.
abbrev pub AllTakeSome : ℕ → List (List Written) → Type 0
AllTakeSome waits [] = Unit
AllTakeSome waits (results ∷ rest) =
    let n = taken results (min 512 waits) in (0 < waits → 0 < n) × AllTakeSome (waits - n) rest

abbrev open_line : List ℕ → List ℕ → Line
open_line sent queue = record { is_open = true; queue = queue; sent = sent }

-- The line after PROT_SendFlagged has put the frame `wire` on it, and the flushes that follow.
abbrev pub transmit : List ℕ → List (List Written) → Posix → Posix
transmit wire fs pl = flush_all fs (putcs wire pl)
