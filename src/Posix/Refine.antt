-- ===== src/Posix/Refine.antt =====
-- The transmit ring of main_posix.c refines the queue.
use gcfflashero.Base.{ℕ, ◌%◌, Bool, true, List, ◌++◌, length, min, set}
use gcfflashero.Posix.{Posix, tx_buf_size, Written}
use gcfflashero.Posix.Ring.{IsRing, waiting}
use gcfflashero.Posix.Queue.{Line, taken}

abbrev open_line : Posix → List ℕ → Line
open_line pl queue = record { is_open = true; queue = queue; sent = pl.sent }

module _ (ch : ℕ) (pl : Posix) (h : IsRing pl) where
  abbrev stored : List ℕ
  stored = set pl.txbuf (pl.tx_wp % tx_buf_size) ch

module _ (results : List Written) (pl : Posix) (h : IsRing pl) where
  abbrev gone : ℕ
  gone = taken results (min 512 (length (waiting pl)))

  abbrev flushed_line : List ℕ → List ℕ → Line
  flushed_line queue bytes = record { is_open = pl.is_open; queue = queue; sent = pl.sent ++ bytes }

abbrev closed_flush : Posix → Posix
closed_flush pl = record pl { tx_rp = 0; tx_wp = 0 }

abbrev fresh_line : Posix → Bool → Posix
fresh_line pl opens = record pl { is_open = opens; tx_rp = 0; tx_wp = 0 }
