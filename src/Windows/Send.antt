-- ===== src/Windows/Send.antt =====
-- What main_windows.c and main_dos.c send of a frame.
use gcfflashero.Base.{ℕ, ◌+◌, ◌≡◌, List, ◌++◌, length, take}
use gcfflashero.Windows.{Sender, tx_size}

abbrev pending : Sender → List ℕ
pending tx = take tx.txpos tx.txbuf

-- Bytes that fit are stored one behind the other.
pub record Stored (bytes : List ℕ) (tx tx' : Sender) : Type 0 where
  pub size : length tx'.txbuf ≡ tx_size
  pub count : tx'.txpos ≡ tx.txpos + length bytes
  pub waiting : pending tx' ≡ pending tx ++ bytes
  pub sent : tx'.sent ≡ tx.sent
