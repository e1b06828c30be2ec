-- ===== src/Windows/Loop.antt =====
-- main_windows.c: the serial port, the timer and the main loop PL_Loop. The core (gcf.c) is a parameter,
-- as are the answers of CreateFile, ReadFile and the clock.
use gcfflashero.Base.{
  ℕ, ◌+◌, Bool, true, false, not, ◌&&◌, Option, none, some, List, [], ◌∷◌, ◌++◌, length, get_or,
  replicate, ltb, ◌==◌, if◌then◌else◌,
}
use gcfflashero.Gcf.{pl_started, timeout, disconnected}
use gcfflashero.Posix.Loop.{Call, event, received}
use gcfflashero.Windows.{Sender, tx_size}

-- PL_Internal; the handle of the port is valid or not.
pub record Win : Type 0 where
  pub timer : ℕ
  pub is_open : Bool
  pub running : Bool
  pub tx : Sender

-- PL_SetTimeout, PL_ClearTimeout and PL_ShutDown
abbrev pub win_set_timeout : ℕ → ℕ → Win → Win
win_set_timeout now ms win = record win { timer = now + ms }

abbrev pub win_clear_timeout : Win → Win
win_clear_timeout win = record win { timer = 0 }

abbrev pub win_shut_down : Win → Win
win_shut_down win = record win { running = false }

-- The name that PL_Connect opens: a name of a port behind the prefix of devices, or the path itself.
abbrev pub device_path : List ℕ → Option (List ℕ)
device_path path =
    if ltb 7 (length path)
    then none
    else if get_or path 0 0 == b'C'
    then some (b'\\' ∷ b'\\' ∷ b'.' ∷ b'\\' ∷ path)
    else if get_or path 0 0 == b'\\'
    then some path
    else none

-- The platform layer, the state of the core, and the calls of the core so far.
pub record WinHost (S : Type 0) : Type 0 where
  pub line : Win
  pub inner : S
  pub calls : List Call

-- What a round hears: the time, and what ReadFile returns on an open port, none where it fails.
pub record Round : Type 0 where
  pub now : ℕ
  pub read : Option (List ℕ)

abbrev pub emptied : Win → Win
emptied win = record win { tx = record win.tx { txpos = 0 } }

module _ {S : Type 0} (core : Call → Win × S → Win × S) where
  abbrev pub win_call : Call → WinHost S → WinHost S
  win_call c h =
      let (line, inner) = core c (h.line, h.inner) in
      record { line = line; inner = inner; calls = h.calls ++ c ∷ [] }

  -- PL_Disconnect
  abbrev pub win_disconnect : WinHost S → WinHost S
  win_disconnect h = win_call (event disconnected) (
      if h.line.is_open then record h { line = record (emptied h.line) { is_open = false } } else h)

  -- PL_Connect: whether the port opens, and whether it takes its settings; the result is GCF_SUCCESS
  -- or GCF_FAILED.
  pub win_connect : List ℕ → Bool → Bool → WinHost S → WinHost S × Bool
  win_connect path opens takes_settings h =
      if h.line.is_open then (h, true) else opened (device_path path)
    where
      opened : Option (List ℕ) → WinHost S × Bool
      opened none = (h, false)
      opened (some name) =
          let port = record h { line = record (emptied h.line) { is_open = true } } in
          if not opens
          then (record h { line = emptied h.line }, false)
          else if takes_settings
          then (port, true)
          else (win_disconnect port, false)

  -- The test of the timer.
  abbrev pub win_timer : ℕ → WinHost S → WinHost S
  win_timer now h =
      if not (h.line.timer == 0) && ltb h.line.timer now
      then win_call (event timeout) (record h { line = win_clear_timeout h.line })
      else h

  abbrev pub on_read : ℕ → Option (List ℕ) → WinHost S → WinHost S
  on_read now none h = win_disconnect h
  on_read now (some []) h = win_timer now h
  on_read now (some (b ∷ bs)) h = win_call (received (b ∷ bs)) h

  abbrev pub win_round : Round → WinHost S → WinHost S
  win_round round h =
      if h.line.is_open then on_read round.now round.read h else win_timer round.now h

  -- The loop, over what its rounds hear, and whether it has ended.
  unfoldable pub win_rounds : List Round → WinHost S → WinHost S × Bool
  win_rounds [] h = (h, not h.line.running)
  win_rounds (round ∷ rest) h =
      let next = win_rounds rest (win_round round h) in if h.line.running then next else (h, true)

  -- PL_Loop
  pub win_loop : List Round → S → WinHost S × Bool
  win_loop rounds inner = win_rounds rounds (
      win_call (event pl_started) (record {
        line = record {
          timer = 0;
          is_open = false;
          running = true;
          tx = record { txbuf = replicate tx_size 0; txpos = 0; sent = [] };
        };
        inner = inner;
        calls = [];
      }))
