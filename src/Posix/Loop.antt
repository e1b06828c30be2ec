-- ===== src/Posix/Loop.antt =====
-- The main loop PL_Loop of main_posix.c. The core (gcf.c) is a parameter: what a call of it does to
-- the platform layer, which it calls back, and to its own state.
use gcfflashero.Base.{
  ℕ, Bool, true, false, not, ◌&&◌, List, [], ◌∷◌, ◌++◌, is_empty, replicate, ltb, ◌==◌,
  if◌then◌else◌,
}
use gcfflashero.Gcf.{Event, pl_started, pl_loop, timeout, disconnected}
use gcfflashero.Posix.{Posix, Written, disconnect, clear_timeout, flush, tx_buf_size}

-- The calls of the core: GCF_HandleEvent and GCF_Received.
pub data Call : Type 0 where
  event : Event → Call
  received : List ℕ → Call

-- What a round hears: poll() fails; it times out at the time `now`; or it reports hang-up or error,
-- and input, of which read() returns the bytes, none where it fails. The last field is what the
-- calls of write() return in a PROT_Flush.
pub data Polled : Type 0 where
  poll_failed : Polled
  quiet : ℕ → Polled
  ready : Bool → Bool → List ℕ → List Written → Polled

-- The platform layer, the state of the core, and the calls of the core so far.
pub record Host (S : Type 0) : Type 0 where
  pub line : Posix
  pub inner : S
  pub calls : List Call

module _ {S : Type 0} (core : Call → Posix × S → Posix × S) where
  abbrev pub call : Call → Host S → Host S
  call c h =
      let (line, inner) = core c (h.line, h.inner) in
      record { line = line; inner = inner; calls = h.calls ++ c ∷ [] }

  -- PL_Disconnect
  abbrev pub hang_up : Host S → Host S
  hang_up h = call (event disconnected) (record h { line = disconnect h.line })

  abbrev pub on_quiet : ℕ → Host S → Host S
  on_quiet now h =
      if h.line.timer == 0
      then h
      else if ltb h.line.timer now
      then call (event timeout) (record h { line = clear_timeout h.line })
      else h

  abbrev pub on_input : Bool → List ℕ → Host S → Host S
  on_input input bytes h = if input && not (is_empty bytes) then call (received bytes) h else h

  abbrev pub flush_rest : List Written → Host S → Host S
  flush_rest results h =
      if h.line.is_open && not (h.line.tx_rp == h.line.tx_wp)
      then record h { line = (flush results h.line).0 }
      else h

  abbrev pub on_ready : Bool → Bool → List ℕ → List Written → Host S → Host S
  on_ready hup input bytes results h =
      if hup && h.line.is_open then hang_up h else flush_rest results (on_input input bytes h)

  -- The loop, over what its rounds hear, and whether it has ended.
  unfoldable pub rounds : List Polled → Host S → Host S × Bool
  rounds [] h = if h.line.running then (h, false) else (hang_up h, true)
  rounds (poll_failed ∷ rest) h =
      if h.line.running then (hang_up (call (event pl_loop) h), true) else (hang_up h, true)
  rounds (quiet now ∷ rest) h =
      let next = rounds rest (on_quiet now (call (event pl_loop) h)) in
      if h.line.running then next else (hang_up h, true)
  rounds (ready hup input bytes results ∷ rest) h =
      let next = rounds rest (on_ready hup input bytes results (call (event pl_loop) h)) in
      if h.line.running then next else (hang_up h, true)

  -- PL_Loop, from the platform layer after memset().
  pub run_loop : List Polled → S → Host S × Bool
  run_loop polls inner = rounds polls (
      call (event pl_started) (record {
        line = record {
          timer = 0;
          is_open = false;
          running = true;
          txbuf = replicate tx_buf_size 0;
          tx_rp = 0;
          tx_wp = 0;
          sent = [];
        };
        inner = inner;
        calls = [];
      }))
