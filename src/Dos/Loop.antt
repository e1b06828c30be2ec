-- ===== src/Dos/Loop.antt =====
-- main_dos.c: the timer and the main loop PL_Loop. The core (gcf.c) is a parameter, as are the interrupts
-- of the serial port before a round and the time that the timer interrupt has counted.
use gcfflashero.Base.{
  ℕ, ◌+◌, ◌<◌, ◌≡◌, refl, ap, ◌∙◌, arith, Bool, true, false, not, ◌&&◌, List, [], ◌∷◌, ◌++◌,
  is_empty, ltb, ◌==◌, if◌then◌else◌,
}
use gcfflashero.Dos.{Rx, port_isr, take_chars}
use gcfflashero.Gcf.{pl_started, timeout, disconnected}
use gcfflashero.Posix.Loop.{Call, event, received}

-- The fields of PL_Internal for the timer, the loop and receiving.
pub record DosLine : Type 0 where
  pub timer : ℕ
  pub running : Bool
  pub rx : Rx

abbrev pub dos_set_timeout : ℕ → ℕ → DosLine → DosLine
dos_set_timeout now ms line = record line { timer = now + ms }

abbrev pub dos_clear_timeout : DosLine → DosLine
dos_clear_timeout line = record line { timer = 0 }

abbrev pub dos_shut_down : DosLine → DosLine
dos_shut_down line = record line { running = false }

-- The platform layer, the state of the core, and the calls of the core so far.
pub record DosHost (S : Type 0) : Type 0 where
  pub line : DosLine
  pub inner : S
  pub calls : List Call

-- The interrupts since the last round, with the characters of each, and the time of the round.
pub record DosRound : Type 0 where
  pub interrupts : List (List ℕ)
  pub now : ℕ

abbrev pub interrupted_by : List (List ℕ) → Rx → Rx
interrupted_by [] rx = rx
interrupted_by (chars ∷ rest) rx = interrupted_by rest (port_isr chars rx)

module _ {S : Type 0} (core : Call → DosLine × S → DosLine × S) where
  abbrev pub dos_call : Call → DosHost S → DosHost S
  dos_call c h =
      let (line, inner) = core c (h.line, h.inner) in
      record { line = line; inner = inner; calls = h.calls ++ c ∷ [] }

  -- What has been received goes to the core.
  abbrev pub dos_input : DosHost S → DosHost S
  dos_input h =
      let (buf, rx) = take_chars 128 h.line.rx in
      let h = record h { line = record h.line { rx = rx } } in
      if is_empty buf then h else dos_call (received buf) h

  abbrev pub dos_timer : ℕ → DosHost S → DosHost S
  dos_timer now h =
      if not (h.line.timer == 0) && ltb h.line.timer now
      then dos_call (event timeout) (record h { line = dos_clear_timeout h.line })
      else h

  -- The loop ends by itself after 30 seconds.
  abbrev pub dos_limit : ℕ → DosHost S → DosHost S
  dos_limit now h = if ltb 30000 now then record h { line = dos_shut_down h.line } else h

  abbrev pub dos_round : DosRound → DosHost S → DosHost S
  dos_round round h =
      let line = record h.line { rx = interrupted_by round.interrupts h.line.rx } in
      dos_limit round.now (dos_timer round.now (dos_input (record h { line = line })))

  -- The loop, with the PL_Disconnect behind it.
  unfoldable pub dos_rounds : List DosRound → DosHost S → DosHost S × Bool
  dos_rounds [] h = if h.line.running then (h, false) else (dos_call (event disconnected) h, true)
  dos_rounds (round ∷ rest) h =
      let next = dos_rounds rest (dos_round round h) in
      if h.line.running then next else (dos_call (event disconnected) h, true)

  -- PL_Loop
  pub dos_loop : List DosRound → DosHost S → DosHost S × Bool
  dos_loop rounds h =
      dos_rounds rounds
        (dos_call (event pl_started) (record h { line = record h.line { running = true } }))

  -- A loop that runs no more makes no round.
  dos_rounds_over :
      (rest : List DosRound) (h : DosHost S)
      → h.line.running ≡ false
      → dos_rounds rest h ≡ (dos_call (event disconnected) h, true)
  unfolding dos_rounds
  dos_rounds_over [] h over = rw over refl
  dos_rounds_over (round ∷ rest) h over = rw over refl

  dos_limit_over : (now : ℕ) (h : DosHost S) → 30000 < now → (dos_limit now h).line.running ≡ false
  dos_limit_over now h late = let past : ltb 30000 now ≡ true = ground arith in rw past refl

  -- The first round behind 30 seconds is the last one, whatever the core is busy with.
  pub dos_rounds_limit :
      (round : DosRound) (rest : List DosRound) (h : DosHost S)
      → h.line.running ≡ true
      → 30000 < round.now
      → dos_rounds (round ∷ rest) h ≡ (dos_call (event disconnected) (dos_round round h), true)
  unfolding dos_rounds
  dos_rounds_limit round rest h running late =
      ap
        (λ b.
          if b
          then dos_rounds rest (dos_round round h)
          else (dos_call (event disconnected) h, true))
        running
      ∙ dos_rounds_over rest (dos_round round h) (dos_limit_over round.now _ late)
