-- ===== src/Windows/Timer.antt =====
-- When the main loop of main_windows.c delivers the timeouts that PL_SetTimeout asks for.
use gcfflashero.Base.{
  ℕ, ◌≤◌, ◌<◌, ◌≡◌, ◌≢◌, refl, ap, ◌∙◌, arith, true, false, not, ◌&&◌, some, List, [], ◌∷◌, ◌++◌,
  ltb, ◌==◌, if◌then◌else◌, by_test,
}
use gcfflashero.Gcf.{timeout}
use gcfflashero.Posix.Loop.{Call, event}
use gcfflashero.Posix.Timer.{AllAtMost}
use gcfflashero.Windows.Loop.{
  Win, WinHost, Round, win_clear_timeout, win_call, win_timer, win_round, win_rounds,
}

-- Rounds without input, at the times of the list.
abbrev pub still : ℕ → Round
still now = record { now = now; read = some [] }

abbrev pub stills : List ℕ → List Round
stills [] = []
stills (now ∷ rest) = still now ∷ stills rest

module _ {S : Type 0} (core : Call → Win × S → Win × S) where
  abbrev pub timed_out : WinHost S → WinHost S
  timed_out h = win_call core (event timeout) (record h { line = win_clear_timeout h.line })

  -- The port may be open or not.
  still_round : (now : ℕ) (h : WinHost S) → win_round core (still now) h ≡ win_timer core now h
  still_round now h =
      by_test h.line.is_open (λ b. if b then win_timer core now h else win_timer core now h)
        (λ b. win_timer core now h) (λ e. refl) (λ e. refl)

  running_round :
      (round : Round) (rest : List Round) (h : WinHost S)
      → h.line.running ≡ true
      → win_rounds core (round ∷ rest) h ≡ win_rounds core rest (win_round core round h)
  unfolding win_rounds
  running_round round rest h running = rw running refl

  timer_early : (now : ℕ) (h : WinHost S) → now ≤ h.line.timer → win_timer core now h ≡ h
  timer_early now h early =
      let waits : (not (h.line.timer == 0) && ltb h.line.timer now) ≡ false = ground arith in
      rw waits refl

  timer_past :
      (now : ℕ) (h : WinHost S)
      → h.line.timer ≢ 0
      → h.line.timer < now
      → win_timer core now h ≡ timed_out h
  timer_past now h armed past =
      let gone : (not (h.line.timer == 0) && ltb h.line.timer now) ≡ true = ground arith in
      rw gone refl

  -- While the loop of Windows runs, a timer that is set goes off in the first round past its time
  -- in which the port, open or not, has no input, if the rounds before it had none: EV_TIMEOUT is
  -- dispatched once there, with the timer cleared, and in no round before it.
  pub win_rounds-delivered :
      (early : List ℕ) (now : ℕ) (rest : List Round) (h : WinHost S)
      → h.line.running ≡ true
      → h.line.timer ≢ 0
      → AllAtMost h.line.timer early
      → h.line.timer < now
      → win_rounds core (stills early ++ still now ∷ rest) h ≡ win_rounds core rest (timed_out h)
  win_rounds-delivered [] now rest h running armed before past =
      running_round (still now) rest h running
      ∙ ap (win_rounds core rest) (still_round now h ∙ timer_past now h armed past)
  win_rounds-delivered (t ∷ early) now rest h running armed before past =
      running_round (still t) (stills early ++ still now ∷ rest) h running
      ∙ ap (win_rounds core (stills early ++ still now ∷ rest))
          (still_round t h ∙ timer_early t h before.0)
      ∙ win_rounds-delivered early now rest h running armed before.1 past
