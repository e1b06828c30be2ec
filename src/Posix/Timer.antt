-- ===== src/Posix/Timer.antt =====
-- When the main loop of main_posix.c delivers the timeouts that PL_SetTimeout asks for.
use gcfflashero.Base.{
  ℕ, suc, ◌+◌, ◌≤◌, ◌<◌, ◌≡◌, ◌≢◌, refl, ap, ◌∙◌, arith, Bool, true, false, not, ◌&&◌, List, [],
  ◌∷◌, ◌++◌, append_assoc, length, is_empty, replicate, ltb, ◌==◌, if◌then◌else◌, by_test, if_both,
}
use gcfflashero.Gcf.{pl_loop, timeout, disconnected}
use gcfflashero.Posix.{Posix, Written, clear_timeout, flush}
use gcfflashero.Posix.Loop.{
  Call, event, received, Polled, poll_failed, quiet, ready, Host, call, hang_up, on_quiet, on_ready,
  on_input, flush_rest, rounds,
}

-- Rounds without input, at the times of the list.
abbrev pub quiets : List ℕ → List Polled
quiets [] = []
quiets (now ∷ rest) = quiet now ∷ quiets rest

abbrev pub AllAtMost : ℕ → List ℕ → Type 0
AllAtMost limit [] = Unit
AllAtMost limit (now ∷ rest) = (now ≤ limit) × AllAtMost limit rest

abbrev pub is_timeout : Call → Bool
is_timeout (event timeout) = true
is_timeout _ = false

abbrev pub timeouts : List Call → ℕ
timeouts [] = 0
timeouts (c ∷ cs) = (if is_timeout c then 1 else 0) + timeouts cs

abbrev pub NeverQuiet : List Polled → Type 0
NeverQuiet [] = Unit
NeverQuiet (quiet now ∷ rest) = ⊥
NeverQuiet (poll_failed ∷ rest) = NeverQuiet rest
NeverQuiet (ready hup input bytes results ∷ rest) = NeverQuiet rest

module _ {S : Type 0} (core : Call → Posix × S → Posix × S) where
  -- A core to which EV_PL_LOOP means nothing.
  abbrev pub IgnoresLoop : Type 0
  IgnoresLoop = (s : Posix × S) → core (event pl_loop) s ≡ s

  -- The call that delivers the timeout, with the timer cleared before it, after `n` rounds.
  abbrev pub delivered : ℕ → Host S → Host S
  delivered n h =
      call core (event timeout)
        (record h { line = clear_timeout h.line; calls = h.calls ++ replicate n (event pl_loop) })

  abbrev idled : Host S → Host S
  idled h = record h { calls = h.calls ++ event pl_loop ∷ [] }

  call-idle : (h : Host S) → IgnoresLoop → call core (event pl_loop) h ≡ idled h
  call-idle h idle =
      ap
        (λ s.
          let (line, inner) = s in
          record { line = line; inner = inner; calls = h.calls ++ event pl_loop ∷ [] })
        (idle (h.line, h.inner))

  quiet_round :
      (now : ℕ) (rest : List Polled) (h : Host S)
      → IgnoresLoop
      → h.line.running ≡ true
      → rounds core (quiet now ∷ rest) h ≡ rounds core rest (on_quiet core now (idled h))
  unfolding rounds
  quiet_round now rest h idle running =
      ap
        (λ b.
          let next = rounds core rest (on_quiet core now (call core (event pl_loop) h)) in
          if b then next else (hang_up core h, true))
        running
      ∙ ap (λ k. rounds core rest (on_quiet core now k)) (call-idle h idle)

  quiet_early : (now : ℕ) (h : Host S) → now ≤ h.line.timer → on_quiet core now h ≡ h
  quiet_early now h early =
      let not_past : ltb h.line.timer now ≡ false = ground arith in
      rw not_past
        (by_test (h.line.timer == 0) (λ b. if b then h else h) (λ b. h) (λ e. refl) (λ e. refl))

  quiet_past :
      (now : ℕ) (h : Host S)
      → h.line.timer ≢ 0
      → h.line.timer < now
      → on_quiet core now (idled h) ≡ delivered 1 h
  quiet_past now h armed past =
      let nonzero : (h.line.timer == 0) ≡ false = ground arith in
      let gone : ltb h.line.timer now ≡ true = ground arith in rw (nonzero, gone) refl

  -- While the loop runs and the core ignores EV_PL_LOOP, a timer that is set goes off in the first
  -- round without input past its time, if the rounds before it had no input either: EV_TIMEOUT is
  -- dispatched once there, with the timer cleared, and in no round before it.
  pub rounds-delivered :
      (early : List ℕ) (now : ℕ) (rest : List Polled) (h : Host S)
      → IgnoresLoop
      → h.line.running ≡ true
      → h.line.timer ≢ 0
      → AllAtMost h.line.timer early
      → h.line.timer < now
      → rounds core (quiets early ++ quiet now ∷ rest) h
        ≡ rounds core rest (delivered (suc (length early)) h)
  unfolding rounds
  rounds-delivered [] now rest h idle running armed before past =
      quiet_round now rest h idle running ∙ ap (rounds core rest) (quiet_past now h armed past)
  rounds-delivered (t ∷ early) now rest h idle running armed before past =
      quiet_round t (quiets early ++ quiet now ∷ rest) h idle running
      ∙ ap (rounds core (quiets early ++ quiet now ∷ rest)) (quiet_early t (idled h) before.0)
      ∙ rounds-delivered early now rest (idled h) idle running armed before.1 past
      ∙ ap
          (λ calls.
            rounds core rest
              (call core (event timeout) (record h { line = clear_timeout h.line; calls = calls })))
          (append_assoc h.calls (event pl_loop ∷ [])
            (replicate (suc (length early)) (event pl_loop)))

  -- What no round without a time-out of poll() does is deliver a timeout.
  timeouts-other :
      (cs : List Call) (c : Call) → is_timeout c ≡ false → timeouts (cs ++ c ∷ []) ≡ timeouts cs
  timeouts-other [] c other = rw other refl
  timeouts-other (d ∷ cs) c other =
      ap (λ n. (if is_timeout d then 1 else 0) + n) (timeouts-other cs c other)

  abbrev Unchanged : ℕ → Host S → Type 0
  Unchanged n h = timeouts h.calls ≡ n

  on_ready-Unchanged :
      (hup input : Bool) (bytes : List ℕ) (results : List Written) (h : Host S)
      → Unchanged (timeouts h.calls) (on_ready core hup input bytes results h)
  on_ready-Unchanged hup input bytes results h =
      let n = timeouts h.calls in
      let after = on_input core input bytes h in
      let heard =
        if_both (Unchanged n) (input && not (is_empty bytes)) (call core (received bytes) h) h
          (timeouts-other h.calls (received bytes) refl) refl in
      if_both (Unchanged n) (hup && h.line.is_open) (hang_up core h) (flush_rest core results after)
        (timeouts-other h.calls (event disconnected) refl)
        (if_both (Unchanged n) (after.line.is_open && not (after.line.tx_rp == after.line.tx_wp))
          (record after { line = (flush results after.line).0 }) after heard heard)

  abbrev Ended : ℕ → Host S × Bool → Type 0
  Ended n r = timeouts r.0.calls ≡ n

  -- While poll() never times out, no EV_TIMEOUT is dispatched, whether a timer is set or not, and
  -- whatever the core does.
  pub rounds-NeverQuiet :
      (polls : List Polled) (h : Host S)
      → NeverQuiet polls
      → timeouts (rounds core polls h).0.calls ≡ timeouts h.calls
  unfolding rounds
  rounds-NeverQuiet [] h busy =
      if_both (Ended (timeouts h.calls)) h.line.running (h, false) (hang_up core h, true) refl
        (timeouts-other h.calls (event disconnected) refl)
  rounds-NeverQuiet (poll_failed ∷ rest) h busy =
      let looped = call core (event pl_loop) h in
      if_both (Ended (timeouts h.calls)) h.line.running (hang_up core looped, true)
        (hang_up core h, true)
        (timeouts-other looped.calls (event disconnected) refl
          ∙ timeouts-other h.calls (event pl_loop) refl)
        (timeouts-other h.calls (event disconnected) refl)
  rounds-NeverQuiet (quiet now ∷ rest) h busy = absurd busy
  rounds-NeverQuiet (ready hup input bytes results ∷ rest) h busy =
      let looped = call core (event pl_loop) h in
      let next = on_ready core hup input bytes results looped in
      if_both (Ended (timeouts h.calls)) h.line.running (rounds core rest next)
        (hang_up core h, true)
        (rounds-NeverQuiet rest next busy
          ∙ on_ready-Unchanged hup input bytes results looped
          ∙ timeouts-other h.calls (event pl_loop) refl)
        (timeouts-other h.calls (event disconnected) refl)
