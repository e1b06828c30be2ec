-- ===== src/Gcf/Clock.antt =====
-- What the calls of the timer and of PL_ShutDown that gcf.c makes add up to, and the states in which
-- it may wait for the next event.
use gcfflashero.Base.{ℕ, ◌≡◌, refl, sym, subst, ap, ◌∙◌, List, [], ◌∷◌, ◌++◌}
use gcfflashero.Gcf.{
  Gcf, Effect, set_timeout, clear_timeout, shut_down, State, Substate, no_substate, reset_uart,
  Task, t_reset, t_program,
}

-- No timer is set, one is set, or the program is over.
pub data Clock : Type 0 where
  idle armed over : Clock

abbrev pub tick : Clock → Effect → Clock
tick over e = over
tick c (set_timeout ms) = armed
tick c clear_timeout = idle
tick c shut_down = over
tick c e = c

abbrev pub clock_after : Clock → List Effect → Clock
clock_after c [] = c
clock_after c (e ∷ es) = clock_after (tick c e) es

pub clock_after-snoc :
    (c : Clock) (es : List Effect) (e : Effect)
    → clock_after c (es ++ e ∷ []) ≡ tick (clock_after c es) e
clock_after-snoc c [] e = refl
clock_after-snoc c (d ∷ es) e = clock_after-snoc (tick c d) es e

-- Something will happen still, or nothing needs to.
abbrev pub Alive : Clock → Type 0
Alive idle = ⊥
Alive _ = Unit

abbrev pub IsResetTask : Task → Type 0
IsResetTask t_reset = Unit
IsResetTask t_program = Unit
IsResetTask _ = ⊥

-- The states in which EV_TIMEOUT is handled. ST_Reset hands it to ST_ResetUart, or the device has
-- been reset and the program is over.
abbrev pub RestAt : Clock → State → Substate → Task → Type 0
RestAt c State.reset no_substate t = c ≡ over
RestAt c State.reset reset_uart t = IsResetTask t
RestAt c State.reset s t = ⊥
RestAt c State.void s t = ⊥
RestAt c State.program s t = ⊥
RestAt c State.v1_program_write_header s t = ⊥
RestAt c State.connect s t = ⊥
RestAt c State.list_devices s t = ⊥
RestAt c _ s t = Unit

-- The states to which EV_ACTION is sent.
abbrev pub ActionAt : Clock → State → Task → Type 0
ActionAt c State.program t = IsResetTask t
ActionAt c State.reset t = IsResetTask t
ActionAt c State.void t = c ≡ over
ActionAt c State.connect t = Unit
ActionAt c State.list_devices t = Unit
ActionAt c State.v1_program_sync t = Unit
ActionAt c State.v1_program_write_header t = Unit
ActionAt c State.v3_program_sync t = Unit
ActionAt c State.bootloader_query t = Unit
ActionAt c _ t = ⊥

-- Every call but PL_ClearTimeout.
abbrev pub Plain : Effect → Type 0
Plain clear_timeout = ⊥
Plain _ = Unit

tick-Alive : (c : Clock) (e : Effect) → Plain e → Alive c → Alive (tick c e)
tick-Alive idle e plain alive = absurd alive
tick-Alive over e plain alive = tt
tick-Alive armed clear_timeout plain alive = plain
tick-Alive armed (set_timeout ms) plain alive = tt
tick-Alive armed _ plain alive = tt

tick-set_timeout : (c : Clock) (ms : ℕ) → Alive (tick c (set_timeout ms))
tick-set_timeout idle ms = tt
tick-set_timeout armed ms = tt
tick-set_timeout over ms = tt

tick-shut_down : (c : Clock) → tick c shut_down ≡ over
tick-shut_down idle = refl
tick-shut_down armed = refl
tick-shut_down over = refl

RestAt-tick :
    (c : Clock) (s : State) (ss : Substate) (t : Task) (e : Effect)
    → RestAt c s ss t
    → RestAt (tick c e) s ss t
RestAt-tick c State.reset no_substate t e rest = ap (λ k. tick k e) rest
RestAt-tick c State.reset reset_uart t e rest = rest
RestAt-tick c State.reset _ t e rest = rest
RestAt-tick c State.void ss t e rest = rest
RestAt-tick c _ ss t e rest = rest

module _ (c0 : Clock) where
  abbrev pub clock : Gcf → Clock
  clock gcf = clock_after c0 gcf.effects

  -- The state may wait.
  abbrev pub Calm : Gcf → Type 0
  Calm gcf = RestAt (clock gcf) gcf.state gcf.substate gcf.task

  -- One more call.
  abbrev pub then_did : Gcf → Effect → Gcf
  then_did gcf e = record gcf { effects = gcf.effects ++ e ∷ [] }

  pub then_did-Calm : (gcf : Gcf) (e : Effect) → Calm gcf → Calm (then_did gcf e)
  then_did-Calm gcf e calm =
      subst (λ c. RestAt c gcf.state gcf.substate gcf.task)
        (sym (clock_after-snoc c0 gcf.effects e))
        (RestAt-tick (clock gcf) gcf.state gcf.substate gcf.task e calm)

  pub then_did-Alive :
      (gcf : Gcf) (e : Effect) → Plain e → Alive (clock gcf) → Alive (clock (then_did gcf e))
  then_did-Alive gcf e plain alive =
      subst Alive (sym (clock_after-snoc c0 gcf.effects e)) (tick-Alive (clock gcf) e plain alive)

  pub set_timeout-Alive :
      (es : List Effect) (ms : ℕ) → Alive (clock_after c0 (es ++ set_timeout ms ∷ []))
  set_timeout-Alive es ms =
      subst Alive (sym (clock_after-snoc c0 es (set_timeout ms)))
        (tick-set_timeout (clock_after c0 es) ms)

  pub shut_down_over : (es : List Effect) → clock_after c0 (es ++ shut_down ∷ []) ≡ over
  shut_down_over es = clock_after-snoc c0 es shut_down ∙ tick-shut_down (clock_after c0 es)

  pub shut_down-Alive : (es : List Effect) → Alive (clock_after c0 (es ++ shut_down ∷ []))
  shut_down-Alive es = subst Alive (sym (shut_down_over es)) tt
