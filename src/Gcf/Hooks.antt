-- ===== src/Gcf/Hooks.antt =====
-- What the handlers of gcf.c may expect of the events that they dispatch, and what the code that
-- writes to the line and that gives up does to the timer and the state.
use gcfflashero.Base.{
  ℕ, ◌≡◌, Bool, true, false, ◌⊎◌, inl, inr, Option, none, some, ltb, if◌then◌else◌, ◌&&◌, ◌==◌,
}
use gcfflashero.Gcf.{
  Gcf, Platform, Act, ◌⨾◌, Effect, set_timeout, shut_down, State, no_substate, did, put_line,
  retry_later, Event, action, reset_success, disconnected, rx_ascii, uart_reset_success,
  uart_reset_failed, ftdi_reset_success, ftdi_reset_failed, rasp_bee_reset_success,
  rasp_bee_reset_failed,
}
use gcfflashero.Gcf.Clock.{
  Clock, over, Alive, IsResetTask, ActionAt, Plain, clock, Calm, then_did-Calm, then_did-Alive,
  set_timeout-Alive, shut_down-Alive,
}
use gcfflashero.Gcf.Upload.{update_progress}

abbrev Holds : (Gcf → Type 0) → Option Gcf → Type 0
Holds Q none = Unit
Holds Q (some gcf) = Q gcf

-- What holds of the state that the code leaves, if it returns.
pub record Ensures (Q : Gcf → Type 0) (o : Option Gcf) : Type 0 where
  pub holds : Holds Q o

pub ret : {Q : Gcf → Type 0} {g : Gcf} → Q g → Ensures Q (some g)
ret q = record { holds = q }

pub Ensures-imp :
    {Q R : Gcf → Type 0} (o : Option Gcf) → Ensures Q o → ((g : Gcf) → Q g → R g) → Ensures R o
Ensures-imp none h imp = record { holds = tt }
Ensures-imp (some g) h imp = ret (imp g h.holds)

pub seq :
    {Q R : Gcf → Type 0} (o : Option Gcf) (second : Act)
    → Ensures Q o
    → ((g : Gcf) → Q g → Ensures R (second g))
    → Ensures R (elim o [ none ↦ none | some g ↦ second g ])
seq none second h next = record { holds = tt }
seq (some g) second h next = next g h.holds

pub pick :
    {Q : Gcf → Type 0} (b : Bool) {x y : Option Gcf}
    → Ensures Q x
    → Ensures Q y
    → Ensures Q (if b then x else y)
pick true hx hy = hx
pick false hx hy = hy

-- A call that divides by 0 leaves nothing to hold.
pub progress :
    {Q : Gcf → Type 0} (shown : Bool) (gcf : Gcf) {o : Option Gcf}
    → Ensures Q o
    → Ensures Q (update_progress shown gcf o)
progress shown gcf h = pick (shown && gcf.file.file_size == 0) {x = none} (record { holds = tt }) h

-- The events that end a reset.
abbrev pub IsResetEvent : Event → Type 0
IsResetEvent uart_reset_success = Unit
IsResetEvent uart_reset_failed = Unit
IsResetEvent ftdi_reset_success = Unit
IsResetEvent ftdi_reset_failed = Unit
IsResetEvent rasp_bee_reset_success = Unit
IsResetEvent rasp_bee_reset_failed = Unit
IsResetEvent _ = ⊥

module _ (c0 : Clock) where
  -- The program waits, and something will end the wait.
  abbrev pub Live : Gcf → Type 0
  Live gcf = Alive (clock c0 gcf) × Calm c0 gcf

  abbrev pub Done : Gcf → Type 0
  Done gcf = Live gcf ⊎ (clock c0 gcf ≡ over)

  -- The state may wait, as before.
  abbrev pub Follows : Gcf → Gcf → Type 0
  Follows gcf gcf' = (Alive (clock c0 gcf) → Alive (clock c0 gcf')) × Calm c0 gcf'

  abbrev pub Onward : Gcf → Gcf → Type 0
  Onward gcf gcf' = Follows gcf gcf' ⊎ (clock c0 gcf' ≡ over)

  pub Done-Onward : (g g' : Gcf) → Done g' → Onward g g'
  Done-Onward g g' (inl live) = inl (λ alive. live.0, live.1)
  Done-Onward g g' (inr e) = inr e

  pub record Hooks (d : Event → Act) : Type 0 where
    pub on_action : (g : Gcf) → ActionAt (clock c0 g) g.state g.task → Ensures Done (d action g)
    pub on_program : (g : Gcf) → g.state ≡ State.program → Ensures Live (d reset_success g)
    pub on_reset :
        (g : Gcf) (e : Event)
        → IsResetEvent e
        → g.state ≡ State.reset
        → IsResetTask g.task
        → Ensures Live (d e g)
    pub on_disconnected : (g : Gcf) → Calm c0 g → Ensures (Follows g) (d disconnected g)
    pub on_disconnected_idle :
        (g : Gcf)
        → g.state ≡ State.reset
        → g.substate ≡ no_substate
        → Ensures (λ g'. g' ≡ g) (d disconnected g)
    pub on_rx_ascii : (g : Gcf) → Calm c0 g → Ensures (Onward g) (d rx_ascii g)

  -- gcfRetry, from a state that may wait.
  pub retried : (p : Platform) (g : Gcf) → Calm c0 g → Ensures Live (retry_later p g)
  unfolding retry_later
  retried p g calm =
      pick (ltb p.now g.max_time) (ret (set_timeout-Alive c0 g.effects 250, tt))
        (ret (shut_down-Alive c0 g.effects, then_did-Calm c0 g shut_down calm))

  module _ (p : Platform) (d : Event → Act) (h : Hooks d) where
    -- What is written to the line, which may turn out to be closed.
    pub line : (e : Effect) (g : Gcf) → Plain e → Calm c0 g → Ensures (Follows g) (put_line p d e g)
    line e g plain calm = written p.line_open
      where
        written : (b : Bool) → Ensures (Follows g) ((if b then did e else d disconnected) g)
        written true = ret (then_did-Alive c0 g e plain, then_did-Calm c0 g e calm)
        written false = h.on_disconnected g calm

    -- The same, and the timer set after it.
    pub line_then_timer :
        (e : Effect) (ms : ℕ) (g : Gcf)
        → Plain e
        → Calm c0 g
        → Ensures Live ((put_line p d e ⨾ did (set_timeout ms)) g)
    line_then_timer e ms g plain calm =
        seq (put_line p d e g) (did (set_timeout ms)) (line e g plain calm) (λ g' f.
          ret (set_timeout-Alive c0 g'.effects ms, then_did-Calm c0 g' (set_timeout ms) f.1))
