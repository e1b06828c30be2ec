-- ===== src/Gcf/Runs.antt =====
-- The runs of GCFFlasher, event by event, between gcf.c and the platform layer, which carries out the
-- calls of one event before it sends the next.
use gcfflashero.Base.{ℕ, ◌≡◌, refl, sym, subst, List, [], ◌⊎◌, inl, inr, Option, some, arith}
use gcfflashero.Gcf.{
  Gcf, Platform, State, Event, timeout, Substate, no_substate, reset_uart, Task, pl_started,
  rx_ascii, rx_btl_pkg_data, pkg_uart_reset, disconnected, pl_loop,
}
use gcfflashero.Gcf.Clock.{Clock, idle, armed, over, Alive, RestAt, clock, Calm}
use gcfflashero.Gcf.Hooks.{Ensures}
use gcfflashero.Gcf.Machine.{handle}
use gcfflashero.Gcf.Nesting.{handle_returns}
use gcfflashero.Gcf.Returns.{ShowsProgress}
use gcfflashero.Gcf.Waits.{Expected, handled-Done}
use gcfflashero.Protocol.{RxState}

-- The calls have been carried out.
abbrev pub performed : Gcf → Gcf
performed gcf = record gcf { effects = [] }

-- The bytes that came in stand in the buffers, whatever they are.
abbrev pub with_input : List ℕ → ℕ → RxState → Gcf → Gcf
with_input ascii wp rx gcf = record gcf { ascii = ascii; wp = wp; rxstate = rx; effects = [] }

-- The events that do not come from the timer.
pub data Heard : Event → Type 0 where
  heard_ascii : Heard rx_ascii
  heard_packet : Heard rx_btl_pkg_data
  heard_reset : Heard pkg_uart_reset
  heard_closed : Heard disconnected
  heard_loop : Heard pl_loop

-- What one event after another leaves of the state and the timer. The timer that runs out is not set
-- any more; a program that is over gets no events. An event that ends the program by a division by 0
-- is no step.
pub data Run (start : Gcf) : Clock → Gcf → Type 0 where
  begun :
      (p : Platform) (gcf : Gcf)
      → handle 7 p pl_started (performed start) ≡ some gcf
      → Run start (clock idle gcf) gcf
  waited :
      {gcf : Gcf} (p : Platform) (gcf' : Gcf)
      → Run start armed gcf
      → handle 7 p timeout (performed gcf) ≡ some gcf'
      → Run start (clock idle gcf') gcf'
  heard :
      {gcf : Gcf} {event : Event} (p : Platform) (ascii : List ℕ) (wp : ℕ) (rx : RxState)
      (gcf' : Gcf)
      → Heard event
      → Run start armed gcf
      → handle 7 p event (with_input ascii wp rx gcf) ≡ some gcf'
      → Run start (clock armed gcf') gcf'

-- What `Done` says, without the timer before the event.
abbrev Rests : Clock → Gcf → Type 0
Rests c gcf = (Alive c × Calm c (performed gcf)) ⊎ (c ≡ over)

from_some : {Q : Gcf → Type 0} (o : Option Gcf) (gcf : Gcf) → Ensures Q o → o ≡ some gcf → Q gcf
from_some {Q} o gcf h e = Ensures.holds (subst (Ensures Q) e h)

expected : (event : Event) (s : State) → Heard event → Expected armed event s
expected event s heard_ascii = tt
expected event s heard_packet = tt
expected event s heard_reset = tt
expected event s heard_closed = tt
expected event s heard_loop = tt

start-Calm : (s : State) (start : Gcf) → s ≡ State.init → RestAt idle s start.substate start.task
start-Calm s start at = subst (λ k. RestAt idle k start.substate start.task) (sym at) tt

armed_not_over : armed ≡ over → ⊥
armed_not_over e = absurd (subst IsArmed e tt)
  where
    IsArmed : Clock → Type 0
    IsArmed armed = Unit
    IsArmed _ = ⊥

rest-Calm : (gcf : Gcf) → Rests armed gcf → Calm armed (performed gcf)
rest-Calm gcf (inl r) = r.1
rest-Calm gcf (inr e) = absurd (armed_not_over e)

-- A state that waits with a timer may be woken by it.
woken : (s : State) (ss : Substate) (t : Task) → RestAt armed s ss t → RestAt idle s ss t
woken State.reset no_substate t r = absurd (armed_not_over r)
woken State.reset reset_uart t r = r
woken State.reset _ t r = absurd r
woken State.void ss t r = absurd r
woken State.program ss t r = absurd r
woken State.v1_program_write_header ss t r = absurd r
woken State.connect ss t r = absurd r
woken State.list_devices ss t r = absurd r
woken _ ss t r = tt

Run-Rests :
    (start : Gcf) {c : Clock} {gcf : Gcf} → start.state ≡ State.init → Run start c gcf → Rests c gcf
Run-Rests start at (begun p gcf e) =
    from_some _ gcf
      (handled-Done idle p 6 pl_started (performed start) (start-Calm start.state start at) at) e
Run-Rests start at (waited {gcf} p gcf' run e) =
    from_some _ gcf'
      (handled-Done idle p 6 timeout (performed gcf)
        (woken gcf.state gcf.substate gcf.task (rest-Calm gcf (Run-Rests start at run))) tt)
      e
Run-Rests start at (heard {gcf} {event} p ascii wp rx gcf' h run e) =
    from_some _ gcf'
      (handled-Done armed p 6 event (with_input ascii wp rx gcf)
        (rest-Calm gcf (Run-Rests start at run)) (expected event gcf.state h))
      e

quiet : (s : State) → ShowsProgress timeout s → ⊥
quiet s shown = absurd shown

timer_armed : (c : Clock) → Alive c → (c ≡ armed) ⊎ (c ≡ over)
timer_armed idle alive = absurd alive
timer_armed armed alive = inl refl
timer_armed over alive = inr refl

-- In a build with NDEBUG, between the events of a run that begins in ST_Init, either the timer is
-- set, and its EV_TIMEOUT is handled to the end whatever the platform layer answers, or PL_ShutDown
-- has been called. A run is EV_PL_STARTED and then, while the timer is set, any sequence of
-- EV_TIMEOUT, which takes the timer away, EV_RX_ASCII, EV_RX_BTL_PKG_DATA, EV_PKG_UART_RESET,
-- EV_DISCONNECTED and EV_PL_LOOP, with any answers of the platform layer and any input in the
-- buffers; an event whose handler ends the program by a division by 0 is not part of one.
pub run_waits_with_timer :
    (start : Gcf) (c : Clock) (gcf : Gcf)
    → start.state ≡ State.init
    → Run start c gcf
    → ((c ≡ armed)
        × ((p : Platform) → (gcf' : Gcf) × (handle 7 p timeout (performed gcf) ≡ some gcf')))
      ⊎ (c ≡ over)
run_waits_with_timer start c gcf at run = elim (Run-Rests start at run) [
  | inr e ↦ inr e
  | inl r ↦ elim (timer_armed c r.0) [
    | inr e ↦ inr e
    | inl e ↦ inl (
      e,
      λ p.
          handle_returns 7 p timeout (performed gcf) (omega arith)
            (λ shown. absurd (quiet gcf.state shown)),
    )
  ]
]
