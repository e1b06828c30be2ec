-- ===== src/Gcf/Alive.antt =====
-- The handlers of gcf.c leave a state that may wait, and with a timer set: one lemma for each event,
-- from what the events that it dispatches do.
use gcfflashero.Base.{◌≡◌, refl, Bool, true, false, ◌||◌, [], ◌∷◌, ◌++◌, if◌then◌else◌}
use gcfflashero.Gcf.{
  Gcf, Platform, Act, clear_timeout, State, Substate, no_substate, reset_uart, Task, t_reset,
  t_program, t_none, Event, reset_success, disconnected, uart_reset_success, uart_reset_failed,
  ftdi_reset_success, ftdi_reset_failed, rasp_bee_reset_success, rasp_bee_reset_failed,
}
use gcfflashero.Gcf.Clock.{
  Clock, IsResetTask, RestAt, clock, set_timeout-Alive, shut_down-Alive, shut_down_over,
}
use gcfflashero.Gcf.Hooks.{
  Ensures, Ensures-imp, ret, pick, IsResetEvent, Live, Follows, Hooks, retried,
}
use gcfflashero.Gcf.Machine.{run_state}
use gcfflashero.Gcf.Reset.{
  is_con_bee_1, is_rasp_bee_1, is_rasp_bee_2, reset_done, run_substate, uart_failed,
}

-- The same, in another state.
abbrev pub at_state : State → Gcf → Gcf
at_state s g = record g { state = s }

module _ (c0 : Clock) (p : Platform) (d : Event → Act) (h : Hooks c0 d) where
  pub run-program : (g : Gcf) → Ensures (Live c0) (run_state p d State.program reset_success g)
  run-program g =
      pick _ (ret (set_timeout-Alive c0 g.effects 5000, tt))
        (ret (set_timeout-Alive c0 g.effects 500, tt))

  done-Live :
      (t : Task) (g : Gcf)
      → IsResetTask t
      → Ensures (Live c0) (reset_done p d (record g { state = State.reset; task = t }))
  done-Live t_reset g ok = ret (shut_down-Alive c0 g.effects, shut_down_over c0 g.effects)
  done-Live t_program g ok = h.on_program _ refl
  done-Live t_none g ok = absurd ok
  done-Live _ g ok = absurd ok

  ftdi_event :
      (b : Bool) (g : Gcf)
      → g.state ≡ State.reset
      → IsResetTask g.task
      → Ensures (Live c0) (d (if b then ftdi_reset_success else ftdi_reset_failed) g)
  ftdi_event true g e ok = h.on_reset g ftdi_reset_success tt e ok
  ftdi_event false g e ok = h.on_reset g ftdi_reset_failed tt e ok

  rasp_bee_event :
      (b : Bool) (g : Gcf)
      → g.state ≡ State.reset
      → IsResetTask g.task
      → Ensures (Live c0) (d (if b then rasp_bee_reset_success else rasp_bee_reset_failed) g)
  rasp_bee_event true g e ok = h.on_reset g rasp_bee_reset_success tt e ok
  rasp_bee_event false g e ok = h.on_reset g rasp_bee_reset_failed tt e ok

  pub pick_act :
      {Q : Gcf → Type 0} (b : Bool) (x y : Act) (g : Gcf)
      → Ensures Q (x g)
      → Ensures Q (y g)
      → Ensures Q ((if b then x else y) g)
  pick_act true x y g hx hy = hx
  pick_act false x y g hx hy = hy

  uart_failed-Live :
      (g : Gcf) → g.state ≡ State.reset → IsResetTask g.task → Ensures (Live c0) (uart_failed p d g)
  uart_failed-Live g e ok =
      pick (is_con_bee_1 g.dev_type)
        (pick_act p.connects _ _ _ (ftdi_event p.ftdi_resets _ e ok)
          (h.on_reset _ uart_reset_success tt e ok))
        (pick (is_rasp_bee_1 g.dev_type || is_rasp_bee_2 g.dev_type)
          (pick_act p.connects _ _ _ (rasp_bee_event p.rasp_bee_resets _ e ok)
            (h.on_reset _ uart_reset_success tt e ok))
          (h.on_reset _ uart_reset_success tt e ok))

  pub run-reset :
      (e : Event) (g : Gcf)
      → IsResetEvent e
      → IsResetTask g.task
      → Ensures (Live c0) (run_state p d State.reset e (at_state State.reset g))
  run-reset uart_reset_success g e ok = done-Live g.task g ok
  run-reset ftdi_reset_success g e ok = done-Live g.task g ok
  run-reset rasp_bee_reset_success g e ok = done-Live g.task g ok
  run-reset ftdi_reset_failed g e ok = h.on_reset _ ftdi_reset_success tt refl ok
  run-reset rasp_bee_reset_failed g e ok = h.on_reset _ rasp_bee_reset_success tt refl ok
  run-reset uart_reset_failed g e ok = uart_failed-Live (at_state State.reset g) refl ok
  run-reset _ g e ok = absurd e

  -- EV_DISCONNECTED
  sub-disconnected :
      (ss : Substate) (g : Gcf)
      → RestAt (clock c0 g) State.reset ss g.task
      → Ensures
          (Follows c0 g)
          (run_substate p d ss disconnected (record g { state = State.reset; substate = ss }))
  sub-disconnected no_substate g rest = ret (λ a. a, rest)
  sub-disconnected reset_uart g rest =
      Ensures-imp _ (h.on_reset _ uart_reset_success tt refl rest)
        (λ g' live. (λ a. live.0, live.1))
  sub-disconnected _ g rest = absurd rest

  pub run-disconnected :
      (s : State) (g : Gcf)
      → RestAt (clock c0 g) s g.substate g.task
      → Ensures (Follows c0 g) (run_state p d s disconnected (at_state s g))
  run-disconnected State.bootloader_query g rest =
      Ensures-imp _ (retried c0 p (at_state State.bootloader_query g) tt)
        (λ g' live. (λ a. live.0, live.1))
  run-disconnected State.connected g rest =
      ret (λ a. set_timeout-Alive c0 (g.effects ++ clear_timeout ∷ []) 1000, tt)
  run-disconnected State.reset g rest = sub-disconnected g.substate g rest
  run-disconnected _ g rest = ret (λ a. a, rest)
