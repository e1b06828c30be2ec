-- ===== src/Gcf/Waits.antt =====
-- What GCF_HandleEvent of gcf.c leaves behind for the events of the
-- platform layer.
use gcfflashero.Base.{ℕ, zero, suc, ◌≡◌, refl, sym, subst, false, inl, inr, some, if◌then◌else◌}
use gcfflashero.Gcf.{
  Gcf, Platform, Act, State, Substate, no_substate, Event, reset_success, disconnected, rx_ascii,
  rx_btl_pkg_data, pkg_uart_reset, pl_started, pl_loop, timeout,
}
use gcfflashero.Gcf.Alive.{at_state, run-program, run-reset, run-disconnected}
use gcfflashero.Gcf.Awake.{run-action, run-rx_ascii}
use gcfflashero.Gcf.Clock.{Clock, Alive, IsResetTask, clock, Calm}
use gcfflashero.Gcf.Hooks.{Ensures, Ensures-imp, ret, IsResetEvent, Live, Done, Onward, Hooks}
use gcfflashero.Gcf.Machine.{run_state, handle, is_loop}
use gcfflashero.Gcf.Started.{process_commandline-Ready}
use gcfflashero.Gcf.Timers.{run-rx_btl_pkg_data, run-pkg_uart_reset, run-timeout, run-pl_started}

not_loop : (e : Event) → IsResetEvent e → is_loop e ≡ false
not_loop pl_loop h = absurd h
not_loop _ h = refl

module _ (c0 : Clock) (p : Platform) where
  idle-disconnected :
      (d : Event → Act) (s : State) (ss : Substate) (g : Gcf)
      → s ≡ State.reset
      → ss ≡ no_substate
      → Ensures
          (λ g'. g' ≡ record g { state = s; substate = ss })
          (run_state p d s disconnected (record g { state = s; substate = ss }))
  idle-disconnected d s ss g e e' =
      subst
        (λ k.
          Ensures (λ g'. g' ≡ record g { state = k; substate = ss })
            (run_state p d k disconnected (record g { state = k; substate = ss })))
        (sym e)
        (subst
          (λ k.
            Ensures (λ g'. g' ≡ record g { state = State.reset; substate = k })
              (run_state p d State.reset disconnected
                (record g { state = State.reset; substate = k })))
          (sym e') (ret refl))

  module _ (d : Event → Act) (h : Hooks c0 d) where
    reset-Live :
        (e : Event) (s : State) (g : Gcf)
        → IsResetEvent e
        → s ≡ State.reset
        → IsResetTask g.task
        → Ensures (Live c0) (run_state p d s e (at_state s g))
    reset-Live e s g ends at ok =
        subst (λ k. Ensures (Live c0) (run_state p d k e (at_state k g))) (sym at)
          (run-reset c0 p d h e g ends ok)

    program-Live :
        (s : State) (g : Gcf)
        → s ≡ State.program
        → Ensures (Live c0) (run_state p d s reset_success (at_state s g))
    program-Live s g at =
        subst (λ k. Ensures (Live c0) (run_state p d k reset_success (at_state k g))) (sym at)
          (run-program c0 p d h (at_state State.program g))

  -- The nested calls of the dispatcher do what the handlers expect of them.
  handle-Hooks : (n : ℕ) → Hooks c0 (handle n p)
  unfolding handle
  handle-Hooks zero = record {
    on_action = λ g ok. record { holds = tt };
    on_program = λ g at. record { holds = tt };
    on_reset = λ g e ends at ok. record { holds = tt };
    on_disconnected = λ g calm. record { holds = tt };
    on_disconnected_idle = λ g at at'. record { holds = tt };
    on_rx_ascii = λ g calm. record { holds = tt };
  }
  handle-Hooks (suc n) =
      let d = handle n p in
      let h = handle-Hooks n in
      record {
        on_action = λ g ok. run-action c0 p d h g.state g ok;
        on_program = λ g at. program-Live d h g.state g at;
        on_reset = λ g e ends at ok.
            subst (λ b. Ensures (Live c0) (if b then some g else run_state p d g.state e g))
              (sym (not_loop e ends)) (reset-Live d h e g.state g ends at ok);
        on_disconnected = λ g calm. run-disconnected c0 p d h g.state g calm;
        on_disconnected_idle = λ g at at'. idle-disconnected d g.state g.substate g at at';
        on_rx_ascii = λ g calm. run-rx_ascii c0 p d h g.state g calm;
      }

-- What the platform layer sends. A timeout needs no timer any more, and the first event finds the
-- state ST_Init; the others find a state that waits with a timer.
abbrev pub Expected : Clock → Event → State → Type 0
Expected c timeout s = Unit
Expected c pl_started s = s ≡ State.init
Expected c rx_ascii s = Alive c
Expected c rx_btl_pkg_data s = Alive c
Expected c pkg_uart_reset s = Alive c
Expected c disconnected s = Alive c
Expected c pl_loop s = Alive c
Expected c _ s = ⊥

module _ (c0 : Clock) (p : Platform) (n : ℕ) where
  onward : (g g' : Gcf) → Alive (clock c0 g) → Onward c0 g g' → Done c0 g'
  onward g g' alive (inl f) = inl (f.0 alive, f.1)
  onward g g' alive (inr e) = inr e

  started-Done :
      (d : Event → Act) (h : Hooks c0 d) (s : State) (g : Gcf)
      → s ≡ State.init
      → Ensures (Done c0) (run_state p d s pl_started (at_state s g))
  started-Done d h s g at =
      subst (λ k. Ensures (Done c0) (run_state p d k pl_started (at_state k g))) (sym at)
        (run-pl_started c0 p d h (process_commandline-Ready c0 p) g)

  pub handled-Done :
      (event : Event) (g : Gcf)
      → Calm c0 g
      → Expected (clock c0 g) event g.state
      → Ensures (Done c0) (handle (suc n) p event g)
  unfolding handle
  handled-Done timeout g calm wakes =
      run-timeout c0 p (handle n p) (handle-Hooks c0 p n) (process_commandline-Ready c0 p) g.state g
        calm
  handled-Done pl_started g calm at = started-Done (handle n p) (handle-Hooks c0 p n) g.state g at
  handled-Done rx_ascii g calm alive =
      Ensures-imp _ (run-rx_ascii c0 p (handle n p) (handle-Hooks c0 p n) g.state g calm)
        (λ g' o. onward g g' alive o)
  handled-Done rx_btl_pkg_data g calm alive =
      Ensures-imp _ (run-rx_btl_pkg_data c0 p (handle n p) (handle-Hooks c0 p n) g.state g calm)
        (λ g' o. onward g g' alive o)
  handled-Done pkg_uart_reset g calm alive =
      Ensures-imp _ (run-pkg_uart_reset c0 p (handle n p) (handle-Hooks c0 p n) g.state g calm)
        (λ g' o. onward g g' alive o)
  handled-Done disconnected g calm alive =
      Ensures-imp _ (run-disconnected c0 p (handle n p) (handle-Hooks c0 p n) g.state g calm)
        (λ g' f. inl (f.0 alive, f.1))
  handled-Done pl_loop g calm alive = ret (inl (alive, calm))
  handled-Done _ g calm wakes = absurd wakes
