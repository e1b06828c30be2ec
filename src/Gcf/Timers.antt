-- ===== src/Gcf/Timers.antt =====
-- The handlers of gcf.c for the bootloader's packets, for the timeout and for the start of the
-- program leave a state that may wait, and with a timer set.
use gcfflashero.Base.{ℕ, true, ◌+◌, refl, ap, sym, subst, [], ◌∷◌, ◌++◌, inl, inr}
use gcfflashero.Gcf.{
  Gcf, Platform, Act, set_timeout, connect_to, State, Substate, no_substate, reset_uart, Event,
  uart_reset_success, uart_reset_failed, timeout, rx_btl_pkg_data, pkg_uart_reset, pl_started,
}
use gcfflashero.Gcf.Alive.{at_state, pick_act}
use gcfflashero.Gcf.Awake.{line_Live}
use gcfflashero.Gcf.Bootloader.{query_again}
use gcfflashero.Gcf.Clock.{Clock, IsResetTask, RestAt, clock, set_timeout-Alive, shut_down_over}
use gcfflashero.Gcf.CommandLine.{Outcome, success, failed, process_commandline}
use gcfflashero.Gcf.Hooks.{
  Ensures, Ensures-imp, ret, seq, pick, progress, Live, Done, Onward, Done-Onward, Hooks, retried,
  line_then_timer,
}
use gcfflashero.Gcf.Machine.{run_state, begin_task}
use gcfflashero.Gcf.Reset.{run_substate}
use gcfflashero.Gcf.Started.{Ready}
use gcfflashero.Gcf.Upload.{v3_serve}
use gcfflashero.BufferHelper.{get_u16_le, get_u32_le}

module _ (c0 : Clock) (p : Platform) (d : Event → Act) (h : Hooks c0 d) where
  -- EV_RX_BTL_PKG_DATA
  v3_serve-Live :
      (offset size : ℕ) (g : Gcf) → Live c0 g → Ensures (Live c0) (v3_serve p d offset size g)
  v3_serve-Live offset size g live = progress true g (
      seq _ _ (line_Live c0 p d h _ _ tt live)
        (λ g' live'. pick _ (ret (set_timeout-Alive c0 g'.effects 20000, tt)) (ret live')))

  sub-rx_btl :
      (ss : Substate) (g : Gcf)
      → RestAt (clock c0 g) State.reset ss g.task
      → Ensures
          (Onward c0 g)
          (run_substate p d ss rx_btl_pkg_data (record g { state = State.reset; substate = ss }))
  sub-rx_btl no_substate g rest = ret (inl (λ a. a, rest))
  sub-rx_btl reset_uart g rest =
      pick _
        (Ensures-imp _ (h.on_reset _ uart_reset_success tt refl rest)
          (λ g' live. inl (λ a. live.0, live.1)))
        (ret (inl (λ a. a, rest)))
  sub-rx_btl _ g rest = absurd rest

  pub run-rx_btl_pkg_data :
      (s : State) (g : Gcf)
      → RestAt (clock c0 g) s g.substate g.task
      → Ensures (Onward c0 g) (run_state p d s rx_btl_pkg_data (at_state s g))
  run-rx_btl_pkg_data State.bootloader_query g rest =
      pick _ (Ensures-imp _ (h.on_action _ tt) (λ g' done. Done-Onward c0 g g' done))
        (ret (inl (λ a. a, tt)))
  run-rx_btl_pkg_data State.v3_program_sync g rest =
      pick _ (ret (inl (λ a. set_timeout-Alive c0 g.effects 1000, tt))) (ret (inl (λ a. a, tt)))
  run-rx_btl_pkg_data State.v3_program_upload g rest =
      pick _
        (Ensures-imp _
          (v3_serve-Live (get_u32_le g.ascii 2).0 (get_u16_le g.ascii 6).0
            (record g {
              state = State.v3_program_upload;
              effects = g.effects ++ set_timeout 5000 ∷ [];
            })
            (set_timeout-Alive c0 g.effects 5000, tt))
          (λ g' live. inl (λ a. live.0, live.1)))
        (ret (inl (λ a. a, tt)))
  run-rx_btl_pkg_data State.v3_program_wait_id g rest =
      pick _ (ret (inr (shut_down_over c0 g.effects))) (ret (inl (λ a. a, tt)))
  run-rx_btl_pkg_data State.reset g rest = sub-rx_btl g.substate g rest
  run-rx_btl_pkg_data _ g rest = ret (inl (λ a. a, rest))

  -- The firmware's word that it resets.
  sub-pkg_uart_reset :
      (ss : Substate) (g : Gcf)
      → RestAt (clock c0 g) State.reset ss g.task
      → Ensures
          (Onward c0 g)
          (run_substate p d ss pkg_uart_reset (record g { state = State.reset; substate = ss }))
  sub-pkg_uart_reset no_substate g rest = ret (inl (λ a. a, rest))
  sub-pkg_uart_reset reset_uart g rest =
      pick _
        (Ensures-imp _ (h.on_reset _ uart_reset_success tt refl rest)
          (λ g' live. inl (λ a. live.0, live.1)))
        (ret (inl (λ a. a, rest)))
  sub-pkg_uart_reset _ g rest = absurd rest

  pub run-pkg_uart_reset :
      (s : State) (g : Gcf)
      → RestAt (clock c0 g) s g.substate g.task
      → Ensures (Onward c0 g) (run_state p d s pkg_uart_reset (at_state s g))
  run-pkg_uart_reset State.reset g rest = sub-pkg_uart_reset g.substate g rest
  run-pkg_uart_reset _ g rest = ret (inl (λ a. a, rest))

  -- EV_TIMEOUT
  sub-timeout :
      (ss : Substate) (g : Gcf)
      → RestAt (clock c0 g) State.reset ss g.task
      → Ensures
          (Done c0)
          (run_substate p d ss timeout (record g { state = State.reset; substate = ss }))
  sub-timeout no_substate g rest = ret (inr rest)
  sub-timeout reset_uart g rest =
      seq _ (d uart_reset_failed) (h.on_disconnected_idle _ refl refl) (λ g' e.
        Ensures-imp _
          (h.on_reset g' uart_reset_failed tt (ap Gcf.state e)
            (subst (λ k. IsResetTask k.task) (sym e) rest))
          (λ g'' live. inl live))
  sub-timeout _ g rest = absurd rest

  begun : (r : Outcome × Gcf) → Ready c0 r → Ensures (Done c0) (begin_task p d r)
  begun (failed, g) ok = ret (inr (shut_down_over c0 g.effects))
  begun (success, g) ok = h.on_action g ok.ready

  queried :
      (tries : ℕ) (g : Gcf)
      → Ensures (Live c0) (query_again p d tries (at_state State.bootloader_query g))
  queried tries g = pick _ (retried c0 p (at_state State.bootloader_query g) tt) (
      pick _ (line_then_timer c0 p d h _ 200 (at_state State.bootloader_query g) tt tt)
        (line_then_timer c0 p d h _ 200 (at_state State.bootloader_query g) tt tt))

  module _ (ready : (g : Gcf) → Ready c0 (process_commandline p g)) where
    pub run-timeout :
        (s : State) (g : Gcf)
        → RestAt (clock c0 g) s g.substate g.task
        → Ensures (Done c0) (run_state p d s timeout (at_state s g))
    run-timeout State.init g rest = begun _ (ready _)
    run-timeout State.reset g rest = sub-timeout g.substate g rest
    run-timeout State.connected g rest =
        Ensures-imp _ (line_then_timer c0 p d h _ 10000 _ tt tt) (λ g' live. inl live)
    run-timeout State.bootloader_connect g rest =
        pick_act c0 p d h p.connects _ _ _ (h.on_action _ tt) (
          ret (
            inl (
              set_timeout-Alive c0 (g.effects ++ connect_to g.devpath g.dev_baudrate ∷ []) 500,
              tt,
            )))
    run-timeout State.bootloader_query g rest =
        Ensures-imp _ (queried (g.retry + 1) (record g { retry = g.retry + 1 }))
          (λ g' live. inl live)
    run-timeout State.v1_program_sync g rest =
        Ensures-imp _ (retried c0 p (at_state State.v1_program_sync g) tt) (λ g' live. inl live)
    run-timeout State.v1_program_upload g rest =
        Ensures-imp _ (retried c0 p (at_state State.v1_program_upload g) tt) (λ g' live. inl live)
    run-timeout State.v1_program_validate g rest =
        Ensures-imp _ (retried c0 p (at_state State.v1_program_validate g) tt) (λ g' live. inl live)
    run-timeout State.v3_program_sync g rest =
        Ensures-imp _ (retried c0 p (at_state State.v3_program_sync g) tt) (λ g' live. inl live)
    run-timeout State.v3_program_upload g rest =
        Ensures-imp _ (retried c0 p (at_state State.v3_program_upload g) tt) (λ g' live. inl live)
    run-timeout State.v3_program_wait_id g rest =
        Ensures-imp _ (retried c0 p (at_state State.v3_program_wait_id g) tt) (λ g' live. inl live)
    run-timeout _ g rest = absurd rest

    pub run-pl_started :
        (g : Gcf) → Ensures (Done c0) (run_state p d State.init pl_started (at_state State.init g))
    run-pl_started g = begun _ (ready _)
