-- ===== src/Gcf/Awake.antt =====
-- The handlers of gcf.c for EV_ACTION and EV_RX_ASCII leave a state that may wait, and with a
-- timer set.
use gcfflashero.Base.{
  ℕ, sym, subst, Bool, true, false, List, [], ◌∷◌, ◌++◌, inl, inr, some, leb, if◌then◌else◌,
}
use gcfflashero.Gcf.{
  Gcf, Platform, Act, ◌⨾◌, Effect, set_timeout, sleep, clear_timeout, connect_to, sent_flagged,
  State, Substate, no_substate, reset_uart, put_line, retry_later, Event, action, rx_ascii,
}
use gcfflashero.Gcf.Alive.{at_state, pick_act}
use gcfflashero.Gcf.Clock.{
  Clock, IsResetTask, ActionAt, RestAt, Plain, clock, Calm, then_did-Calm, then_did-Alive,
  set_timeout-Alive, shut_down_over,
}
use gcfflashero.Gcf.Hooks.{
  Ensures, Ensures-imp, ret, seq, pick, progress, Live, Done, Onward, Done-Onward, Hooks, retried,
  line, line_then_timer,
}
use gcfflashero.Gcf.Machine.{run_state}
use gcfflashero.Gcf.Reset.{
  is_reset, run_substate, get_devices, query_version_command, reset_uart_command,
}
use gcfflashero.Gcf.Upload.{v1_serve, v1_page, v1_end}
use gcfflashero.Gcf.Kept.{get_devices-Kept}

module _ (c0 : Clock) (p : Platform) (d : Event → Act) (h : Hooks c0 d) where
  pub line_Live :
      (e : Effect) (g : Gcf) → Plain e → Live c0 g → Ensures (Live c0) (put_line p d e g)
  line_Live e g plain live =
      Ensures-imp _ (line c0 p d h e g plain live.1) (λ g' f. (f.0 live.0, f.1))

  -- EV_ACTION
  start_uart :
      (g : Gcf)
      → Live c0 g
      → Ensures (Live c0) (
          if p.connects
          then ((if is_reset g.task
                  then put_line p d (sent_flagged query_version_command)
                  else some)
                ⨾ put_line p d (sent_flagged reset_uart_command))
              g
          else some g)
  start_uart g live =
      pick p.connects
        (seq _ (put_line p d (sent_flagged reset_uart_command))
          (pick_act c0 p d h (is_reset g.task) _ _ g (line_Live _ g tt live) (ret live))
          (λ g' live'. line_Live (sent_flagged reset_uart_command) g' tt live'))
        (ret live)

  -- What ST_ResetUart does first.
  abbrev uart_started : Gcf → Gcf
  uart_started g = record g {
    state = State.reset;
    wp = 0;
    substate = reset_uart;
    effects = g.effects ++ set_timeout 3000 ∷ [] ++ connect_to g.devpath g.dev_baudrate ∷ [];
  }

  abbrev connected_to : Gcf → List Effect
  connected_to g = g.effects ++ connect_to g.devpath g.dev_baudrate ∷ []

  pub run-action :
      (s : State) (g : Gcf)
      → ActionAt (clock c0 g) s g.task
      → Ensures (Done c0) (run_state p d s action (at_state s g))
  run-action State.void g ok = ret (inr ok)
  run-action State.program g ok =
      h.on_action _
        (subst IsResetTask (sym (get_devices-Kept p (at_state State.program g)).same_task) ok)
  run-action State.reset g ok =
      Ensures-imp _
        (start_uart (uart_started g) (
          then_did-Alive c0 (record g { effects = g.effects ++ set_timeout 3000 ∷ [] })
              (connect_to g.devpath g.dev_baudrate) tt (set_timeout-Alive c0 g.effects 3000),
          ok,
        ))
        (λ g' live. inl live)
  run-action State.connect g ok =
      pick_act c0 p d h p.connects _ _ _
        (ret (inl (set_timeout-Alive c0 (connected_to g) 1000, tt)))
        (ret (inl (set_timeout-Alive c0 (connected_to g) 10000, tt)))
  run-action State.list_devices g ok =
      ret (inr (shut_down_over c0 (get_devices p (at_state State.list_devices g)).effects))
  run-action State.v1_program_sync g ok =
      Ensures-imp _ (line_then_timer c0 p d h _ 500 _ tt tt) (λ g' live. inl live)
  run-action State.v1_program_write_header g ok =
      Ensures-imp _ (line_then_timer c0 p d h _ 1000 _ tt tt) (λ g' live. inl live)
  run-action State.v3_program_sync g ok =
      Ensures-imp _ (line_Live _ _ tt (set_timeout-Alive c0 (g.effects ++ sleep 50 ∷ []) 1000, tt))
        (λ g' live. inl live)
  run-action State.bootloader_query g ok = ret (inl (set_timeout-Alive c0 g.effects 200, tt))
  run-action _ g ok = absurd ok

  -- EV_RX_ASCII
  v1_serve-Live : (page end : ℕ) (g : Gcf) → Calm c0 g → Ensures (Live c0) (v1_serve p d page end g)
  v1_serve-Live page end g calm = progress _ g (
      seq _ _ (line c0 p d h _ _ tt calm) (λ g' f.
        pick _ (ret (set_timeout-Alive c0 g'.effects 25600, tt))
          (ret (set_timeout-Alive c0 g'.effects 2000, then_did-Calm c0 g' (set_timeout 2000) f.1))))

  -- A page request past the end is first made to wait.
  page_wait :
      (b : Bool) (g : Gcf) → Calm c0 g → Ensures (Calm c0) ((if b then retry_later p else some) g)
  page_wait true g calm = Ensures-imp _ (retried c0 p g calm) (λ g' live. live.1)
  page_wait false g calm = ret calm

  serve_page :
      (b : Bool) (page end : ℕ) (g : Gcf)
      → Calm c0 g
      → Ensures (Onward c0 g) (((if b then retry_later p else some) ⨾ v1_serve p d page end) g)
  serve_page b page end g calm = seq _ (v1_serve p d page end) (page_wait b g calm) (λ g' calm'.
      Ensures-imp _ (v1_serve-Live page end g' calm') (λ g'' live. inl (λ a. live.0, live.1)))

  sub-rx_ascii :
      (ss : Substate) (g : Gcf)
      → RestAt (clock c0 g) State.reset ss g.task
      → Ensures
          (Onward c0 g)
          (run_substate p d ss rx_ascii (record g { state = State.reset; substate = ss }))
  sub-rx_ascii no_substate g rest = ret (inl (λ a. a, rest))
  sub-rx_ascii reset_uart g rest = ret (inl (λ a. a, rest))
  sub-rx_ascii _ g rest = absurd rest

  -- ST_BootloaderConnect hands the text on.
  abbrev heard : Gcf → Gcf
  heard g = record g {
    state = State.bootloader_query;
    substate = no_substate;
    effects = g.effects ++ clear_timeout ∷ [] ++ set_timeout 100 ∷ [];
  }

  pub run-rx_ascii :
      (s : State) (g : Gcf)
      → RestAt (clock c0 g) s g.substate g.task
      → Ensures (Onward c0 g) (run_state p d s rx_ascii (at_state s g))
  run-rx_ascii State.v1_program_sync g rest =
      pick _ (Ensures-imp _ (h.on_action _ tt) (λ g' done. Done-Onward c0 g g' done))
        (ret (inl (λ a. set_timeout-Alive c0 g.effects 500, tt)))
  run-rx_ascii State.v1_program_upload g rest =
      let g' = at_state State.v1_program_upload g in
      pick _ (ret {g = g'} (inl (λ a. a, tt)))
        (serve_page (leb (v1_end g') (v1_page g')) (v1_page g') (v1_end g') g' tt)
  run-rx_ascii State.v1_program_validate g rest =
      pick _ (ret (inr (shut_down_over c0 g.effects)))
        (ret (inl (λ a. set_timeout-Alive c0 g.effects 1000, tt)))
  run-rx_ascii State.bootloader_connect g rest =
      Ensures-imp _ (h.on_rx_ascii (heard g) tt) (λ g' onward. elim onward [
        | inl f ↦ inl (λ a. f.0 (set_timeout-Alive c0 (g.effects ++ clear_timeout ∷ []) 100), f.1)
        | inr e ↦ inr e
      ])
  run-rx_ascii State.bootloader_query g rest =
      pick _ (Ensures-imp _ (h.on_action _ tt) (λ g' done. Done-Onward c0 g g' done))
        (ret (inl (λ a. a, tt)))
  run-rx_ascii State.reset g rest = sub-rx_ascii g.substate g rest
  run-rx_ascii _ g rest = ret (inl (λ a. a, rest))
