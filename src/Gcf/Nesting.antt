-- ===== src/Gcf/Nesting.antt =====
-- GCF_HandleEvent (gcf.c) returns: its calls from handlers are not nested deeper than seven.
use gcfflashero.Base.{
  ℕ, suc, ◌-◌, ◌≤◌, ◌<◌, ◌≡◌, refl, sym, subst, arith, Bool, true, false, some, if◌then◌else◌,
}
use gcfflashero.Gcf.{Gcf, Platform, Event, State}
use gcfflashero.Gcf.Machine.{run_state, handle}
use gcfflashero.Gcf.Returns
use gcfflashero.Gcf.Returns.{Total, ShowsProgress}

module _ (p : Platform) where
  -- A nested call of the dispatcher, with fuel for one call more than `n`.
  after_reset : (n : ℕ) → Total (handle (suc n) p Event.reset_success)
  unfolding handle
  after_reset n gcf = Returns.run-reset_success p (handle n p) gcf.state gcf

  uart_ok : (n : ℕ) → Total (handle (suc (suc n)) p Event.uart_reset_success)
  unfolding handle
  uart_ok n gcf = Returns.run-uart_reset_success p (handle (suc n) p) (after_reset n) gcf.state gcf

  ftdi :
      (n : ℕ) (b : Bool)
      → Total (
          handle
            (suc (suc (suc n)))
            p
            (if b then Event.ftdi_reset_success else Event.ftdi_reset_failed))
  unfolding handle
  ftdi n true gcf =
      Returns.run-ftdi_reset_success p (handle (suc (suc n)) p) (after_reset (suc n)) gcf.state gcf
  ftdi n false gcf =
      Returns.run-ftdi_reset_failed p (handle (suc (suc n)) p)
        (λ g. Returns.run-ftdi_reset_success p (handle (suc n) p) (after_reset n) g.state g)
        gcf.state gcf

  rasp_bee :
      (n : ℕ) (b : Bool)
      → Total (
          handle
            (suc (suc (suc n)))
            p
            (if b then Event.rasp_bee_reset_success else Event.rasp_bee_reset_failed))
  unfolding handle
  rasp_bee n true gcf =
      Returns.run-rasp_bee_reset_success p (handle (suc (suc n)) p) (after_reset (suc n)) gcf.state
        gcf
  rasp_bee n false gcf =
      Returns.run-rasp_bee_reset_failed p (handle (suc (suc n)) p)
        (λ g. Returns.run-rasp_bee_reset_success p (handle (suc n) p) (after_reset n) g.state g)
        gcf.state gcf

  closed : (n : ℕ) → Total (handle (suc (suc (suc n))) p Event.disconnected)
  unfolding handle
  closed n gcf = Returns.run-disconnected p (handle (suc (suc n)) p) (uart_ok n) gcf.state gcf

  uart_failed : (n : ℕ) → Total (handle (suc (suc (suc (suc n)))) p Event.uart_reset_failed)
  unfolding handle
  uart_failed n gcf =
      Returns.run-uart_reset_failed p (handle (suc (suc (suc n))) p)
        (record { uart_ok = uart_ok (suc n); ftdi = ftdi n; rasp_bee = rasp_bee n }) gcf.state gcf

  -- ST_Reset takes EV_ACTION one call earlier than ST_Program.
  reset_action :
      (n : ℕ) (gcf : Gcf)
      → gcf.state ≡ State.reset
      → (gcf' : Gcf) × (handle (suc (suc (suc (suc n)))) p Event.action gcf ≡ some gcf')
  unfolding handle
  reset_action n gcf e =
      subst
        (λ s.
          (gcf' : Gcf) × (run_state p (handle (suc (suc (suc n))) p) s Event.action gcf
            ≡ some gcf'))
        (sym e) (Returns.reset_started p (handle (suc (suc (suc n))) p) (closed n) gcf)

  action : (n : ℕ) → Total (handle (suc (suc (suc (suc (suc n))))) p Event.action)
  unfolding handle
  action n gcf =
      Returns.run-action p (handle (suc (suc (suc (suc n)))) p) (closed (suc n)) (reset_action n)
        gcf.state gcf

  -- Five calls for what follows a query, one for the query, and one for the dispatch to it.
  module _ (n : ℕ) where
    abbrev inner : ℕ
    inner = suc (suc (suc (suc (suc n))))

    query_rx_ascii :
        (gcf : Gcf)
        → gcf.state ≡ State.bootloader_query
        → (gcf' : Gcf) × (handle (suc inner) p Event.rx_ascii gcf ≡ some gcf')
    unfolding handle
    query_rx_ascii gcf e =
        subst (λ s. (gcf' : Gcf) × (run_state p (handle inner p) s Event.rx_ascii gcf ≡ some gcf'))
          (sym e) (Returns.query_started p (handle inner p) (action n) gcf)

    outer :
        (event : Event) (gcf : Gcf)
        → (ShowsProgress event gcf.state → 0 < gcf.file.file_size)
        → (gcf' : Gcf) × (handle (suc (suc inner)) p event gcf ≡ some gcf')
    unfolding handle
    outer Event.action gcf pos = action (suc (suc n)) gcf
    outer Event.reset_success gcf pos = after_reset (suc inner) gcf
    outer Event.uart_reset_success gcf pos = uart_ok inner gcf
    outer Event.uart_reset_failed gcf pos = uart_failed (suc (suc (suc n))) gcf
    outer Event.ftdi_reset_success gcf pos = ftdi (suc (suc (suc (suc n)))) true gcf
    outer Event.ftdi_reset_failed gcf pos = ftdi (suc (suc (suc (suc n)))) false gcf
    outer Event.rasp_bee_reset_success gcf pos = rasp_bee (suc (suc (suc (suc n)))) true gcf
    outer Event.rasp_bee_reset_failed gcf pos = rasp_bee (suc (suc (suc (suc n)))) false gcf
    outer Event.disconnected gcf pos = closed (suc (suc (suc (suc n)))) gcf
    outer Event.reset_failed gcf pos =
        Returns.run-reset_failed p (handle (suc inner) p) gcf.state gcf
    outer Event.connected_event gcf pos =
        Returns.run-connected_event p (handle (suc inner) p) gcf.state gcf
    outer Event.pl_loop gcf pos = (gcf, refl)
    outer Event.pkg_uart_reset gcf pos =
        Returns.run-pkg_uart_reset p (handle (suc inner) p) (uart_ok (suc (suc (suc (suc n)))))
          gcf.state gcf
    outer Event.pl_started gcf pos =
        Returns.run-pl_started p (handle (suc inner) p) (closed (suc (suc (suc n))))
          (action (suc n)) gcf.state gcf
    outer Event.rx_ascii gcf pos =
        Returns.run-rx_ascii p (handle (suc inner) p) (closed (suc (suc (suc n)))) (action (suc n))
          query_rx_ascii gcf.state gcf pos
    outer Event.rx_btl_pkg_data gcf pos =
        Returns.run-rx_btl_pkg_data p (handle (suc inner) p) (closed (suc (suc (suc n))))
          (action (suc n)) (uart_ok (suc (suc (suc (suc n))))) gcf.state gcf pos
    outer Event.timeout gcf pos =
        Returns.run-timeout p (handle (suc inner) p) (closed (suc (suc (suc n)))) (action (suc n))
          (uart_failed (suc (suc n))) gcf.state gcf

-- In a build with NDEBUG, every event is handled to its end from every state, whatever the platform
-- answers, with fuel for seven calls of GCF_HandleEvent inside one another, if the firmware is not
-- empty where the event shows the progress of an upload: EV_RX_ASCII in ST_V1ProgramUpload and
-- EV_RX_BTL_PKG_DATA in ST_V3ProgramUpload.
pub handle_returns :
    (fuel : ℕ) (p : Platform) (event : Event) (gcf : Gcf)
    → 7 ≤ fuel
    → (ShowsProgress event gcf.state → 0 < gcf.file.file_size)
    → (gcf' : Gcf) × (handle fuel p event gcf ≡ some gcf')
handle_returns fuel p event gcf enough pos =
    subst (λ n. (gcf' : Gcf) × (handle n p event gcf ≡ some gcf')) (omega arith)
      (outer p (fuel - 7) event gcf pos)
