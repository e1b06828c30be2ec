-- ===== src/Gcf/Returns.antt =====
-- The dispatcher of gcf.c returns: the calls of GCF_HandleEvent from handlers are not nested deeper
-- than seven.
use gcfflashero.Base.{
  ◌<◌, ◌≡◌, refl, Bool, true, false, [], ◌∷◌, ◌++◌, leb, Option, some, none, if◌then◌else◌, ◌==◌,
  subst, sym, arith,
}
use gcfflashero.Gcf.{
  Gcf, Platform, Act, ◌⨾◌, did, put_line, retry_later, set_timeout, Event, Effect, State, Substate,
}
use gcfflashero.Gcf.CommandLine.{Outcome, success, failed}
use gcfflashero.Gcf.Machine.{run_state, begin_task}
use gcfflashero.Gcf.Upload.{update_progress, v1_serve, v1_page, v1_end}
use gcfflashero.GcfFile.{GcfFile}
use gcfflashero.Gcf.Reset.{reset_done, run_substate}

abbrev Returned : Option Gcf → Type 0
Returned o = (gcf : Gcf) × (o ≡ some gcf)

-- The code returns from every state.
abbrev pub Total : Act → Type 0
Total act = (gcf : Gcf) → Returned (act gcf)

choose : (b : Bool) {x y : Option Gcf} → Returned x → Returned y → Returned (if b then x else y)
choose true hx hy = hx
choose false hx hy = hy

choose_act : (b : Bool) {a c : Act} → Total a → Total c → Total (if b then a else c)
choose_act true ha hc = ha
choose_act false ha hc = hc

and_next : {a c : Act} → Total a → Total c → Total (a ⨾ c)
and_next {a} {c} ha hc gcf =
    let (gcf', e) = ha gcf in
    subst (λ o. Returned (elim o [ none ↦ none | some g ↦ c g ])) (sym e) (hc gcf')

pure : Total some
pure gcf = (gcf, refl)

-- The events that show the progress of an upload, which divides by the size of the firmware.
abbrev pub ShowsProgress : Event → State → Type 0
ShowsProgress Event.rx_ascii State.v1_program_upload = Unit
ShowsProgress Event.rx_btl_pkg_data State.v3_program_upload = Unit
ShowsProgress _ _ = ⊥

pub progress_shown :
    (shown : Bool) (gcf : Gcf) (o : Option Gcf)
    → 0 < gcf.file.file_size
    → update_progress shown gcf o ≡ o
progress_shown false gcf o pos = refl
progress_shown true gcf o pos =
    let some_bytes : (gcf.file.file_size == 0) ≡ false = ground (arith, pos) in rw some_bytes refl

progress :
    (shown : Bool) (gcf : Gcf) {o : Option Gcf}
    → 0 < gcf.file.file_size
    → Returned o
    → Returned (update_progress shown gcf o)
progress shown gcf pos h = subst Returned (sym (progress_shown shown gcf _ pos)) h

effect : (e : Effect) → Total (did e)
effect e gcf = (_, refl)

retried : (p : Platform) → Total (retry_later p)
unfolding retry_later
retried p gcf = choose _ (_, refl) (_, refl)

-- A page request past the end is first made to wait, which leaves the file.
abbrev SameFile : Gcf → Option Gcf → Type 0
SameFile gcf o = (gcf' : Gcf) × (o ≡ some gcf') × (gcf'.file ≡ gcf.file)

either :
    (gcf : Gcf) (b : Bool) {x y : Option Gcf}
    → SameFile gcf x
    → SameFile gcf y
    → SameFile gcf (if b then x else y)
either gcf true hx hy = hx
either gcf false hx hy = hy

page_wait :
    (p : Platform) (past_end : Bool) (gcf : Gcf)
    → SameFile gcf ((if past_end then retry_later p else some) gcf)
unfolding retry_later
page_wait p true gcf = either gcf _ (_, refl, refl) (_, refl, refl)
page_wait p false gcf = (gcf, refl, refl)

module _ (p : Platform) (d : Event → Act) where
  line : (e : Effect) → Total (d Event.disconnected) → Total (put_line p d e)
  line e closed = choose_act p.line_open (effect e) closed

  sub-reset_success : (s : Substate) → Total (run_substate p d s Event.reset_success)
  sub-reset_success Substate.no_substate = pure
  sub-reset_success _ = pure

  pub run-reset_success : (s : State) → Total (run_state p d s Event.reset_success)
  run-reset_success State.program gcf = choose _ (_, refl) (_, refl)
  run-reset_success State.reset gcf = sub-reset_success gcf.substate gcf
  run-reset_success _ gcf = (gcf, refl)

  module _ (ok : Total (d Event.reset_success)) where
    done : Total (reset_done p d)
    done gcf = choose _ (_, refl) (choose _ (ok _) (_, refl))

    pub run-uart_reset_success : (s : State) → Total (run_state p d s Event.uart_reset_success)
    run-uart_reset_success State.reset = done
    run-uart_reset_success _ = pure

    pub run-ftdi_reset_success : (s : State) → Total (run_state p d s Event.ftdi_reset_success)
    run-ftdi_reset_success State.reset = done
    run-ftdi_reset_success _ = pure

    pub run-rasp_bee_reset_success :
        (s : State) → Total (run_state p d s Event.rasp_bee_reset_success)
    run-rasp_bee_reset_success State.reset = done
    run-rasp_bee_reset_success _ = pure

  module _ (ok : Total (d Event.uart_reset_success)) where
    sub-disconnected : (s : Substate) → Total (run_substate p d s Event.disconnected)
    sub-disconnected Substate.reset_uart gcf = ok _
    sub-disconnected _ gcf = (gcf, refl)

    pub run-disconnected : (s : State) → Total (run_state p d s Event.disconnected)
    run-disconnected State.bootloader_query gcf = retried p gcf
    run-disconnected State.connected gcf = (_, refl)
    run-disconnected State.reset gcf = sub-disconnected gcf.substate gcf
    run-disconnected _ gcf = (gcf, refl)

    sub-pkg_uart_reset : (s : Substate) → Total (run_substate p d s Event.pkg_uart_reset)
    sub-pkg_uart_reset Substate.reset_uart gcf = choose _ (ok _) (_, refl)
    sub-pkg_uart_reset _ gcf = (gcf, refl)

    pub run-pkg_uart_reset : (s : State) → Total (run_state p d s Event.pkg_uart_reset)
    run-pkg_uart_reset State.reset gcf = sub-pkg_uart_reset gcf.substate gcf
    run-pkg_uart_reset _ gcf = (gcf, refl)

    sub-rx_btl : (s : Substate) → Total (run_substate p d s Event.rx_btl_pkg_data)
    sub-rx_btl Substate.reset_uart gcf = choose _ (ok _) (_, refl)
    sub-rx_btl _ gcf = (gcf, refl)

  pub query_started :
      Total (d Event.action) → Total (run_state p d State.bootloader_query Event.rx_ascii)
  query_started next gcf = choose _ (next _) (gcf, refl)

  sub-reset_failed : (s : Substate) → Total (run_substate p d s Event.reset_failed)
  sub-reset_failed Substate.no_substate = pure
  sub-reset_failed _ = pure

  pub run-reset_failed : (s : State) → Total (run_state p d s Event.reset_failed)
  run-reset_failed State.program gcf = (_, refl)
  run-reset_failed State.reset gcf = sub-reset_failed gcf.substate gcf
  run-reset_failed _ gcf = (gcf, refl)

  sub-connected_event : (s : Substate) → Total (run_substate p d s Event.connected_event)
  sub-connected_event Substate.no_substate = pure
  sub-connected_event _ = pure

  pub run-connected_event : (s : State) → Total (run_state p d s Event.connected_event)
  run-connected_event State.reset gcf = sub-connected_event gcf.substate gcf
  run-connected_event _ gcf = (gcf, refl)

  pub run-ftdi_reset_failed :
      Total (d Event.ftdi_reset_success)
      → (s : State) → Total (run_state p d s Event.ftdi_reset_failed)
  run-ftdi_reset_failed ok State.reset gcf = ok _
  run-ftdi_reset_failed ok _ gcf = (gcf, refl)

  pub run-rasp_bee_reset_failed :
      Total (d Event.rasp_bee_reset_success)
      → (s : State) → Total (run_state p d s Event.rasp_bee_reset_failed)
  run-rasp_bee_reset_failed ok State.reset gcf = ok _
  run-rasp_bee_reset_failed ok _ gcf = (gcf, refl)

  -- What the failed UART reset of a device may lead to.
  pub record AfterFailure : Type 0 where
    pub uart_ok : Total (d Event.uart_reset_success)
    pub ftdi :
        (b : Bool) → Total (d (if b then Event.ftdi_reset_success else Event.ftdi_reset_failed))
    pub rasp_bee :
        (b : Bool)
        → Total (d (if b then Event.rasp_bee_reset_success else Event.rasp_bee_reset_failed))

  pub run-uart_reset_failed :
      AfterFailure → (s : State) → Total (run_state p d s Event.uart_reset_failed)
  run-uart_reset_failed h State.reset gcf =
      choose _ (choose_act p.connects (λ g. h.ftdi p.ftdi_resets _) (λ g. h.uart_ok _) _) (
        choose _ (choose_act p.connects (λ g. h.rasp_bee p.rasp_bee_resets _) (λ g. h.uart_ok _) _)
          (h.uart_ok _))
  run-uart_reset_failed h _ gcf = (gcf, refl)

  -- EV_ACTION; ST_Program hands it on to ST_Reset.
  module _ (closed : Total (d Event.disconnected)) where
    start_uart : Total (run_substate p d Substate.reset_uart Event.action)
    start_uart gcf =
        choose p.connects (and_next (choose_act _ (line _ closed) pure) (line _ closed) _) (_, refl)

    pub reset_started : Total (run_state p d State.reset Event.action)
    reset_started gcf = start_uart _

    pub run-action :
        ((gcf : Gcf) → gcf.state ≡ State.reset → Returned (d Event.action gcf))
        → (s : State) → Total (run_state p d s Event.action)
    run-action again State.program gcf = again _ refl
    run-action again State.v1_program_sync gcf = and_next (line _ closed) (effect _) _
    run-action again State.v1_program_write_header gcf = and_next (line _ closed) (effect _) _
    run-action again State.v3_program_sync gcf = line _ closed _
    run-action again State.bootloader_query gcf = (_, refl)
    run-action again State.connect gcf = choose_act p.connects (λ g. (_, refl)) (λ g. (_, refl)) _
    run-action again State.list_devices gcf = (_, refl)
    run-action again State.reset gcf = start_uart _
    run-action again _ gcf = (gcf, refl)

    -- EV_RX_ASCII; ST_BootloaderConnect hands it on to ST_BootloaderQuery.
    pub run-rx_ascii :
        Total (d Event.action)
        → ((gcf : Gcf) → gcf.state ≡ State.bootloader_query → Returned (d Event.rx_ascii gcf))
        → (s : State) (gcf : Gcf) → (ShowsProgress Event.rx_ascii s → 0 < gcf.file.file_size)
        → Returned (run_state p d s Event.rx_ascii gcf)
    run-rx_ascii next again State.v1_program_sync gcf pos = choose _ (next _) (_, refl)
    run-rx_ascii next again State.v1_program_upload gcf pos =
        choose _ (gcf, refl)
          (let (g, e, same) = page_wait p (leb (v1_end gcf) (v1_page gcf)) gcf in
            subst (λ o. Returned (elim o [ none ↦ none | some g' ↦ serve' g' ])) (sym e)
              (serve g (subst (λ (f : GcfFile). 0 < f.file_size) (sym same) (pos tt))))
      where
        serve' : Act
        serve' = v1_serve p d (v1_page gcf) (v1_end gcf)

        serve : (g : Gcf) → 0 < g.file.file_size → Returned (serve' g)
        serve g some_bytes =
            progress _ g some_bytes
              (and_next (line _ closed) (λ g'. choose _ (_, refl) (_, refl)) _)
    run-rx_ascii next again State.v1_program_validate gcf pos = choose _ (_, refl) (_, refl)
    run-rx_ascii next again State.bootloader_connect gcf pos = again _ refl
    run-rx_ascii next again State.bootloader_query gcf pos = choose _ (next _) (gcf, refl)
    run-rx_ascii next again State.reset gcf pos = sub gcf.substate gcf
      where
        sub : (s : Substate) → Total (run_substate p d s Event.rx_ascii)
        sub Substate.no_substate = pure
        sub _ = pure
    run-rx_ascii next again _ gcf pos = (gcf, refl)

    pub run-rx_btl_pkg_data :
        Total (d Event.action)
        → Total (d Event.uart_reset_success)
        → (s : State) (gcf : Gcf) → (ShowsProgress Event.rx_btl_pkg_data s → 0 < gcf.file.file_size)
        → Returned (run_state p d s Event.rx_btl_pkg_data gcf)
    run-rx_btl_pkg_data next ok State.bootloader_query gcf pos = choose _ (next _) (gcf, refl)
    run-rx_btl_pkg_data next ok State.v3_program_sync gcf pos = choose _ (_, refl) (gcf, refl)
    run-rx_btl_pkg_data next ok State.v3_program_upload gcf pos =
        choose _
          (progress true (record gcf { effects = gcf.effects ++ set_timeout 5000 ∷ [] }) (pos tt)
            (and_next (line _ closed) (λ g. choose _ (_, refl) (g, refl)) _))
          (gcf, refl)
    run-rx_btl_pkg_data next ok State.v3_program_wait_id gcf pos = choose _ (_, refl) (gcf, refl)
    run-rx_btl_pkg_data next ok State.reset gcf pos = sub-rx_btl ok gcf.substate gcf
    run-rx_btl_pkg_data next ok _ gcf pos = (gcf, refl)

    begun : Total (d Event.action) → (r : Outcome × Gcf) → Returned (begin_task p d r)
    begun next (success, gcf) = next gcf
    begun next (failed, gcf) = (_, refl)

    pub run-pl_started :
        Total (d Event.action) → (s : State) → Total (run_state p d s Event.pl_started)
    run-pl_started next State.init gcf = begun next _
    run-pl_started next State.reset gcf = sub gcf.substate gcf
      where
        sub : (s : Substate) → Total (run_substate p d s Event.pl_started)
        sub Substate.no_substate = pure
        sub _ = pure
    run-pl_started next _ gcf = (gcf, refl)

    sub-timeout :
        Total (d Event.uart_reset_failed)
        → (s : Substate) → Total (run_substate p d s Event.timeout)
    sub-timeout fail Substate.reset_uart gcf = and_next closed fail _
    sub-timeout fail _ gcf = (gcf, refl)

    pub run-timeout :
        Total (d Event.action)
        → Total (d Event.uart_reset_failed)
        → (s : State) → Total (run_state p d s Event.timeout)
    run-timeout next fail State.init gcf = begun next _
    run-timeout next fail State.v1_program_sync gcf = retried p gcf
    run-timeout next fail State.v1_program_upload gcf = retried p gcf
    run-timeout next fail State.v1_program_validate gcf = retried p gcf
    run-timeout next fail State.v3_program_sync gcf = retried p gcf
    run-timeout next fail State.v3_program_upload gcf = retried p gcf
    run-timeout next fail State.v3_program_wait_id gcf = retried p gcf
    run-timeout next fail State.bootloader_connect gcf =
        choose_act p.connects (λ g. next _) (λ g. (_, refl)) _
    run-timeout next fail State.bootloader_query gcf =
        choose _ (retried p _)
          (choose _ (and_next (line _ closed) (effect _) _) (and_next (line _ closed) (effect _) _))
    run-timeout next fail State.connected gcf = and_next (line _ closed) (effect _) _
    run-timeout next fail State.reset gcf = sub-timeout fail gcf.substate gcf
    run-timeout next fail _ gcf = (gcf, refl)
