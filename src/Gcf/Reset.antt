-- ===== src/Gcf/Reset.antt =====
-- gcf.c: the device reset, ST_Reset and its substates, and the device list it needs.
use gcfflashero.Base.{
  ℕ, Bool, true, false, not, ◌&&◌, ◌||◌, some, List, [], ◌∷◌, ◌==◌, if◌then◌else◌, length, take,
  is_empty,
}
use gcfflashero.Gcf
use gcfflashero.Gcf.{
  Gcf, Device, Platform, Act, ◌⨾◌, did, to_state, to_substate, put_line, Event, action, timeout,
  disconnected, reset_success, reset_failed, uart_reset_success, uart_reset_failed,
  ftdi_reset_success, ftdi_reset_failed, rasp_bee_reset_success, rasp_bee_reset_failed,
  pkg_uart_reset, rx_btl_pkg_data, clear_timeout, set_timeout, disconnect, connect_to, shut_down,
  ftdi_reset, rasp_bee_reset, sent_flagged, Substate, no_substate, reset_uart, reset_ftdi,
  reset_rasp_bee, t_reset, t_program, rasp_bee_1, rasp_bee_2, con_bee_1, Task, DeviceType,
}
use gcfflashero.Gcf.Upload.{ascii_at, btl_id_response}
use gcfflashero.SStream

abbrev pub is_reset : Task → Bool
is_reset t_reset = true
is_reset _ = false

abbrev pub is_program : Task → Bool
is_program t_program = true
is_program _ = false

abbrev pub is_con_bee_1 : DeviceType → Bool
is_con_bee_1 con_bee_1 = true
is_con_bee_1 _ = false

abbrev pub is_rasp_bee_1 : DeviceType → Bool
is_rasp_bee_1 rasp_bee_1 = true
is_rasp_bee_1 _ = false

abbrev pub is_rasp_bee_2 : DeviceType → Bool
is_rasp_bee_2 rasp_bee_2 = true
is_rasp_bee_2 _ = false

-- The payload of gcfCommandResetUart.
abbrev pub reset_uart_command : List ℕ
reset_uart_command =
    0x0B ∷ 0x03 ∷ 0x00 ∷ 0x0C ∷ 0x00 ∷ 0x05 ∷ 0x00 ∷ 0x26 ∷ 0x02 ∷ 0x00 ∷ 0x00 ∷ 0x00 ∷ []

-- The payload of gcfCommandQueryFirmwareVersion.
abbrev pub query_version_command : List ℕ
query_version_command = 0x0D ∷ 0x05 ∷ 0x00 ∷ 0x09 ∷ 0x00 ∷ 0x00 ∷ 0x00 ∷ 0x00 ∷ 0x00 ∷ []

-- PL_Connect with the device of the command line.
abbrev pub connect_device : Act
connect_device gcf = did (connect_to gcf.devpath gcf.dev_baudrate) gcf

-- The search of gcfGetDevices. A search that succeeds moves the stream, so the next one starts
-- where it ended; the loop ends there.
abbrev pub names_device : SStream.SStream → Device → Bool
names_device ss dev = (SStream.find ss dev.path).1 || (SStream.find ss dev.stablepath).1

abbrev pub matched_device : Device → Gcf → Gcf
matched_device dev gcf = record gcf {
  dev_serial_num = dev.serial;
  dev_baudrate = if gcf.dev_baudrate == 0 then dev.baudrate else gcf.dev_baudrate;
}

unfoldable pub match_devices : SStream.SStream → List Device → Gcf → Gcf
match_devices ss [] gcf = gcf
match_devices ss (dev ∷ devs) gcf =
    let later = match_devices ss devs gcf in
    if not (is_empty dev.serial) && names_device ss dev then matched_device dev gcf else later

-- gcfGetDevices
unfoldable pub get_devices : Platform → Gcf → Gcf
get_devices p gcf =
    let gcf = record gcf { devices = take 4 p.listed } in
    if not (is_empty gcf.devpath) && is_empty gcf.dev_serial_num
    then match_devices (SStream.init (some gcf.devpath) (length gcf.devpath)) gcf.devices gcf
    else gcf

module _ (p : Platform) (dispatch : Event → Act) where
  -- PL_Disconnect
  abbrev pub disconnect_device : Act
  disconnect_device = did disconnect ⨾ dispatch disconnected

  abbrev pub st_reset_uart : Event → Act
  st_reset_uart action = did (set_timeout 3000) ⨾ connect_device ⨾ (λ gcf.
      if p.connects
      then ((if is_reset gcf.task
              then put_line p dispatch (sent_flagged query_version_command)
              else some)
            ⨾ put_line p dispatch (sent_flagged reset_uart_command))
          gcf
      else some gcf)
  st_reset_uart rx_btl_pkg_data = λ gcf.
      if ascii_at gcf 1 == btl_id_response
      then (did clear_timeout ⨾ did (set_timeout 100) ⨾ dispatch uart_reset_success) gcf
      else some gcf
  st_reset_uart disconnected =
      did clear_timeout ⨾ did (set_timeout 500) ⨾ dispatch uart_reset_success
  st_reset_uart pkg_uart_reset = λ gcf.
      if is_rasp_bee_1 gcf.dev_type || is_con_bee_1 gcf.dev_type
      then (did clear_timeout ⨾ dispatch uart_reset_success) gcf
      else some gcf
  st_reset_uart timeout = to_substate no_substate ⨾ disconnect_device ⨾ dispatch uart_reset_failed
  st_reset_uart _ = some

  abbrev pub st_reset_ftdi : Event → Act
  st_reset_ftdi action =
      did ftdi_reset ⨾ dispatch (if p.ftdi_resets then ftdi_reset_success else ftdi_reset_failed)
  st_reset_ftdi _ = some

  abbrev pub st_reset_rasp_bee : Event → Act
  st_reset_rasp_bee action =
      did rasp_bee_reset
      ⨾ dispatch (if p.rasp_bee_resets then rasp_bee_reset_success else rasp_bee_reset_failed)
  st_reset_rasp_bee _ = some

  -- `gcf->substate(gcf, event)`
  abbrev pub run_substate : Substate → Event → Act
  run_substate no_substate event = some
  run_substate reset_uart event = st_reset_uart event
  run_substate reset_ftdi event = st_reset_ftdi event
  run_substate reset_rasp_bee event = st_reset_rasp_bee event

  abbrev pub enter_substate : Substate → Act
  enter_substate s = to_substate s ⨾ run_substate s action

  -- One of the resets worked, or is taken to have worked.
  abbrev pub reset_done : Act
  reset_done = to_substate no_substate ⨾ (λ gcf.
      if is_reset gcf.task
      then did shut_down gcf
      else if is_program gcf.task
      then (to_state Gcf.State.program ⨾ dispatch reset_success) gcf
      else some gcf)

  -- `PL_SetTimeout(500)` and the pretended success.
  abbrev pub pretend_uart : Act
  pretend_uart = did (set_timeout 500) ⨾ dispatch uart_reset_success

  abbrev pub uart_failed : Act
  uart_failed gcf =
      if is_con_bee_1 gcf.dev_type
      then (connect_device ⨾ (if p.connects then enter_substate reset_ftdi else pretend_uart)) gcf
      else if is_rasp_bee_1 gcf.dev_type || is_rasp_bee_2 gcf.dev_type
      then (connect_device ⨾ (if p.connects then enter_substate reset_rasp_bee else pretend_uart))
          gcf
      else pretend_uart gcf

  abbrev pub st_reset : Event → Act
  st_reset action = (λ gcf. some (record gcf { wp = 0 })) ⨾ enter_substate reset_uart
  st_reset uart_reset_success = reset_done
  st_reset ftdi_reset_success = reset_done
  st_reset rasp_bee_reset_success = reset_done
  st_reset uart_reset_failed = uart_failed
  st_reset ftdi_reset_failed = did (set_timeout 1) ⨾ dispatch ftdi_reset_success
  st_reset rasp_bee_reset_failed = did (set_timeout 1) ⨾ dispatch rasp_bee_reset_success
  st_reset event = λ gcf. run_substate gcf.substate event gcf
