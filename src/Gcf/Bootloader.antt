-- ===== src/Gcf/Bootloader.antt =====
-- gcf.c: from the reset to the bootloader, ST_Program, ST_BootloaderConnect and ST_BootloaderQuery,
-- and the handlers of the other tasks, ST_Connect, ST_Connected and ST_ListDevices.
use gcfflashero.Base.{
  ℕ, ◌+◌, ◌-◌, ◌&&◌, ◌||◌, some, List, [], ◌∷◌, ltb, ◌==◌, if◌then◌else◌, length, u8,
}
use gcfflashero.Base.Text.{codes}
use gcfflashero.Gcf
use gcfflashero.Gcf.{
  Gcf, Platform, Act, ◌⨾◌, did, to_state, to_substate, put_line, retry_later, Event, action,
  timeout, disconnected, reset_success, reset_failed, rx_ascii, rx_btl_pkg_data, clear_timeout,
  set_timeout, shut_down, wrote, sent_flagged, no_substate, v1_program_sync, v3_program_sync,
  bootloader_connect, bootloader_query,
}
use gcfflashero.Gcf.Reset.{connect_device, get_devices, is_rasp_bee_1, is_con_bee_1}
use gcfflashero.Gcf.Upload.{ascii_at, received_has, btl_magic, btl_id_response}
use gcfflashero.Mem.{bzero}

abbrev btl_id_request : ℕ
btl_id_request = 0x02

-- The payload of gcfCommandQueryStatus, with the sequence number.
abbrev query_status_command : ℕ → List ℕ
query_status_command seq = 0x07 ∷ seq ∷ 0x00 ∷ 0x08 ∷ 0x00 ∷ 0x00 ∷ 0x00 ∷ 0x00 ∷ []

module _ (p : Platform) (dispatch : Event → Act) where
  abbrev pub st_program : Event → Act
  st_program action = (λ gcf. some (get_devices p gcf)) ⨾ to_state Gcf.State.reset ⨾ dispatch action
  st_program reset_success = λ gcf.
      if is_rasp_bee_1 gcf.dev_type || is_con_bee_1 gcf.dev_type
      then (did (set_timeout 5000) ⨾ to_state bootloader_query) gcf
      else (did (set_timeout 500) ⨾ to_state bootloader_connect) gcf
  st_program reset_failed = did shut_down
  st_program _ = some

  abbrev pub st_bootloader_connect : Event → Act
  st_bootloader_connect timeout =
      connect_device
      ⨾ (if p.connects then to_state bootloader_query ⨾ dispatch action else did (set_timeout 500))
  st_bootloader_connect rx_ascii =
      did clear_timeout
      ⨾ did (set_timeout 100)
      ⨾ to_state bootloader_query
      ⨾ to_substate no_substate
      ⨾ dispatch rx_ascii
  st_bootloader_connect _ = some

  -- The timeout, with the number of the try.
  abbrev pub query_again : ℕ → Act
  query_again tries gcf =
      if tries == 3
      then retry_later p gcf
      else if ltb gcf.file.file_type 30
      then (put_line p dispatch (wrote (codes "ID")) ⨾ did (set_timeout 200)) gcf
      else (put_line p dispatch (sent_flagged (btl_magic ∷ btl_id_request ∷ []))
            ⨾ did (set_timeout 200))
          gcf

  abbrev pub st_bootloader_query : Event → Act
  st_bootloader_query action =
      (λ gcf. some (record gcf { retry = 0; wp = 0; ascii = bzero gcf.ascii 0 (length gcf.ascii) }))
      ⨾ did (set_timeout 200)
  st_bootloader_query timeout =
      λ gcf. query_again (gcf.retry + 1) (record gcf { retry = gcf.retry + 1 })
  st_bootloader_query rx_ascii = λ gcf.
      if ltb 32 gcf.wp
        && ascii_at gcf (gcf.wp - 1) == b'\n'
        && received_has gcf (codes "Bootloader")
      then (did clear_timeout ⨾ to_state v1_program_sync ⨾ dispatch action) gcf
      else some gcf
  st_bootloader_query rx_btl_pkg_data = λ gcf.
      if ascii_at gcf 1 == btl_id_response
      then (to_state v3_program_sync ⨾ dispatch action) gcf
      else some gcf
  st_bootloader_query disconnected = retry_later p
  st_bootloader_query _ = some

  abbrev pub st_connect : Event → Act
  st_connect action =
      connect_device
      ⨾ (if p.connects
          then to_state Gcf.State.connected ⨾ did (set_timeout 1000)
          else to_state Gcf.State.init ⨾ did (set_timeout 10000))
  st_connect _ = some

  -- EV_TIMEOUT is gcfCommandQueryStatus and the next timeout.
  abbrev pub st_connected : Event → Act
  st_connected timeout =
      (λ gcf.
        ((λ g. some (record g { seq = u8 (g.seq + 1) }))
            ⨾ put_line p dispatch (sent_flagged (query_status_command gcf.seq)))
          gcf)
      ⨾ did (set_timeout 10000)
  st_connected disconnected = did clear_timeout ⨾ to_state Gcf.State.init ⨾ did (set_timeout 1000)
  st_connected _ = some

  abbrev pub st_list_devices : Event → Act
  st_list_devices action = (λ gcf. some (get_devices p gcf)) ⨾ did shut_down
  st_list_devices _ = some
