-- ===== src/Gcf/Tests.antt =====
-- Runs of the state machine of gcf.c, and the theorems about it at concrete inputs.
use gcfflashero.Base.{
  ℕ, ◌+◌, ◌-◌, ◌^◌, ◌≡◌, ◌≤◌, refl, arith, true, some, [], ◌∷◌, ◌++◌, inr, ◌⊎◌, replicate, set,
}
use gcfflashero.Base.Text.{codes}
use gcfflashero.BufferHelper.{get_u16_le, get_u32_le}
use gcfflashero.Gcf.Sample.{platform, upload, firmware}
use gcfflashero.Gcf.{
  Gcf, Platform, Event, State, Substate, set_timeout, sent_flagged, wrote, connect_to, t_reset,
}
use gcfflashero.Gcf.Book.{IsPaging, page_requests, written, whole_v1_upload}
use gcfflashero.Gcf.Chunks.{
  Requested, answered, refused, finished, final_chunk, v3_request_granted, v3_request_refused,
  timed,
}
use gcfflashero.Gcf.Image.{whole_upload}
use gcfflashero.Gcf.Clock.{armed, over}
use gcfflashero.Gcf.CommandLine.{
  process_commandline, parse_options, plain_option, argument_option, take_device, choose_task,
}
use gcfflashero.Gcf.PathType.{get_device_type, guess_device, path_type}
use gcfflashero.Gcf.Reset.{get_devices, match_devices, query_version_command, reset_uart_command}
use gcfflashero.Gcf.Runs.{Run, begun, performed, run_waits_with_timer}
use gcfflashero.SStream
use gcfflashero.Gcf.Input.{IsText, put_chars-IsText}
use gcfflashero.Gcf.Machine.{handle, put_chars, prot_packets}
use gcfflashero.Gcf.Nesting.{handle_returns}
use gcfflashero.Gcf.Pages.{PageRequested, v1_page_served, v1_page_past_end}
use gcfflashero.Gcf.Requests.{IsUploading, requests, firmware_sent}
use gcfflashero.Gcf.Upload.{v3_status}

-- The request for four bytes at offset 2, and one for no bytes there.
abbrev asks_four : Gcf
asks_four = upload State.v3_program_upload (0x81 ∷ 4 ∷ 2 ∷ 0 ∷ 0 ∷ 0 ∷ 4 ∷ 0 ∷ replicate 504 0) 8

abbrev asks_none : Gcf
asks_none = upload State.v3_program_upload (0x81 ∷ 4 ∷ 2 ∷ 0 ∷ 0 ∷ 0 ∷ 0 ∷ 0 ∷ replicate 504 0) 8

asks_four-Requested : Requested asks_four 2 4
unfolding get_u32_le get_u16_le
asks_four-Requested = record {
  uploading = refl;
  buffer = refl;
  command = refl;
  whole = refl;
  offset_field = refl;
  size_field = refl;
}

asks_none-Requested : Requested asks_none 2 0
unfolding get_u32_le get_u16_le
asks_none-Requested = record {
  uploading = refl;
  buffer = refl;
  command = refl;
  whole = refl;
  offset_field = refl;
  size_field = refl;
}

v3_request_granted_example :
    handle 7 platform Event.rx_btl_pkg_data asks_four
    ≡ some (finished (final_chunk asks_four 2 4) (answered (timed asks_four) 2 4))
v3_request_granted_example =
    v3_request_granted 6 platform asks_four 2 4 refl asks_four-Requested (omega arith) (omega arith)
      (omega arith) (omega arith) (omega arith)

v3_request_refused_example :
    let status = v3_status 6 2 0 in
    (handle 7 platform Event.rx_btl_pkg_data asks_none
      ≡ some (finished true (refused (timed asks_none) 2 0 status)))
    × (1 ≤ status)
    × (status ≤ 3)
v3_request_refused_example =
    v3_request_refused 6 platform asks_none 2 0 refl asks_none-Requested (omega arith)
      (inr (inr refl))

-- The requests for the pages of a firmware of 300 bytes, in a file with more behind it.
abbrev page_request : ℕ → Gcf
page_request n =
    record (upload State.v1_program_upload (codes "GET" ++ n ∷ 0 ∷ b';' ∷ replicate 506 0) 6) {
      file = record firmware {
        file_size = 300;
        fcontent = replicate 14 0 ++ replicate 256 3 ++ replicate 44 7 ++ replicate 600 9;
      };
    }

second_page-PageRequested : PageRequested (page_request 1) 1
second_page-PageRequested = record {
  uploading = refl;
  whole = omega arith;
  command = refl;
  low_byte = refl;
  high_byte = refl;
  end_mark = refl;
}

third_page-PageRequested : PageRequested (page_request 2) 2
third_page-PageRequested = record {
  uploading = refl;
  whole = omega arith;
  command = refl;
  low_byte = refl;
  high_byte = refl;
  end_mark = refl;
}

v1_page_served_example :
    handle 7 platform Event.rx_ascii (page_request 1)
    ≡ some (record (page_request 1) {
      remaining = 44;
      wp = 0;
      ascii = set (page_request 1).ascii 0 0;
      effects = wrote (replicate 44 7) ∷ set_timeout 25600 ∷ [];
      state = State.v1_program_validate;
    })
v1_page_served_example =
    v1_page_served 6 platform (page_request 1) 1 refl second_page-PageRequested (omega arith)
      (omega arith) (omega arith)

v1_page_past_end_example :
    handle 7 platform Event.rx_ascii (page_request 2)
    ≡ some (record (page_request 2) {
      remaining = 300 + 2 ^ 32 - 512;
      wp = 0;
      ascii = set (page_request 2).ascii 0 0;
      effects = set_timeout 250 ∷ wrote (replicate 256 9) ∷ set_timeout 2000 ∷ [];
      state = State.init;
      substate = Substate.no_substate;
    })
v1_page_past_end_example =
    v1_page_past_end 6 platform (page_request 2) 2 refl third_page-PageRequested (omega arith)
      (omega arith) (omega arith) (omega arith) (omega arith)

handle_returns_example :
    (gcf' : Gcf) × (handle 7 platform Event.rx_btl_pkg_data asks_four ≡ some gcf')
handle_returns_example =
    handle_returns 7 platform Event.rx_btl_pkg_data asks_four (omega arith) (λ _. omega arith)

first_request-IsPaging : IsPaging (page_request 0)
first_request-IsPaging = record { uploading = refl; small = omega arith; stored = omega arith }

whole_v1_upload_example :
    (gcf' : Gcf) × (page_requests 7 platform 0 2 (page_request 0) ≡ some gcf')
    × (gcf'.state ≡ State.v1_program_validate)
    × (written gcf'.effects ≡ replicate 256 3 ++ replicate 44 7)
whole_v1_upload_example =
    whole_v1_upload 6 platform (page_request 0) 1 refl first_request-IsPaging (omega arith)
      (omega arith) (omega arith)

-- Six characters are in the buffer.
abbrev six_received : Gcf
six_received = upload State.v1_program_upload (replicate 512 0) 6

six_received-IsText : IsText six_received
six_received-IsText = record { size = refl; bound = omega arith; ended = refl }

put_chars-IsText_example : IsText (put_chars six_received (codes "GET") 0).0
put_chars-IsText_example = put_chars-IsText (codes "GET") six_received 0 six_received-IsText

abbrev uploading : Gcf
uploading = upload State.v3_program_upload (replicate 512 0) 0

uploading-IsUploading : IsUploading uploading
uploading-IsUploading = record {
  uploading = refl;
  buffer = refl;
  small = omega arith;
  stored = omega arith;
}

whole_upload_example :
    (gcf' : Gcf) × (prot_packets 7 platform (requests 0 (4 ∷ 2 ∷ [])) uploading ≡ some gcf')
    × (gcf'.state ≡ State.v3_program_wait_id)
    × (firmware_sent gcf'.effects ≡ 1 ∷ 2 ∷ 3 ∷ 4 ∷ 5 ∷ 6 ∷ [])
whole_upload_example =
    whole_upload 6 platform uploading 4 (2 ∷ []) refl uploading-IsUploading
      (omega arith, omega arith, (omega arith, omega arith, tt)) refl

-- `gcf -r -d /dev/ttyACM0`, and the state when the reset has begun.
abbrev fresh : Gcf
fresh = record (upload State.init [] 0) {
  argv = codes "gcf" ∷ codes "-r" ∷ codes "-d" ∷ codes "/dev/ttyACM0" ∷ [];
}

abbrev resetting : Gcf
resetting = record (upload State.reset [] 0) {
  argv = codes "gcf" ∷ codes "-r" ∷ codes "-d" ∷ codes "/dev/ttyACM0" ∷ [];
  substate = Substate.reset_uart;
  task = t_reset;
  effects =
      set_timeout 3000
      ∷ connect_to (codes "/dev/ttyACM0") 115200
      ∷ sent_flagged query_version_command
      ∷ sent_flagged reset_uart_command
      ∷ [];
  file = record firmware { fname = []; file_type = 0; fsize = 0 };
}

fresh_run : Run fresh armed resetting
unfolding handle process_commandline parse_options plain_option argument_option take_device
    choose_task get_devices get_device_type match_devices guess_device path_type SStream.find
    SStream.find_loop SStream.init SStream.match_count
fresh_run = begun platform resetting refl

run_waits_with_timer_example :
    ((armed ≡ armed)
      × ((p : Platform)
          → (gcf' : Gcf) × (handle 7 p Event.timeout (performed resetting) ≡ some gcf')))
    ⊎ (armed ≡ over)
run_waits_with_timer_example = run_waits_with_timer fresh armed resetting refl fresh_run
