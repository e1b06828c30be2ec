-- ===== src/Gcf/Machine.antt =====
-- gcf.c: the dispatcher GCF_HandleEvent, and what comes in over the serial line, GCF_Received and
-- PROT_Packet.
use gcfflashero.Base.{
  ℕ, zero, suc, ◌+◌, ◌-◌, ◌/◌, ◌%◌, Bool, true, false, not, ◌&&◌, none, some, List, [], ◌∷◌, ltb,
  leb, ◌==◌, if◌then◌else◌, get_or, set, length, Option,
}
use gcfflashero.Gcf.{
  Gcf, Platform, Act, ◌⨾◌, did, Event, action, timeout, pl_started, pl_loop, rx_ascii,
  rx_btl_pkg_data, pkg_uart_reset, State, shut_down, Task, t_connect,
}
use gcfflashero.Gcf.Bootloader.{
  st_program, st_bootloader_connect, st_bootloader_query, st_connect, st_connected, st_list_devices,
}
use gcfflashero.Gcf.CommandLine.{Outcome, success, failed, process_commandline}
use gcfflashero.Gcf.Reset.{st_reset}
use gcfflashero.Gcf.Upload.{
  btl_magic, st_v1_program_sync, st_v1_program_write_header, st_v1_program_upload,
  st_v1_program_validate, st_v3_program_sync, st_v3_program_upload, st_v3_program_wait_id,
}
use gcfflashero.Mem.{memcpy}
use gcfflashero.Protocol

module _ (p : Platform) (dispatch : Event → Act) where
  abbrev pub begin_task : Outcome × Gcf → Option Gcf
  begin_task (failed, gcf) = did shut_down gcf
  begin_task (success, gcf) = dispatch action gcf

  abbrev pub st_init : Event → Act
  st_init pl_started = λ gcf. begin_task (process_commandline p gcf)
  st_init timeout = λ gcf. begin_task (process_commandline p gcf)
  st_init _ = some

  -- `gcf->state(gcf, event)`
  abbrev pub run_state : State → Event → Act
  run_state State.void event = some
  run_state State.init event = st_init event
  run_state State.program event = st_program p dispatch event
  run_state State.v1_program_sync event = st_v1_program_sync p dispatch event
  run_state State.v1_program_write_header event = st_v1_program_write_header p dispatch event
  run_state State.v1_program_upload event = st_v1_program_upload p dispatch event
  run_state State.v1_program_validate event = st_v1_program_validate p dispatch event
  run_state State.v3_program_sync event = st_v3_program_sync p dispatch event
  run_state State.v3_program_upload event = st_v3_program_upload p dispatch event
  run_state State.v3_program_wait_id event = st_v3_program_wait_id p dispatch event
  run_state State.bootloader_connect event = st_bootloader_connect p dispatch event
  run_state State.bootloader_query event = st_bootloader_query p dispatch event
  run_state State.connect event = st_connect p dispatch event
  run_state State.connected event = st_connected p dispatch event
  run_state State.reset event = st_reset p dispatch event
  run_state State.list_devices event = st_list_devices p dispatch event

abbrev pub is_loop : Event → Bool
is_loop pl_loop = true
is_loop _ = false

-- GCF_HandleEvent, which handlers call again. The first argument bounds the nesting of the calls.
-- EV_PL_LOOP is for the network server alone.
unfoldable pub handle : ℕ → Platform → Event → Act
handle zero p event gcf = none
handle (suc fuel) p event gcf =
    let nested = handle fuel p in
    if is_loop event then some gcf else run_state p nested gcf.state event gcf

-- The states in which GCF_Received fills `ascii`.
abbrev pub reads_ascii : State → Bool
reads_ascii State.bootloader_query = true
reads_ascii State.v1_program_sync = true
reads_ascii State.v1_program_write_header = true
reads_ascii State.v1_program_upload = true
reads_ascii State.v1_program_validate = true
reads_ascii _ = false

-- One character into `ascii`, which has room for 510 and a NUL.
abbrev pub put_char : Gcf → ℕ → Gcf
put_char gcf ch =
    if ltb gcf.wp (512 - 2)
    then record gcf { ascii = set (set gcf.ascii gcf.wp ch) (gcf.wp + 1) 0; wp = gcf.wp + 1 }
    else record gcf { ascii = set gcf.ascii 0 0; wp = 0 }

-- The loop of GCF_Received, with its counter `ascii`.
unfoldable pub put_chars : Gcf → List ℕ → ℕ → Gcf × ℕ
put_chars gcf [] count = (gcf, count)
put_chars gcf (ch ∷ rest) count =
    put_chars (put_char gcf ch) rest (if ltb gcf.wp (512 - 2) then suc count else count)

-- put_hex and its table
abbrev put_hex_char : ℕ → ℕ
put_hex_char n = if ltb n 10 then b'0' + n else b'A' + (n - 10)

abbrev put_hex_text : List ℕ → List ℕ
put_hex_text [] = 0 ∷ []
put_hex_text (c ∷ cs) = put_hex_char (c / 16 % 16) ∷ put_hex_char (c % 16) ∷ put_hex_text cs

abbrev is_connect : Task → Bool
is_connect t_connect = true
is_connect _ = false

-- PROT_Packet, with the printed text of the packet in `ascii` for the task "connect".
unfoldable pub prot_packet : ℕ → Platform → List ℕ → Act
prot_packet fuel p packet gcf =
    let first = get_or packet 0 0 in
    let gcf =
      if not (first == btl_magic) && is_connect gcf.task
      then record gcf { ascii = memcpy gcf.ascii 0 (put_hex_text packet) }
      else gcf in
    if first == 0x0B && leb 8 (length packet)
    then if get_or packet 7 0 == 0x26 then handle fuel p pkg_uart_reset gcf else some gcf
    else if first == btl_magic
    then if ltb (length packet) 512
      then handle fuel p rx_btl_pkg_data
          (record gcf { ascii = memcpy gcf.ascii 0 packet; wp = length packet })
      else some gcf
    else some gcf

abbrev pub prot_packets : ℕ → Platform → List (List ℕ) → Act
prot_packets fuel p [] = some
prot_packets fuel p (packet ∷ rest) = prot_packet fuel p packet ⨾ prot_packets fuel p rest

abbrev receive_ascii : ℕ → Platform → List ℕ → Act
receive_ascii fuel p input gcf =
    if reads_ascii gcf.state then handle_chars (put_chars gcf input 0) else some gcf
  where
    handle_chars : Gcf × ℕ → Option Gcf
    handle_chars (gcf', count) = if ltb 0 count then handle fuel p rx_ascii gcf' else some gcf'

-- The packets of the framed protocol. The handlers do not touch `rxstate`, so they run behind the
-- loop that finds the packets.
abbrev receive_packets : ℕ → Platform → List ℕ → Act
receive_packets fuel p input gcf =
    elim (Protocol.receive_flagged (suc (length input)) gcf.rxstate input) [
      | none ↦ none
      | some (rx, packets) ↦ prot_packets fuel p packets (record gcf { rxstate = rx })
    ]

-- GCF_Received
pub received : ℕ → Platform → List ℕ → Act
received fuel p input = receive_ascii fuel p input ⨾ receive_packets fuel p input
