-- ===== src/Gcf.antt =====
-- gcf.c: the state of GCFFlasher, its events, and what it asks of the platform layer (gcf.h). Assert
-- is nothing, as in a build with NDEBUG.
pub mod Upload
pub mod Bootloader
pub mod Reset
pub mod PathType
pub mod CommandLine
pub mod Machine
pub mod Chunks
pub mod Pages
pub mod Book
pub mod Requests
pub mod Image
pub mod Input
pub mod Returns
pub mod Nesting
pub mod Clock
pub mod Hooks
pub mod Alive
pub mod Kept
pub mod Started
pub mod Awake
pub mod Timers
pub mod Waits
pub mod Runs
pub mod Sample
mod Tests
use mathlib.Core.Option
use gcfflashero.Base.{
  ℕ, ◌+◌, Bool, true, false, Option, some, none, List, [], ◌∷◌, ◌++◌, ltb, if◌then◌else◌, set, u64,
}
use gcfflashero.GcfFile.{GcfFile}
use gcfflashero.Protocol.{RxState}

-- Event
pub data Event : Type 0 where
  action reset_success reset_failed uart_reset_success uart_reset_failed : Event
  ftdi_reset_success ftdi_reset_failed rasp_bee_reset_success rasp_bee_reset_failed : Event
  pkg_uart_reset pl_started pl_loop rx_ascii rx_btl_pkg_data connected_event disconnected : Event
  timeout : Event

-- The handlers that `state` of GCF_t points to.
pub data State : Type 0 where
  void init program v1_program_sync v1_program_write_header v1_program_upload : State
  v1_program_validate v3_program_sync v3_program_upload v3_program_wait_id : State
  bootloader_connect bootloader_query connect connected reset list_devices : State

-- The handlers that `substate` points to.
pub data Substate : Type 0 where
  no_substate reset_uart reset_ftdi reset_rasp_bee : Substate

pub data Task : Type 0 where
  t_none t_reset t_program t_list t_connect t_help : Task

pub data DeviceType : Type 0 where
  dev_unknown rasp_bee_1 rasp_bee_2 con_bee_1 con_bee_2 hive : DeviceType

-- Device
pub record Device : Type 0 where
  pub baudrate : ℕ
  pub name : List ℕ
  pub path : List ℕ
  pub serial : List ℕ
  pub stablepath : List ℕ

-- The calls that leave the core, in order: the timer, the serial line, and the end of the program.
pub data Effect : Type 0 where
  set_timeout sleep : ℕ → Effect
  clear_timeout disconnect shut_down ftdi_reset rasp_bee_reset : Effect
  connect_to : List ℕ → ℕ → Effect
  wrote sent_flagged : List ℕ → Effect

-- GCF_t without the lines of the user interface. `seq` is the static variable of
-- gcfCommandQueryStatus, `effects` the calls made so far.
pub record Gcf : Type 0 where
  pub argv : List (List ℕ)
  pub wp : ℕ
  pub ascii : List ℕ
  pub state : State
  pub substate : Substate
  pub retry : ℕ
  pub remaining : ℕ
  pub task : Task
  pub rxstate : RxState
  pub start_time : ℕ
  pub max_time : ℕ
  pub devices : List Device
  pub dev_type : DeviceType
  pub dev_baudrate : ℕ
  pub devpath : List ℕ
  pub dev_serial_num : List ℕ
  pub file : GcfFile
  pub seq : ℕ
  pub effects : List Effect

-- What the platform layer answers while one event is handled. `line_open` says whether the serial
-- line is open when something is written to it.
pub record Platform : Type 0 where
  pub connects : Bool
  pub line_open : Bool
  pub ftdi_resets : Bool
  pub rasp_bee_resets : Bool
  pub now : ℕ
  pub listed : List Device
  pub read_file : List ℕ → Option (List ℕ)

-- A piece of code that may dispatch events; `none` where the fuel of the dispatcher ran out, or the
-- code divides by 0, which ends the program.
abbrev pub Act : Type 0
Act = Gcf → Option Gcf

infixr 30 ◌⨾◌
abbrev pub ◌⨾◌ : Act → Act → Act
(first ⨾ second) gcf = elim (first gcf) [ none ↦ none | some gcf' ↦ second gcf' ]

abbrev pub did : Effect → Act
did e gcf = some (record gcf { effects = gcf.effects ++ e ∷ [] })

abbrev pub to_state : State → Act
to_state s gcf = some (record gcf { state = s })

abbrev pub to_substate : Substate → Act
to_substate s gcf = some (record gcf { substate = s })

-- `gcf->wp = 0; gcf->ascii[0] = '\0'`
abbrev pub clear_ascii : Act
clear_ascii gcf = some (record gcf { wp = 0; ascii = set gcf.ascii 0 0 })

-- PROT_Write and PROT_SendFlagged, which end with PROT_Flush: on a closed line that dispatches
-- EV_DISCONNECTED.
abbrev pub put_line : Platform → (Event → Act) → Effect → Act
put_line p dispatch e = if p.line_open then did e else dispatch disconnected

-- gcfRetry
pub retry_later : Platform → Act
retry_later p gcf =
    if ltb p.now gcf.max_time
    then (to_state init ⨾ to_substate no_substate ⨾ did (set_timeout 250)) gcf
    else did shut_down gcf
