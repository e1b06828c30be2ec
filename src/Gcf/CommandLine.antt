-- ===== src/Gcf/CommandLine.antt =====
-- gcf.c: the command line, gcfProcessCommandline, on a platform that is not Windows,
-- without the options of the network server.
use gcfflashero.Base.{
  ℕ, ◌+◌, ◌*◌, Bool, true, false, not, ◌&&◌, ◌||◌, Option, none, some, List, [], ◌∷◌, ◌++◌, ltb,
  leb, ◌==◌, if◌then◌else◌, get_or, length, drop, is_empty, bit_and, u64, ℤ,
}
use gcfflashero.Gcf
use gcfflashero.Gcf.{
  Gcf, Platform, Effect, shut_down, Task, t_none, t_reset, t_program, t_list, t_connect, t_help,
  DeviceType, dev_unknown, rasp_bee_1, rasp_bee_2, con_bee_1, con_bee_2, hive, no_substate,
}
use gcfflashero.Gcf.Reset.{get_devices, is_rasp_bee_1}
use gcfflashero.GcfFile
use gcfflashero.GcfFile.{GcfFile, parse_file}
use gcfflashero.SStream
use gcfflashero.Gcf.PathType.{get_device_type}

-- GCF_Status
pub data Outcome : Type 0 where
  success failed : Outcome

-- The fields reset at the start. The path, the serial number and the file name become empty.
abbrev pub reset_fields : Gcf → Gcf
reset_fields gcf = record gcf {
  state = Gcf.State.void;
  substate = no_substate;
  devpath = [];
  dev_serial_num = [];
  dev_type = dev_unknown;
  dev_baudrate = 0;
  file = record gcf.file { fname = []; file_type = 0; fsize = 0 };
  task = if length gcf.argv == 1 then t_help else t_none;
}

-- The argument of an option: none is left, or it starts with a dash.
abbrev pub option_argument : List (List ℕ) → Option (List ℕ × List (List ℕ))
option_argument [] = none
option_argument (arg ∷ rest) = if get_or arg 0 0 == b'-' then none else some (arg, rest)

-- `-d`
unfoldable pub take_device : List ℕ → Gcf → Option Gcf
take_device arg gcf = if leb 255 (length arg) then none else some (record gcf { devpath = arg })

abbrev pub is_accepted : GcfFile.Status → Bool
is_accepted GcfFile.Status.ok = true
is_accepted _ = false

abbrev pub set_file : Gcf → GcfFile → Gcf
set_file gcf file = record gcf { file = file }

-- What PL_ReadFile puts into the buffer of 800 KB, before GCF_ParseFile.
abbrev pub load_file : List ℕ → List ℕ → GcfFile → GcfFile
load_file name bytes file = record file {
  fname = name;
  fsize = length bytes;
  fcontent = bytes ++ drop (length bytes) file.fcontent;
}

-- The loop goes on with `ret`, or the function returns GCF_FAILED.
pub data Parsed : Type 0 where
  go : Outcome → Gcf → Parsed
  stop : Gcf → Parsed

abbrev pub parsed_file : Outcome → Gcf → GcfFile.Status × GcfFile → Parsed
parsed_file ret gcf (status, file) =
    if is_accepted status then go ret (set_file gcf file) else stop (set_file gcf file)

-- The content that PL_ReadFile found, if it found one.
abbrev pub file_content : List ℕ → Outcome → Gcf → Option (List ℕ) → Parsed
file_content arg ret gcf none = stop (set_file gcf (record gcf.file { fname = arg }))
file_content arg ret gcf (some bytes) =
    if is_empty bytes
    then stop (set_file gcf (record gcf.file { fname = arg }))
    else parsed_file ret gcf (parse_file (load_file arg bytes gcf.file))

-- `-f`: the name, the content, and the header.
unfoldable pub take_file : Platform → List ℕ → Outcome → Gcf → Parsed
take_file p arg ret gcf =
    if leb 255 (length arg) then stop gcf else file_content arg ret gcf (p.read_file arg)

abbrev pub seconds_of : ℤ → Option ℕ
seconds_of (ℤ.pos n) = if leb n 3600 then some n else none
seconds_of (ℤ.negsuc n) = none

abbrev pub is_stream_ok : SStream.Status → Bool
is_stream_ok SStream.Status.ok = true
is_stream_ok _ = false

abbrev pub within_hour : Outcome → Gcf → Option ℕ → Parsed
within_hour ret gcf none = stop gcf
within_hour ret gcf (some n) = go ret (record gcf { max_time = u64 (n * 1000 + gcf.start_time) })

-- `-t`: the seconds until which a failed attempt is made again.
unfoldable pub take_timeout : List ℕ → Outcome → Gcf → Parsed
take_timeout arg ret gcf =
    let (ss, n) = SStream.get_long (SStream.init (some arg) (length arg)) in
    if is_stream_ok ss.status then within_hour ret gcf (seconds_of n) else stop gcf

-- The options that take no argument.
unfoldable pub plain_option : ℕ → Outcome → Gcf → Parsed
plain_option letter ret gcf =
    if letter == b'r'
    then go ret (record gcf { task = t_reset })
    else if letter == b'c'
    then go ret (record gcf { task = t_connect })
    else if letter == b'l'
    then go success (record gcf { task = t_list; state = Gcf.State.list_devices })
    else if letter == b'?' || letter == b'h'
    then go success (record gcf { task = t_help })
    else stop gcf

abbrev pub wants_argument : ℕ → Bool
wants_argument letter = letter == b'd' || letter == b'f' || letter == b't' || letter == b'x'

-- What is set before the argument is looked at.
abbrev pub before_argument : ℕ → Gcf → Gcf
before_argument letter gcf = if letter == b'f' then record gcf { task = t_program } else gcf

-- The options with an argument; the one of `-x` is not used.
unfoldable pub argument_option : Platform → ℕ → List ℕ → Outcome → Gcf → Parsed
argument_option p letter arg ret gcf =
    if letter == b'd'
    then elim (take_device arg gcf) [ none ↦ stop gcf | some gcf' ↦ go ret gcf' ]
    else if letter == b'f'
    then take_file p arg ret gcf
    else if letter == b't'
    then take_timeout arg ret gcf
    else go ret gcf

abbrev pub and_then : Parsed → (Outcome → Gcf → Parsed) → Parsed
and_then (stop gcf) more = stop gcf
and_then (go ret gcf) more = more ret gcf

-- The loop over the arguments behind the program's name.
unfoldable pub parse_options : Platform → List (List ℕ) → Outcome → Gcf → Parsed
parse_options p [] ret gcf = go ret gcf
parse_options p (arg ∷ []) ret gcf =
    let letter = get_or arg 1 0 in
    if not (get_or arg 0 0 == b'-')
    then go ret gcf
    else if wants_argument letter
    then stop (before_argument letter gcf)
    else plain_option letter ret gcf
parse_options p (arg ∷ next ∷ rest) ret gcf =
    let letter = get_or arg 1 0 in
    let alone = parse_options p (next ∷ rest) in
    let behind = parse_options p rest in
    if not (get_or arg 0 0 == b'-')
    then alone ret gcf
    else if wants_argument letter
    then if get_or next 0 0 == b'-'
      then stop (before_argument letter gcf)
      else and_then (argument_option p letter next ret (before_argument letter gcf)) behind
    else and_then (plain_option letter ret gcf) alone

-- FW_VERSION_PLATFORM_R21 in the version, or the address of the ConBee II: a RaspBee II.
abbrev pub assumed_type : Gcf → DeviceType
assumed_type gcf =
    if is_rasp_bee_1 gcf.dev_type
      && (bit_and gcf.file.fw_version 0x0000FF00 == 0x00000700 || gcf.file.target_address == 0x5000)
    then rasp_bee_2
    else gcf.dev_type

-- Without `-t`, ten seconds.
abbrev pub default_time : Gcf → ℕ
default_time gcf =
    if ltb gcf.max_time gcf.start_time then u64 (10 * 1000 + gcf.start_time) else gcf.max_time

abbrev pub started : Gcf.State → Gcf → Outcome × Gcf
started s gcf = if is_empty gcf.devpath then (failed, gcf) else (success, record gcf { state = s })

-- The end of gcfProcessCommandline: the first state of the task.
unfoldable pub choose_task : Outcome → Gcf → Outcome × Gcf
choose_task ret gcf = elim gcf.task [
  | t_program ↦ if is_empty gcf.devpath || is_empty gcf.file.fname then (failed, gcf) else (
    success,
    record gcf {
      max_time = default_time gcf;
      dev_type = assumed_type gcf;
      state = Gcf.State.program;
    },
  )
  | t_connect ↦ started Gcf.State.connect gcf
  | t_reset ↦ started Gcf.State.reset gcf
  | t_help ↦ (success, record gcf { effects = gcf.effects ++ shut_down ∷ [] })
  | t_list ↦ (ret, gcf)
  | t_none ↦ (ret, gcf)
]

abbrev pub finish_line : Platform → Parsed → Outcome × Gcf
finish_line p (stop gcf) = (failed, gcf)
finish_line p (go ret gcf) = choose_task ret (get_device_type (get_devices p gcf))

-- gcfProcessCommandline
unfoldable pub process_commandline : Platform → Gcf → Outcome × Gcf
process_commandline p gcf =
    finish_line p (parse_options p (drop 1 gcf.argv) failed (reset_fields gcf))
