-- ===== src/Gcf/Sample.antt =====
-- A state of gcf.c in the middle of an upload, for runs.
use gcfflashero.Base.{ℕ, true, false, none, List, [], ◌∷◌, ◌++◌, replicate}
use gcfflashero.Base.Text.{codes}
use gcfflashero.Gcf.{Gcf, Platform, State, Substate, t_program, con_bee_2}
use gcfflashero.GcfFile.{GcfFile}

abbrev pub platform : Platform
platform = record {
  connects = true;
  line_open = true;
  ftdi_resets = true;
  rasp_bee_resets = true;
  now = 1000;
  listed = [];
  read_file = λ name. none;
}

-- A firmware of six bytes.
abbrev pub firmware : GcfFile
firmware = record {
  fname = codes "fw.GCF";
  fsize = 20;
  fw_version = 0;
  file_type = 30;
  target_address = 0x5000;
  file_size = 6;
  crc = 0;
  crc32 = 0;
  fcontent = replicate 14 0 ++ 1 ∷ 2 ∷ 3 ∷ 4 ∷ 5 ∷ 6 ∷ [];
}

-- An upload with a text received.
abbrev pub upload : State → List ℕ → ℕ → Gcf
upload state ascii wp = record {
  argv = [];
  wp = wp;
  ascii = ascii;
  state = state;
  substate = Substate.no_substate;
  retry = 0;
  remaining = 0;
  task = t_program;
  rxstate = record { bufpos = 0; crc = 0; escaped = false; buf = replicate 256 0 };
  start_time = 0;
  max_time = 10000;
  devices = [];
  dev_type = con_bee_2;
  dev_baudrate = 115200;
  devpath = codes "/dev/ttyACM0";
  dev_serial_num = [];
  file = firmware;
  seq = 1;
  effects = [];
}
