-- ===== src/Windows/Tests.antt =====
-- Runs of the models of main_windows.c, and the theorems about them at concrete inputs.
use gcfflashero.Base.{
  ℕ, ◌<◌, ◌≤◌, ◌≡◌, ℤ, length, get_or, refl, arith, some, List, [], ◌∷◌, ◌++◌, replicate,
  length-replicate, take, ◌+◌, true,
}
use gcfflashero.Base.Text.{codes}
use gcfflashero.Windows.{Sender, putc, putcs, flush}
use gcfflashero.Windows.Arguments.{arguments, joined, arguments-joined}
use gcfflashero.Windows.Inside.{printf_inside}
use gcfflashero.Windows.Listed.{windows_devices-IsTable}
use gcfflashero.Windows.Ports.{
  Present, empty_slot, windows_devices, port_loop, on_present, on_port_serial, read_instance,
  serial_loop, first_slot, at_slot, describe, set_port,
}
use gcfflashero.Windows.Printf.{Args, printf, format_loop, on_format, on_spec}
use gcfflashero.SStream
use gcfflashero.SStream.{put_str, copy_str}
use gcfflashero.SStream.Print.{put_long, put_u32hex, low_digits}
use gcfflashero.Windows.Table.{IsTable}
use gcfflashero.Gcf.{timeout}
use gcfflashero.Posix.Loop.{Call, event}
use gcfflashero.Windows.Loop.{Win, WinHost, win_set_timeout, win_rounds}
use gcfflashero.Windows.Timer.{still, stills, timed_out, win_rounds-delivered}

abbrev idle : Sender
idle = record { txbuf = replicate 2048 0; txpos = 0; sent = 5 ∷ [] }

-- A write that takes two bytes of four: the other two are gone.
partial_write : (flush 2 (putcs (1 ∷ 2 ∷ 3 ∷ 4 ∷ []) idle)).sent ≡ 5 ∷ 1 ∷ 2 ∷ []
unfolding putc flush
partial_write = refl

-- `gcf -f "fw 1.GCF"`: the quotes stay in the argument.
abbrev words : List (List ℕ)
words = codes "-f" ∷ (b'"' ∷ codes "fw 1.GCF" ++ b'"' ∷ []) ∷ []

arguments-joined_example : arguments (joined (codes "gcf") words) ≡ codes "gcf" ∷ words
arguments-joined_example =
    arguments-joined (codes "gcf") words (record { closed = refl })
      (record { closed = refl }, (record { closed = refl }, tt)) (omega arith) (omega arith)
      (omega arith)

-- `PL_Printf(level, "%s: 0x%X, %d\n", "id", 255, -7)`, printed over an older text.
abbrev args : Args
args = record {
  text = λ k. codes "id";
  int = λ k. ℤ.negsuc 6;
  long = λ k. ℤ.pos 0;
  unsigned_int = λ k. 255;
  unsigned_long = λ k. 0;
}

abbrev format : List ℕ
format = codes "%s: 0x%X, %d"

printed_line : take 18 (printf args (replicate 1024 b'#') format).0 ≡ codes "id: 0x000000FF, -7"
unfolding printf format_loop on_format on_spec put_str put_long put_u32hex copy_str low_digits
    SStream.init
printed_line = refl

printf_inside_example :
    (length (printf args (replicate 1024 b'#') format).0 ≡ 1024)
    × ((printf args (replicate 1024 b'#') format).1 < 1024)
    × (get_or
          (printf args (replicate 1024 b'#') format).0
          (printf args (replicate 1024 b'#') format).1
          1
        ≡ 0)
printf_inside_example =
    printf_inside args (λ k. omega arith) (replicate 1024 b'#') format
      (length-replicate {A = ℕ} 1024 b'#')

-- A ConBee II, and a ConBee I of the enumerator FTDIBUS.
abbrev usb : List Present
usb =
    record {
      instance_id = codes "USB" ++ b'\\' ∷ codes "VID_1CF1&PID_0030" ++ b'\\' ∷ codes "DE1995634";
      description = some (codes "ConBee II");
      port_name = some (codes "COM7");
    }
    ∷ []

abbrev ftdibus : List Present
ftdibus =
    record {
      instance_id =
          codes "FTDIBUS" ++ b'\\' ∷ codes "VID_0403+PID_6015+DJ00QBWEA" ++ b'\\' ∷ codes "0000";
      description = some (codes "USB Serial Port");
      port_name = some (codes "COM12");
    }
    ∷ []

both_listed : windows_devices 4 usb ftdibus ≡ (
  record {
    baudrate = 115200;
    name = codes "ConBee II";
    path = codes "COM7";
    serial = codes "DE1995634";
    stablepath = codes "COM7";
  }
      ∷ record {
        baudrate = 38400;
        name = codes "Serial FTDI";
        path = codes "COM12";
        serial = codes "DJ00QBWE";
        stablepath = codes "COM12";
      }
      ∷ empty_slot
      ∷ empty_slot
      ∷ [],
  2,
)
unfolding windows_devices port_loop on_present on_port_serial read_instance serial_loop first_slot
    at_slot describe set_port SStream.find SStream.find_loop SStream.match_count SStream.init
    SStream.peek_char SStream.starts_with
both_listed = refl

windows_devices-IsTable_example :
    IsTable 4 (windows_devices 4 usb ftdibus).0 × ((windows_devices 4 usb ftdibus).1 ≤ 4)
windows_devices-IsTable_example = windows_devices-IsTable 4 usb ftdibus

-- A core that counts the time-outs and asks for the next one.
abbrev counting : Call → Win × ℕ → Win × ℕ
counting (event timeout) (win, n) = (win_set_timeout 1300 500 win, n + 1)
counting _ (win, n) = (win, n)

abbrev waiting_port : WinHost ℕ
waiting_port = record {
  line = record { timer = 1250; is_open = true; running = true; tx = idle };
  inner = 0;
  calls = [];
}

win_rounds-delivered_example :
    win_rounds counting (stills (1249 ∷ 1250 ∷ []) ++ still 1251 ∷ []) waiting_port
    ≡ win_rounds counting [] (timed_out counting waiting_port)
win_rounds-delivered_example =
    win_rounds-delivered counting (1249 ∷ 1250 ∷ []) 1251 [] waiting_port refl (λ e. omega arith)
      (omega arith, (omega arith, tt)) (omega arith)
