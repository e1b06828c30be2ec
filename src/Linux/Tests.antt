-- ===== src/Linux/Tests.antt =====
-- Runs of linux_get_usb_devices.c, and the theorems about it at concrete inputs.
use gcfflashero.Base.{ℕ, ◌≤◌, ◌≡◌, refl, arith, Option, none, some, List, [], ◌∷◌, length}
use gcfflashero.Base.Text.{codes}
use gcfflashero.Gcf.{Device}
use gcfflashero.Linux.{linux_usb_devices}
use gcfflashero.Linux.ById.{by_id_device, strstr, up_to_dash}
use gcfflashero.Linux.Fits.{AllFit}
use gcfflashero.Linux.Listed.{linux_usb_devices-AllFit}
use gcfflashero.Linux.Names.{by_id_device-con_bee_2, entry_name}
use gcfflashero.Linux.Udev.{copy_value, parse_loop, parse_line, parse_output}
use gcfflashero.SStream.{init, remaining, find, find_loop, match_count, starts_with, peek_char}

abbrev resolve : List ℕ → Option (List ℕ)
resolve link = some (codes "/dev/ttyACM0")

con_bee_2_serial :
    by_id_device resolve (codes "usb-dresden_elektronik_ConBee_II_DE1948474-if00")
    ≡ some (record {
      baudrate = 115200;
      name = codes "ConBee_II";
      path = codes "/dev/ttyACM0";
      serial = codes "DE1948474";
      stablepath = codes "/dev/serial/by-id/usb-dresden_elektronik_ConBee_II_DE1948474-if00";
    })
unfolding strstr up_to_dash
con_bee_2_serial = refl

-- A ConBee III, which is taken for a ConBee II with an underscore in its serial number.
by_id_device-con_bee_2_example :
    by_id_device resolve
      (entry_name (codes "usb-dresden_elektronik_") b'I' (codes "_DEDEADAFFE") (codes "if00-port0"))
    ≡ some (record {
      baudrate = 115200;
      name = codes "ConBee_II";
      path = codes "/dev/ttyACM0";
      serial = codes "_DEDEADAFFE";
      stablepath =
          codes "/dev/serial/by-id/usb-dresden_elektronik_ConBee_III_DEDEADAFFE-if00-port0";
    })
by_id_device-con_bee_2_example =
    by_id_device-con_bee_2 resolve (codes "usb-dresden_elektronik_") b'I' (codes "_DEDEADAFFE")
      (codes "if00-port0") (codes "/dev/ttyACM0") (omega arith) (omega arith) (omega arith)
      (omega arith) (omega arith) refl (omega arith)

parse_run :
    parse_output (
      codes
        "N: ttyACM0\nE: ID_USB_MODEL=ConBee_II\nE: ID_USB_SERIAL_SHORT=DE194\nE: ID_USB_VENDOR_ID=1cf1\n")
    ≡ some (record {
      vendor = 0x1cf1;
      serial = codes "DE194";
      name = codes "ConBee_II";
      baudrate = 115200;
    })
unfolding parse_output parse_loop parse_line copy_value init remaining find find_loop match_count
    starts_with peek_char
parse_run = refl

abbrev by_id : List (List ℕ)
by_id = codes "." ∷ codes "usb-FTDI_FT230X_Basic_UART_DJ00QBWE-if00-port0" ∷ []

linux_usb_devices-AllFit_example :
    (devs : List Device) × (linux_usb_devices none none
        (λ path. none)
        (λ command. none)
        (some by_id)
        resolve
        4
      ≡ some devs)
    × (length devs ≤ 4)
    × AllFit devs
linux_usb_devices-AllFit_example =
    linux_usb_devices-AllFit none none (λ path. none) (λ command. none) (some by_id) resolve 4
