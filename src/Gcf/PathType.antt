-- ===== src/Gcf/PathType.antt =====
-- gcf.c: the type of a device, gcfGetDeviceType, from its path and the firmware, on a platform that is
-- not Windows.
use gcfflashero.Base.{ℕ, ◌&&◌, some, List, [], ◌∷◌, ltb, leb, ◌==◌, if◌then◌else◌, length, is_empty}
use gcfflashero.Base.Text.{codes}
use gcfflashero.Gcf.{
  Gcf, DeviceType, dev_unknown, rasp_bee_1, rasp_bee_2, con_bee_1, con_bee_2, hive,
}
use gcfflashero.Gcf.Reset.{is_con_bee_1, is_rasp_bee_2}
use gcfflashero.SStream

-- The names that gcfGetDeviceType looks for in the path, in order.
abbrev path_types : List (List ℕ × DeviceType × ℕ)
path_types =
    (codes "ttyACM", con_bee_2, 115200)
    ∷ (codes "ConBee_II", con_bee_2, 115200)
    ∷ (codes "cu.usbmodemDE", con_bee_2, 115200)
    ∷ (codes "ttyUSB", con_bee_1, 38400)
    ∷ (codes "usb-FTDI", con_bee_1, 38400)
    ∷ (codes "cu.usbserial", con_bee_1, 38400)
    ∷ (codes "ttyAMA", rasp_bee_1, 38400)
    ∷ (codes "ttyAML", rasp_bee_1, 38400)
    ∷ (codes "ttyS", rasp_bee_1, 38400)
    ∷ (codes "/serial", rasp_bee_1, 38400)
    ∷ []

-- The chain of searches; a search that fails leaves the stream as it was.
unfoldable pub path_type : SStream.SStream → List (List ℕ × DeviceType × ℕ) → DeviceType × ℕ
path_type ss [] = (dev_unknown, 0)
path_type ss ((name, dev, baudrate) ∷ rest) =
    let later = path_type ss rest in if (SStream.find ss name).1 then (dev, baudrate) else later

-- The type and the baudrate, from the path and then the type of the firmware.
unfoldable pub guess_device : Gcf → DeviceType × ℕ
guess_device gcf =
    let ftype = gcf.file.file_type in
    let found =
      if is_empty gcf.devpath
      then (dev_unknown, 0)
      else path_type (SStream.init (some gcf.devpath) (length gcf.devpath)) path_types in
    if ftype == 60
    then (hive, 115200)
    else if is_con_bee_1 found.0 && ltb 9 ftype
    then (dev_unknown, 38400)
    else if is_rasp_bee_2 found.0 && leb 30 ftype && leb ftype 39
    then (rasp_bee_2, 38400)
    else found

-- gcfGetDeviceType, and the assignment of its result.
unfoldable pub get_device_type : Gcf → Gcf
get_device_type gcf =
    let (dev, baudrate) = guess_device gcf in
    record gcf {
      dev_type = dev;
      dev_baudrate = if gcf.dev_baudrate == 0 then baudrate else gcf.dev_baudrate;
    }
