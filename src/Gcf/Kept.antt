-- ===== src/Gcf/Kept.antt =====
-- What gcfGetDevices and gcfGetDeviceType of gcf.c leave as it was.
use gcfflashero.Base.{
  ◌≡◌, refl, Bool, true, false, List, [], ◌∷◌, some, is_empty, not, ◌&&◌, length, take,
  if◌then◌else◌,
}
use gcfflashero.Gcf.{Gcf, Device, Platform}
use gcfflashero.Gcf.PathType.{get_device_type}
use gcfflashero.Gcf.Reset.{get_devices, match_devices, matched_device, names_device}
use gcfflashero.SStream

-- The search for devices does not touch the task, the state and the calls.
pub record Kept (g g' : Gcf) : Type 0 where
  pub same_task : g'.task ≡ g.task
  pub same_state : g'.state ≡ g.state
  pub same_effects : g'.effects ≡ g.effects

if-Kept : (b : Bool) {g x y : Gcf} → Kept g x → Kept g y → Kept g (if b then x else y)
if-Kept true hx hy = hx
if-Kept false hx hy = hy

same : (g : Gcf) → Kept g g
same g = record { same_task = refl; same_state = refl; same_effects = refl }

matched : (dev : Device) (g : Gcf) → Kept g (matched_device dev g)
matched dev g = record { same_task = refl; same_state = refl; same_effects = refl }

match_devices-Kept :
    (ss : SStream.SStream) (devs : List Device) (g : Gcf) → Kept g (match_devices ss devs g)
unfolding match_devices
match_devices-Kept ss [] g = same g
match_devices-Kept ss (dev ∷ devs) g =
    if-Kept (not (is_empty dev.serial) && names_device ss dev) (matched dev g)
      (match_devices-Kept ss devs g)

-- The devices found, and what the search for the device of the command line does then.
abbrev with_listed : Platform → Gcf → Gcf
with_listed p g = record g { devices = take 4 p.listed }

searched :
    (g : Gcf)
    → Kept g (match_devices (SStream.init (some g.devpath) (length g.devpath)) g.devices g)
searched g = match_devices-Kept _ g.devices g

pub get_devices-Kept : (p : Platform) (g : Gcf) → Kept g (get_devices p g)
unfolding get_devices
get_devices-Kept p g =
    let k =
      if-Kept (not (is_empty g.devpath) && is_empty g.dev_serial_num) (searched (with_listed p g))
        (same (with_listed p g)) in
    record { same_task = k.same_task; same_state = k.same_state; same_effects = k.same_effects }

pub get_device_type-Kept : (g : Gcf) → Kept g (get_device_type g)
unfolding get_device_type
get_device_type-Kept g = record { same_task = refl; same_state = refl; same_effects = refl }
