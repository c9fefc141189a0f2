-- ===== src/Registry.antt =====
-- DeviceRegistry (include/note_usb/device_handler.h, src/device_handler.cpp): the crash-recovery
-- file. A call holds the registry's mutex to its end, so calls do not interleave.
pub mod Print
pub mod Read
pub mod Numbers
pub mod Search
pub mod RoundTrip
pub mod Contents
pub mod Lookup
mod Tests
use note_usb.Shared.{
  Bool, true, false, ◌||◌, Option, none, some, List, [], ◌∷◌, ◌++◌, Text, text_eq, ℤ, if◌then◌else◌,
}
use note_usb.Platform.{Env, World, Act, ◌>>=◌, ◌>>◌, pure, ask, wrote_file}
use note_usb.Registry.Print.{ClaimedDevice, json_array}
use note_usb.Registry.Read.{read_text}

-- `devices.erase(std::remove_if(…))` with the test `x.device_id == device_id`.
unfoldable pub without : Text → List ClaimedDevice → List ClaimedDevice
without id [] = []
without id (d ∷ ds) = let rest = without id ds in if text_eq d.device_id id then rest else d ∷ rest

-- `std::remove_if(…) != devices.end()`
unfoldable pub is_listed : Text → List ClaimedDevice → Bool
is_listed id [] = false
is_listed id (d ∷ ds) = text_eq d.device_id id || is_listed id ds

-- A file that is not there reads as no devices.
abbrev read_file : Option Text → List ClaimedDevice
read_file none = []
read_file (some t) = read_text t

module _ (env : Env) where
  abbrev V : Type 0
  V = env.Value

  unfoldable pub read_registry : Act V (List ClaimedDevice)
  read_registry w = (read_file w.file, w)

  abbrev put_file : Text → Act V (Unit {0})
  put_file t w = (tt, record w { file = some t })

  -- The answer of `mkdir` is not looked at. `false`: the file could not be opened.
  unfoldable pub write_registry : List ClaimedDevice → Act V Bool
  write_registry ds = do
    opened ← ask env.can_write wrote_file
    if opened then put_file (json_array ds) >> pure true else pure false

  unfoldable pub add_device : Text → ℤ → Bool → Act V (Unit {0})
  unfolding write_registry read_registry
  add_device id interface driver = do
    devices ← read_registry
    written ← write_registry (
        without id devices
        ++ ((record {
          pid = env.self_pid;
          device_id = id;
          interface_number = interface;
          kernel_driver_attached = driver;
        })
            ∷ []))
    pure tt

  unfoldable pub remove_device : Text → Act V Bool
  unfolding write_registry read_registry
  remove_device id = do
    devices ← read_registry
    if is_listed id devices
        then (do written ← write_registry (without id devices); pure true)
        else pure false

  unfoldable pub get_all_devices : Act V (List ClaimedDevice)
  unfolding read_registry
  get_all_devices = read_registry

  unfoldable pub remove_all : Act V (Unit {0})
  unfolding write_registry
  remove_all = do written ← write_registry []; pure tt
