-- ===== src/Tests/Files.antt =====
-- Runs of the registry file and of the device ids.
use note_usb.Shared.{List, ◌≡◌, refl, arith, ◌++◌, true, [], ◌∷◌, Text, codes, pos}
use note_usb.Platform.{World}
use note_usb.Registry.Print.{ClaimedDevice, json_array}
use note_usb.Registry.Read.{read_text}
use note_usb.Registry.RoundTrip.{IsPlain, read_text-json_array}
use note_usb.Registry.Search.{Parses, read_objects-enough}
use note_usb.Registry.Contents.{Holds, entry, add_device-Holds, remove_device-Holds}
use note_usb.Registry.{
  add_device, remove_device, get_all_devices, read_registry, without, is_listed,
}
use note_usb.Usb.{id_text}
use note_usb.Usb.Ids.{id_text-IsPlain}
use note_usb.Tests.{mouse, empty_world}

abbrev pub mouse_entry : ClaimedDevice
mouse_entry = entry mouse (id_text 1 3) (pos 0) true

mouse-IsPlain : IsPlain mouse_entry
mouse-IsPlain = id_text-IsPlain 1 3 (pos 99) (pos 0) true (omega arith) (omega arith)

read_text-json_array_example :
    read_text (json_array (mouse_entry ∷ mouse_entry ∷ [])) ≡ mouse_entry ∷ mouse_entry ∷ []
read_text-json_array_example =
    read_text-json_array (mouse_entry ∷ mouse_entry ∷ []) (mouse-IsPlain, (mouse-IsPlain, tt))

pub no_file : Holds mouse empty_world []
no_file = record { reads = unfold get_all_devices read_registry in refl; plain = tt }

add_device-Holds_example :
    Holds mouse (add_device mouse (id_text 1 3) (pos 0) true empty_world).1 ([] ++ mouse_entry ∷ [])
add_device-Holds_example =
    unfold without in
    add_device-Holds mouse empty_world [] (id_text 1 3) (pos 0) true no_file mouse-IsPlain

abbrev listed_world : World Text
listed_world = (add_device mouse (id_text 1 3) (pos 0) true empty_world).1

remove_device-Holds_example :
    ((remove_device mouse (id_text 1 3) listed_world).0
      ≡ is_listed (id_text 1 3) ([] ++ mouse_entry ∷ []))
    × Holds mouse
        (remove_device mouse (id_text 1 3) listed_world).1
        (without (id_text 1 3) ([] ++ mouse_entry ∷ []))
remove_device-Holds_example =
    remove_device-Holds mouse listed_world ([] ++ mouse_entry ∷ []) (id_text 1 3)
      add_device-Holds_example

-- A device, and behind it a brace that is not closed.
abbrev unclosed : Text
unclosed = codes "[{\"pid\":7,\"device_id\":\"1:3\"},{"

read_objects-enough_example : (ds : List ClaimedDevice) × Parses unclosed ds
read_objects-enough_example = read_objects-enough unclosed
