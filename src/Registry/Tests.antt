-- ===== src/Registry/Tests.antt =====
-- Runs of the registry's text functions.
use note_usb.Shared.{to_int32, ◌≡◌, refl, [], ◌∷◌, true, false, codes, pos, negsuc, List}
use note_usb.Registry.Print.{ClaimedDevice, json_array, to_string}
use note_usb.Registry.Read.{read_text}

abbrev two : List ClaimedDevice
two =
    (record {
      pid = pos 31337;
      device_id = codes "1:2";
      interface_number = pos 0;
      kernel_driver_attached = true;
    })
    ∷ (record {
      pid = negsuc 41;
      device_id = codes "10:255";
      interface_number = pos 3;
      kernel_driver_attached = false;
    })
    ∷ []

two_round : read_text (json_array two) ≡ two
unfolding read_text json_array to_string to_int32
two_round = refl
