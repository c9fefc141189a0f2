-- ===== src/Tests/Monitors.antt =====
-- A run of the crash monitor with the mouse in the other DeviceRegistry.
use note_usb.Shared.{◌≡◌, refl, arith, ltb, [], ◌∷◌, pos, negsuc, Text}
use note_usb.Session.{returned}
use note_usb.Monitor.{Outside, recover, monitor_main}
use note_usb.Monitor.Recovered.{Tidy, watched, monitor_main-recover}
use note_usb.Tests.{mouse, empty_world}
use note_usb.Tests.Files.{mouse_entry}

-- The daemon is found alive twice.
abbrev outside : Outside Text
outside = record {
  get_all_devices = λ w. (mouse_entry ∷ [], w);
  remove_all_by_pid = λ pid w. (tt, w);
  is_alive = λ n pid. ltb n 2;
  atoi = λ t. pos 99;
  not_found = negsuc 4;
}

monitor_main-recover_example :
    let w' = (recover mouse outside (pos 99) (watched 2 empty_world)).1 in
    (monitor_main mouse outside 5 0 (pos 99) empty_world ≡ (returned (pos 0), w'))
    × Tidy 7 empty_world w'
monitor_main-recover_example =
    monitor_main-recover mouse outside 7 5 2 (pos 99) empty_world (λ w. (omega arith, refl))
      (λ w. (omega arith, refl)) (λ i h. ground (arith, h)) refl (omega arith)
