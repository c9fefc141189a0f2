-- ===== src/Tests/Locks.antt =====
-- Runs of DeviceHandler as a table of locks, with one mouse and two clients.
use note_usb.Shared.{◌≡◌, refl, true, some, none, [], ◌∷◌, text_eq, codes, pos, text_key}
use note_usb.Shared.Map.{lookup}
use note_usb.Protocol.Shape.{all_well_formed, WellFormed}
use note_usb.Handler.{DeviceInfo, Handler, success}
use note_usb.Handler.Release.{forget_claim, released_response}
use note_usb.Handler.Owners.{owner_of}
use note_usb.Handler.Replies.{replies}
use note_usb.Module.{handle_management_message, command_of}
use note_usb.Module.Reachable.Locks.{
  Stepped, handle_management_message-Stepped, handle_management_message-released,
}
use note_usb.Module.Reachable.Typed.{Reaches-WellFormed}
use note_usb.Tests.{mouse, empty_world}
use note_usb.Tests.Devices.{
  claim_mouse, release_mouse, started_handler, started_world, asked, asked-Reaches,
}

Reaches-WellFormed_example : WellFormed asked.1
unfolding all_well_formed
Reaches-WellFormed_example =
    Reaches-WellFormed mouse empty_world asked.0.1 asked.1 refl asked-Reaches

handle_management_message-Stepped_example : Stepped mouse started_handler (pos 400) (
    handle_management_message mouse
      (some started_handler)
      claim_mouse
      (pos 5)
      (pos 400)
      started_world)
handle_management_message-Stepped_example =
    handle_management_message-Stepped mouse started_handler claim_mouse (pos 5) (pos 400)
      started_world

-- The client 400 owns the mouse.
abbrev owned : DeviceInfo
owned = record {
  device_id = codes "1:3";
  handle = some 7;
  interface_number = pos 0;
  kernel_driver_attached = true;
  capabilities = 1;
  owner_pid = pos 400;
}

abbrev owning : Handler
owning = record started_handler { claimed = (codes "1:3", owned) ∷ [] }

-- The client 500 releases it.
handle_management_message-released_example :
    let r =
      handle_management_message mouse (some owning) release_mouse (pos 6) (pos 500) started_world in
    (r.0 ≡ (success, some (forget_claim mouse owning (codes "1:3"))))
    × (owner_of (codes "1:3") (forget_claim mouse owning (codes "1:3")) ≡ none)
    × (replies (pos 6) r.1.history
        ≡ released_response mouse (codes "1:3") ∷ replies (pos 6) started_world.history)
unfolding command_of lookup text_eq
handle_management_message-released_example =
    handle_management_message-released mouse owning release_mouse (pos 6) (pos 500) started_world
      (codes "release") (codes "1:3") owned refl refl refl refl refl refl refl
