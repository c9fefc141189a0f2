-- ===== src/Tests/Devices.antt =====
-- Runs of DeviceHandler, with one mouse.
use note_usb.Shared.{
  ◌≡◌, refl, arith, ◌+◌, Bool, true, false, Option, none, some, List, [], ◌∷◌, Text, codes, pos,
  negsuc, ℤ, length, to_int32, text_key, text_eq,
}
use note_usb.Shared.Map.{lookup, has, is_some}
use note_usb.Protocol.{Error}
use note_usb.Platform.{listed, World}
use note_usb.Usb.{id_text}
use note_usb.Handler.{Handler, new_handler, discover_devices, start_discovery}
use note_usb.Handler.Claim.{claim_device}
use note_usb.Handler.Release.{release_device}
use note_usb.Handler.Handles.{Balanced, held, claim_device-Balanced}
use note_usb.Handler.Handles.Released.{release_device-Balanced}
use note_usb.Handler.Invariant.{Inv}
use note_usb.Handler.Invariant.Methods.{new_handler-Inv, discover_devices-Inv, claim_device-Inv}
use note_usb.Handler.Replies.{ClaimOutcome, claim_device-ClaimOutcome}
use note_usb.Module.{handle_management_message, run_command, claim_item, command_of}
use note_usb.Module.Reachable.Runs.{Reaches, InOrder, created, requested, started, Reaches-InOrder}
use note_usb.Handler.Recovery.{Recorded}
use note_usb.Module.Reachable.Recovery.{Reaches-Recorded}
use note_usb.Handler.Discovery.{or_else, first_matching, usable, discover_devices-lookup}
use note_usb.Tests.Files.{no_file}
use note_usb.Tests.{mouse, fields, Fields, empty_world}

abbrev first : Handler
first = (new_handler mouse true (codes "note_usb") empty_world).0

abbrev scanned : Handler
scanned = (discover_devices mouse first empty_world).0

abbrev pub claim_mouse : Fields
claim_mouse = fields (codes "claim") (codes "1:3")

abbrev pub release_mouse : Fields
release_mouse = fields (codes "release") (codes "1:3")

abbrev pub claimed : Handler
claimed = (claim_device mouse scanned claim_mouse (pos 5) (pos 400) empty_world).0.1

abbrev pub claimed_world : World Text
claimed_world = (claim_device mouse scanned claim_mouse (pos 5) (pos 400) empty_world).1

-- The claim is granted.
claimed_test : held 7 claimed ≡ 1
unfolding held claim_device discover_devices new_handler id_text note_usb.Shared.Map.Count.total
    note_usb.Shared.Map.place note_usb.Shared.text_eq note_usb.Handler.Claim.finish_claim
    note_usb.Handler.Claim.acquire note_usb.Handler.Claim.accept_claim
claimed_test = refl

scanned-Inv : Inv scanned
scanned-Inv =
    discover_devices-Inv mouse first empty_world
      (new_handler-Inv mouse true (codes "note_usb") empty_world)

claimed-Inv : Inv claimed
claimed-Inv = claim_device-Inv mouse scanned claim_mouse (pos 5) (pos 400) empty_world scanned-Inv

abbrev first_world : World Text
first_world = (new_handler mouse true (codes "note_usb") empty_world).1

abbrev pub started_handler : Handler
started_handler = (start_discovery mouse first first_world).0

abbrev pub started_world : World Text
started_world = (start_discovery mouse first first_world).1

abbrev pub asked : (Error × Handler) × World Text
asked = claim_device mouse started_handler claim_mouse (pos 5) (pos 400) started_world

-- The module passes the request on.
asked_lem :
    handle_management_message mouse
      (some started_handler)
      claim_mouse
      (pos 5)
      (pos 400)
      started_world
    ≡ ((asked.0.0, some asked.0.1), asked.1)
unfolding handle_management_message run_command claim_item command_of text_eq
asked_lem = refl

pub asked-Reaches : Reaches mouse empty_world asked.0.1 asked.1
asked-Reaches =
    requested started_handler asked.0.1 started_world asked.1 asked.0.0 claim_mouse (pos 5)
      (pos 400) (started first first_world (created true (codes "note_usb"))) asked_lem

Reaches-InOrder_example : InOrder mouse empty_world 7 asked.0.1 asked.1
Reaches-InOrder_example = Reaches-InOrder mouse empty_world 7 asked.0.1 asked.1 asked-Reaches

claim_device-Balanced_example : Balanced 7 scanned empty_world claimed claimed_world
claim_device-Balanced_example =
    claim_device-Balanced mouse 7 scanned claim_mouse (pos 5) (pos 400) empty_world

release_device-Balanced_example :
    let r = release_device mouse claimed release_mouse (pos 5) claimed_world in
    Balanced 7 claimed claimed_world r.0.1 r.1
release_device-Balanced_example =
    release_device-Balanced mouse 7 claimed release_mouse (pos 5) claimed_world
      claimed-Inv.claimed_unique

claim_device-ClaimOutcome_example :
    ClaimOutcome mouse scanned
      (pos 5)
      (pos 400)
      empty_world
      (claim_device mouse scanned claim_mouse (pos 5) (pos 400) empty_world)
claim_device-ClaimOutcome_example =
    claim_device-ClaimOutcome mouse scanned claim_mouse (pos 5) (pos 400) empty_world refl

Reaches-Recorded_example : Recorded mouse asked.0.1 asked.1
Reaches-Recorded_example =
    Reaches-Recorded mouse (λ h. refl) (omega arith) empty_world asked.0.1 asked.1 no_file
      asked-Reaches

discover_devices-lookup_example :
    lookup (codes "1:3") (discover_devices mouse first empty_world).0.available
    ≡ or_else (lookup (codes "1:3") first.available) (
        first_matching mouse
          (listed ∷ empty_world.history)
          (codes "1:3")
          (usable mouse first.ctx (mouse.device_list empty_world.history)))
discover_devices-lookup_example = discover_devices-lookup mouse first (codes "1:3") empty_world
