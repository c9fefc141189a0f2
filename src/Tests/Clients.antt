-- ===== src/Tests/Clients.antt =====
-- Runs of a session and of the SessionManager.
use note_usb.Shared.{
  Bool, arith, ◌+◌, ◌≡◌, refl, true, false, some, [], ◌∷◌, Text, codes, pos, int_key, ◌⊎◌,
}
use note_usb.Protocol.{Field, Message, Response, message}
use note_usb.Platform.{Env, World}
use note_usb.Handler.Handles.{Net}
use note_usb.Manager.{register_session}
use note_usb.Session.{Session, claim_device, discover_devices}
use note_usb.Session.Messages.{handle_message}
use note_usb.Session.Replies.{IsOpen, OnceIfReturned}
use note_usb.Session.Replies.Messages.{handle_message-OnceIfReturned}
use note_usb.Session.Handles.{
  ClaimLedger, session_holds, claim_device-ClaimLedger, discover_devices_ledger,
}
use note_usb.Session.Cipher.{read_key}
use note_usb.Session.Key.Messages.{Terminates, handle_message-Terminates}
use note_usb.Session.Key.{Ends, Advances, read_key-Ends}
use note_usb.Tests.{mouse, fields, Fields, empty_world}

-- A session that holds the handle 6.
abbrev pub client : Session
client = record {
  client_fd = pos 4;
  client_pid = pos 400;
  running = true;
  stop_requested = false;
  device = some (record {
    device_id = codes "1:2";
    vendor_id = 1133;
    product_id = 9;
    interface_number = pos 0;
    kernel_driver_attached = true;
    handle = some 6;
    owner_pid = pos 400;
  });
  device_id = codes "1:2";
  encryption_enabled = false;
  encryption_key = [];
}

client-IsOpen : IsOpen mouse (pos 4)
client-IsOpen = record { valid = refl; polls = λ h. refl }

abbrev claim_mouse : Fields
claim_mouse = fields (codes "claim") (codes "1:3")

handle_message-OnceIfReturned_example :
    OnceIfReturned (pos 4) empty_world (handle_message mouse client claim_mouse empty_world)
handle_message-OnceIfReturned_example =
    handle_message-OnceIfReturned mouse (pos 4) client-IsOpen empty_world client claim_mouse refl

claim_device-ClaimLedger_example :
    ClaimLedger 7 client empty_world (claim_device mouse client (codes "1:3") empty_world)
claim_device-ClaimLedger_example = claim_device-ClaimLedger mouse 7 client (codes "1:3") empty_world

discover_devices_ledger_example :
    let r = discover_devices mouse client empty_world in
    Net 6 empty_world r.1 0 0 × ((r.0.1.device ≡ client.device) ⊎ (session_holds 6 r.0.1 ≡ 0))
discover_devices_ledger_example = discover_devices_ledger mouse 6 client empty_world

abbrev registered : World Text
registered = (register_session mouse (pos 400) (pos 4) (some 1) empty_world).1

abbrev notice : Response Text
notice = (Field.event, message Message.device_attached) ∷ []

-- NoteBytes with elements of six bytes.
abbrev pub keyed : Env
keyed = record mouse { read_from = λ v k. some (v, k + 6) }

pub keyed-Advances : (v : Text) → Advances keyed v
keyed-Advances v offset next e h = grind (arith, h)

read_key-Ends_example : Ends keyed (read_key keyed 12 (codes "abcdefghijkl") 0 [])
read_key-Ends_example =
    read_key-Ends keyed 12 (codes "abcdefghijkl") 0 [] (keyed-Advances (codes "abcdefghijkl"))
      (omega arith)

unfoldable is_enable : Message → Bool
is_enable Message.enable_encryption = true
is_enable other = false

-- Every event asks for encryption, with a key of two elements.
abbrev asking : Env
asking = record keyed { equals = λ v m. is_enable m }

abbrev key_message : Fields
key_message f = some (codes "abcdefghijkl")

handle_message-Terminates_example :
    Terminates (handle_message asking client key_message empty_world)
handle_message-Terminates_example =
    handle_message-Terminates asking keyed-Advances client key_message empty_world
