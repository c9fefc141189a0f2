-- ===== src/Protocol.antt =====
-- The messages of the two sockets. NoteBytes and NoteMessaging are libraries of NoteDaemon: an
-- object that arrives is opaque (see Platform), the constants of NoteMessaging are the
-- constructors below, and an object that the module builds is the list of its `add` calls.
pub mod Shape
use note_usb.Shared.{Bool, List, Text, ℤ}

-- The constants of `NoteMessaging::Keys` that the module uses, the strings "device_id" and so on
-- of `to_notebytes`, and the two constants of `ProtocolMessages` that serve as keys.
pub data Field : Type 0 where
  event cmd device_id module_id status error msg items item_info payload key : Field
  vendor_id product_id interface_number kernel_driver_attached processed_count : Field

-- `NoteMessaging::ProtocolMessages`
pub data Message : Type 0 where
  hello accept request_discovery claim_item release_item resume : Message
  enable_encryption disable_encryption encryption_ready shutdown error_event : Message
  item_list item_claimed item_released device_attached device_detached success_status : Message

-- `NoteMessaging::ErrorCodes`, and from `daemon_success` on `NoteDaemon::ErrorCodes`; `other` is a
-- code that a library chose.
pub data Code : Type 0 where
  invalid_message device_not_found item_not_available permission_denied not_owner : Code
  unknown : Code
  daemon_success daemon_unknown already_initialized not_initialized : Code
  module_health_check_failed module_incompatible_version : Code
  other : ℤ → Code

-- `NoteDaemon::Error`
pub record Error : Type 0 where
  pub code : Code
  pub message : Text

-- A value without parts.
pub data Scalar : Type 0 where
  text : Text → Scalar
  int : ℤ → Scalar
  bool : Bool → Scalar

-- `USBDeviceDescriptor::to_notebytes` builds these.
abbrev pub FlatObject : Type 0
FlatObject = List (Field × Scalar)

-- What one `add` call puts under its key. `echo` is a value taken from the client's message.
pub data Entry (V : Type 0) : Type 0 where
  scalar : Scalar → Entry V
  message : Message → Entry V
  code : Code → Entry V
  echo : V → Entry V
  objects : List FlatObject → Entry V
  object : FlatObject → Entry V
  bytes : List Text → Entry V

abbrev pub Response : Type 0 → Type 0
Response V = List (Field × Entry V)
