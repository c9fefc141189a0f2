-- ===== src/Tests.antt =====
-- Concrete answers of the libraries, with one device, and runs of the code with them.
pub mod Devices
pub mod Files
pub mod Clients
pub mod Reports
pub mod Streams
pub mod Lives
pub mod Modules
pub mod Monitors
pub mod Threads
pub mod Ciphers
pub mod Locks
use note_usb.Shared.{
  ℕ, Bool, true, false, Option, none, some, List, [], ◌∷◌, Text, codes, text_eq, is_empty, length,
  pos, negsuc,
}
use mathlib.Core.Option
use note_usb.Protocol.{Field, Message, Code, Error}
use note_usb.Platform.{Env, World, ok, fail, delivered}

abbrev pub command_text : Message → Text
command_text Message.request_discovery = codes "discover"
command_text Message.claim_item = codes "claim"
command_text Message.release_item = codes "release"
command_text Message.resume = codes "resume"
command_text _ = codes "other"

abbrev pub is_failure : Code → Bool
is_failure Code.daemon_success = false
is_failure _ = true

abbrev pub Fields : Type 0
Fields = Field → Option Text

-- One mouse at bus 1, address 3, with a kernel driver; every call succeeds.
abbrev pub mouse : Env
mouse = record {
  Value = Text;
  Object = Fields;
  get = λ msg f. msg f;
  as_string = λ v. v;
  is_empty_string = is_empty;
  equals = λ v m. text_eq v (command_text m);
  get_string = λ msg f. Option.get_or (msg f) [];
  is_byte_array = λ v. true;
  data_size = λ v. length v;
  metadata_size = 5;
  read_from = λ v k. none;
  as_byte = λ v. 0;
  failed = λ e. is_failure e.code;
  error_name = λ rc. codes "LIBUSB_ERROR";
  init_ok = λ h. true;
  device_list = λ h. ok (3 ∷ []);
  hid_class = 3;
  bus_number = λ d. 1;
  address = λ d. d;
  ids = λ h d. some (record { vendor = 1133; product = 9 });
  config = λ h d. some ((3 ∷ []) ∷ []);
  open_device = λ h d. ok 7;
  claim_interface = λ h x i. ok tt;
  driver_active = λ h x i. true;
  detach_driver = λ h x i. ok tt;
  attach_driver = λ h x i. ok tt;
  init_encryption = λ h id k. record { code = Code.daemon_success; message = [] };
  encrypt = λ h id t. some t;
  decrypt = λ h id t. some t;
  poll_fails = λ h fd. false;
  can_write = λ h. true;
  write_ok = λ h fd. false;
  self_pid = pos 99;
  serialize = λ msg. codes "packet";
  write_packet = λ h fd. delivered;
  alloc_transfer = λ h. true;
  alloc_buffer = λ h. true;
  submit_transfer = λ h. ok tt;
  fork = λ h. pos 77;
  mode_mask = 1;
}

abbrev pub fields : Text → Text → Fields
fields cmd id Field.cmd = some cmd
fields cmd id Field.event = some cmd
fields cmd id Field.device_id = some id
fields cmd id _ = none

abbrev pub empty_world : World Text
empty_world = record { history = []; file = none; sessions = [] }
