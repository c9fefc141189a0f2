-- ===== src/Platform.antt =====
-- What the module calls and the repository does not hold: libusb, the kernel's files and sockets,
-- NoteBytes, the daemon's encryption provider. Each answer is a function of the calls that were
-- made before it, so nothing is assumed of how these parts behave; a theorem that needs a law of
-- theirs has it as a hypothesis.
-- The program's global state is a `World`: the calls made so far, newest first, the text of the
-- crash-recovery file, and the entries of the SessionManager singleton.
use note_usb.Protocol.{Field, Message, Error, Response}
use note_usb.Shared.{ℕ, ◌≡◌, refl, Bool, true, false, Option, List, ◌∷◌, Text, ℤ, if◌then◌else◌}
use note_usb.Shared.Map.{Map}

-- `libusb_device*` and `libusb_device_handle*`; a null pointer is `none`.
abbrev pub Device : Type 0
Device = ℕ

abbrev pub Handle : Type 0
Handle = ℕ

-- What a call gives back, or its negative libusb code.
pub data Answer (A : Type 0) : Type 0 where
  ok : A → Answer A
  fail : ℤ → Answer A

-- How `::write` of a packet ends: `errno` is EAGAIN or EWOULDBLOCK, or something else.
pub data Delivery : Type 0 where
  delivered : Delivery
  would_block : Delivery
  undelivered : Delivery

-- `libusb_device_descriptor`, as far as it is read.
pub record UsbIds : Type 0 where
  pub vendor : ℕ
  pub product : ℕ

-- One `libusb_interface`: the class of each alternate setting.
abbrev pub UsbInterface : Type 0
UsbInterface = List ℕ

-- The calls that matter to a property, with what they answered.
pub data Event (V : Type 0) : Type 0 where
  listed : Event V
  opened : Device → Answer Handle → Event V
  closed : Handle → Event V
  claimed_interface : Handle → ℤ → Answer (Unit {0}) → Event V
  released_interface : Handle → ℤ → Event V
  detached_driver : Handle → ℤ → Answer (Unit {0}) → Event V
  attached_driver : Handle → ℤ → Answer (Unit {0}) → Event V
  initialised_usb : Bool → Event V
  exited_usb : Event V
  registered_owner : Text → Text → Event V
  unregistered_owner : Text → Event V
  wrote_file : Bool → Event V
  wrote : ℤ → Response V → Event V
  broadcast : ℤ → Response V → Bool → Event V
  streamed : ℤ → Text → Delivery → Event V
  accepted_report : Text → Event V
  allocated_transfer : Bool → Event V
  submitted_transfer : Answer (Unit {0}) → Event V
  cancelled_transfer : Event V
  freed_transfer : Event V
  probed : Bool → Event V
  spawned_session : ℤ → Event V
  spawned_monitor : ℤ → Event V
  registered_handler : Message → Event V
  started_encryption : Text → Text → Event V
  ended_encryption : Text → Event V

abbrev pub History : Type 0 → Type 0
History V = List (Event V)

-- `SessionEntry`; the pointer to the session is its address.
pub record SessionEntry : Type 0 where
  pub client_pid : ℤ
  pub management_fd : ℤ
  pub is_active : Bool
  pub session : Option ℕ

pub record World (V : Type 0) : Type 0 where
  pub history : History V
  pub file : Option Text
  pub sessions : Map ℤ SessionEntry

pub record Env : Type 1 where
  -- NoteBytes. `get_string` is empty where the field is missing; `is_byte_array` is the test of
  -- the type for ARRAY or INTEGER_ARRAY; `read_from` reads the element at an offset of `data()` and
  -- moves the offset, or throws.
  pub Value : Type 0
  pub Object : Type 0
  pub get : Object → Field → Option Value
  pub as_string : Value → Text
  pub is_empty_string : Value → Bool
  pub equals : Value → Message → Bool
  pub get_string : Object → Field → Text
  pub is_byte_array : Value → Bool
  pub data_size : Value → ℕ
  pub metadata_size : ℕ
  pub read_from : Value → ℕ → Option (Value × ℕ)
  pub as_byte : Value → ℕ
  -- `Error::failed` and `libusb_error_name`
  pub failed : Error → Bool
  pub error_name : ℤ → Text
  -- libusb; `hid_class` is its constant `LIBUSB_CLASS_HID`
  pub init_ok : History Value → Bool
  pub device_list : History Value → Answer (List Device)
  pub hid_class : ℕ
  pub bus_number : Device → ℕ
  pub address : Device → ℕ
  pub ids : History Value → Device → Option UsbIds
  pub config : History Value → Device → Option (List UsbInterface)
  pub open_device : History Value → Device → Answer Handle
  pub claim_interface : History Value → Handle → ℤ → Answer (Unit {0})
  pub driver_active : History Value → Handle → ℤ → Bool
  pub detach_driver : History Value → Handle → ℤ → Answer (Unit {0})
  pub attach_driver : History Value → Handle → ℤ → Answer (Unit {0})
  -- the encryption provider
  pub init_encryption : History Value → Text → Text → Error
  pub encrypt : History Value → Text → Text → Option Text
  pub decrypt : History Value → Text → Text → Option Text
  -- `poll` gives a negative result
  pub poll_fails : History Value → ℤ → Bool
  -- `std::ofstream f(path)` succeeds; `::write` on a descriptor succeeds; `getpid()`
  pub can_write : History Value → Bool
  pub write_ok : History Value → ℤ → Bool
  pub self_pid : ℤ
  -- `serialize_with_header()` of NoteBytes, and `::write` of a packet
  pub serialize : Response Value → Text
  pub write_packet : History Value → ℤ → Delivery
  -- `libusb_alloc_transfer` and `new (std::nothrow)` succeed; `libusb_submit_transfer`
  pub alloc_transfer : History Value → Bool
  pub alloc_buffer : History Value → Bool
  pub submit_transfer : History Value → Answer (Unit {0})
  -- `fork()` of the parent
  pub fork : History Value → ℤ
  -- `Capabilities::Masks::mode_mask()`
  pub mode_mask : ℕ

-- A function that calls out: it gets the world and returns it changed.
abbrev pub Act : Type 0 → Type 0 → Type 0
Act V A = World V → A × World V

infixl 5 ◌>>=◌ ◌>>◌
abbrev pub ◌>>=◌ : {V A B : Type 0} → Act V A → (A → Act V B) → Act V B
◌>>=◌ m f w = let (a, w') = m w in f a w'

abbrev pub ◌>>◌ : {V B : Type 0} → Act V (Unit {0}) → Act V B → Act V B
m >> k = m >>= λ _. k

abbrev pub pure : {V A : Type 0} → A → Act V A
pure a w = (a, w)

-- A call of which only the fact is kept.
abbrev pub note : {V : Type 0} → Event V → Act V (Unit {0})
note e w = (tt, record w { history = e ∷ w.history })

abbrev pub ask : {V A : Type 0} → (History V → A) → (A → Event V) → Act V A
ask f e w = let a = f w.history in (a, record w { history = e a ∷ w.history })

-- A question that changes nothing.
abbrev pub query : {V A : Type 0} → (History V → A) → Act V A
query f w = (f w.history, w)

-- What holds after both branches of a test holds after the test.
pub both_branches :
    {V A : Type 0} (P : A × World V → Type 0) (b : Bool) (f g : Act V A) (w : World V)
    → P (f w)
    → P (g w)
    → P ((if b then f else g) w)
both_branches P true f g w p q = p
both_branches P false f g w p q = q

-- The same, with what the test says.
pub each_branch :
    {V A : Type 0} (P : A × World V → Type 0) (b : Bool) (f g : Act V A) (w : World V)
    → ((b ≡ true) → P (f w))
    → ((b ≡ false) → P (g w))
    → P ((if b then f else g) w)
each_branch P true f g w p q = p refl
each_branch P false f g w p q = q refl
