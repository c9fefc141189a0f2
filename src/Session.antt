-- ===== src/Session.antt =====
-- NoteUSBSession (include/note_usb/note_usb_session.h, src/note_usb_session.cpp): one client's
-- device socket. Here are the state, what it sends, and its device operations; the handlers of
-- messages are in Messages. Log lines are left out.
pub mod Cipher
pub mod Messages
pub mod Handles
pub mod Replies
pub mod Lifecycle
pub mod Key
pub mod Live
pub mod Keeps
pub mod Thread
use note_usb.Shared.{
  ℕ, Bool, true, false, not, Option, none, some, List, [], ◌∷◌, ◌++◌, Text, codes, is_empty, ℤ, pos,
  int_eq, is_negative, if◌then◌else◌,
}
use note_usb.Protocol.{
  Field, Message, Code, Error, Entry, Response, scalar, message, code, echo, text,
}
use note_usb.Platform.{
  Env, World, History, Device, Handle, Answer, ok, fail, Act, ◌>>=◌, ◌>>◌, pure, note, ask, query,
  listed, opened, closed, claimed_interface, wrote,
}
use note_usb.Usb.{
  Descriptor, is_hid_device, get_device_id, build_device_descriptor, find_usb_device,
}
use note_usb.Handler.{success, error_of}
use note_usb.Handler.Claim.{devices_of, detach_driver}
use note_usb.Handler.Release.{close_device}

pub record Session : Type 0 where
  pub client_fd : ℤ
  pub client_pid : ℤ
  pub running : Bool
  pub stop_requested : Bool
  pub device : Option Descriptor
  pub device_id : Text
  pub encryption_enabled : Bool
  pub encryption_key : Text

-- How a method ends: it returns, throws, reads through a null pointer, or never ends.
pub data Ran (A : Type 0) : Type 0 where
  returned : A → Ran A
  threw : Ran A
  crashed : Ran A
  hung : Ran A

-- `device_ && device_->handle`, with the two values.
unfoldable pub held_device : Option Descriptor → Option (Descriptor × Handle)
held_device none = none
held_device (some d) = elim d.handle [ none ↦ none | some x ↦ some (d, x) ]

module _ (env : Env) where
  abbrev V : Type 0
  V = env.Value

  -- A socket without room is written to all the same.
  unfoldable pub send_response : Session → Response V → Act V (Unit {0})
  send_response s msg = if is_negative s.client_fd then pure tt else (do
    failed ← query (λ h. env.poll_fails h s.client_fd)
    if failed then pure tt else note (wrote s.client_fd msg))

  unfoldable pub error_message : Entry V → Text → Code → Text → Response V
  error_message event id c m =
      (Field.event, event)
      ∷ (Field.error, code c)
      ∷ (Field.msg, scalar (text m))
      ∷ (Field.device_id, scalar (text id))
      ∷ []

  unfoldable pub send_error : Session → Entry V → Text → Code → Text → Act V (Unit {0})
  unfolding send_response error_message
  send_error s event id c m = send_response s (error_message event id c m)

  -- One HID device of the loop of `discover_devices`: `none` if it cannot be opened, else what
  -- `device_` is set to.
  unfoldable pub probe : Device → Act V (Option (Option Descriptor))
  unfolding build_device_descriptor get_device_id
  probe dev = do
    r ← ask (λ h. env.open_device h dev) (opened dev)
    elim r [
      | fail rc ↦ pure none
      | ok x ↦ do
        built ← query (λ h. build_device_descriptor env h dev (get_device_id env dev))
        note (closed x)
        pure (some built)
    ]

  -- A descriptor ends the loop; one that could not be built leaves null behind and goes on.
  unfoldable pub scan_next :
      (Option Descriptor → Act V (Option Descriptor))
      → Option Descriptor
      → Option (Option Descriptor)
      → Act V (Option Descriptor)
  scan_next rest device none = rest device
  scan_next rest device (some none) = rest none
  scan_next rest device (some (some d)) = pure (some d)

  -- The loop, over the value of `device_`.
  unfoldable pub scan : List Device → Option Descriptor → Act V (Option Descriptor)
  unfolding is_hid_device scan_next probe
  scan [] device = pure device
  scan (dev ∷ devs) device = do
    hid ← query (λ h. is_hid_device env h dev)
    tried ← if hid then probe dev else pure none
    scan_next (scan devs) device tried

  -- The test of `device_` behind the loop.
  unfoldable pub discovered : Session → Option Descriptor → Error × Session
  discovered s none =
      (error_of Code.device_not_found (codes "No HID devices found"), record s { device = none })
  discovered s (some d) = (success, record s { device = some d })

  -- What follows the call of `libusb_get_device_list`.
  unfoldable pub scan_listed : Session → Answer (List Device) → Act V (Error × Session)
  unfolding scan discovered
  scan_listed s (fail rc) =
      pure (error_of Code.unknown (codes "Failed to get device list: " ++ env.error_name rc), s)
  scan_listed s (ok devs) = do device ← scan devs s.device; pure (discovered s device)

  unfoldable pub discover_devices : Session → Act V (Error × Session)
  unfolding scan_listed
  discover_devices s = do answer ← ask env.device_list (λ _. listed); scan_listed s answer

  -- The end of `claim_device`: the descriptor is built anew, and written to without a test.
  unfoldable pub adopt : Session → Handle → Bool → Option Descriptor → Ran (Error × Session)
  adopt s x detached none = crashed
  adopt s x detached (some d) = returned (
    success,
    record s {
      device = some (record d {
        handle = some x;
        kernel_driver_attached = detached;
        owner_pid = s.client_pid;
      });
    },
  )

  -- What follows the call of `libusb_claim_interface`.
  unfoldable pub claim_taken :
      Session → Text → Device → Handle → Answer (Unit {0}) → Act V (Ran (Error × Session))
  unfolding adopt detach_driver build_device_descriptor
  claim_taken s id dev x (fail rc) = do
    note (closed x)
    pure (
        returned (
          error_of Code.permission_denied (
              codes "Cannot claim interface: "
              ++ (id ++ (codes " (" ++ (env.error_name rc ++ codes ")")))),
          s,
        ))
  claim_taken s id dev x (ok _) = do
    detached ← detach_driver env x (pos 0)
    built ← query (λ h. build_device_descriptor env h dev id)
    pure (adopt s x detached built)

  -- What follows the call of `libusb_open`.
  unfoldable pub claim_opened :
      Session → Text → Device → Answer Handle → Act V (Ran (Error × Session))
  unfolding claim_taken
  claim_opened s id dev (fail rc) = pure (
      returned (
        error_of Code.permission_denied (
            codes "Cannot open device: "
            ++ (id ++ (codes " (" ++ (env.error_name rc ++ codes ")")))),
        s,
      ))
  claim_opened s id dev (ok x) = do
    r ← ask (λ h. env.claim_interface h x (pos 0)) (claimed_interface x (pos 0))
    claim_taken s id dev x r

  -- What follows the search in the device list.
  unfoldable pub claim_found : Session → Text → Option Device → Act V (Ran (Error × Session))
  unfolding claim_opened
  claim_found s id none =
      pure (returned (error_of Code.device_not_found (codes "Device not found: " ++ id), s))
  claim_found s id (some dev) = do
    r ← ask (λ h. env.open_device h dev) (opened dev)
    claim_opened s id dev r

  unfoldable pub claim_device : Session → Text → Act V (Ran (Error × Session))
  unfolding claim_found find_usb_device
  claim_device s id = do
    answer ← ask env.device_list (λ _. listed)
    claim_found s id (find_usb_device env id (devices_of answer))

  -- The part of `release_device` behind its first test.
  unfoldable pub release_held : Session → Descriptor → Handle → Act V (Error × Session)
  unfolding close_device
  release_held s d x =
      if int_eq d.owner_pid s.client_pid
      then (do
        close_device env x (pos 0) d.kernel_driver_attached
        pure (
          success,
          record s { device = some (record d { handle = none; kernel_driver_attached = false }) },
        ))
      else pure (error_of Code.not_owner (codes "Not owner of device: " ++ d.device_id), s)

  unfoldable pub release_device : Session → Act V (Error × Session)
  unfolding release_held held_device
  release_device s = elim (held_device s.device) [
    | none ↦ pure (success, s)
    | some (d, x) ↦ release_held s d x
  ]
