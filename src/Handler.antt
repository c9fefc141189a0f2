-- ===== src/Handler.antt =====
-- DeviceHandler (include/note_usb/device_handler.h, src/device_handler.cpp): discovery, claim and
-- release on behalf of the management socket. A method gets the handler's fields and returns them
-- changed; what it calls goes to the world. Log lines are left out.
pub mod Owners
pub mod Typed
pub mod Claim
pub mod Release
pub mod Handles
pub mod Invariant
pub mod Replies
pub mod Recovery
pub mod Discovery
use note_usb.Shared.{
  Bool, true, false, not, Option, none, some, List, [], ◌∷◌, ◌++◌, Text, codes, is_empty, text_key,
  ℤ, pos, negsuc, is_negative, if◌then◌else◌, ℕ,
}
use note_usb.Shared.Map.{Map, lookup, modify, erase, insert, has}
use note_usb.Protocol.{
  Field, Message, Code, Error, Entry, Response, FlatObject, scalar, message, code, objects, text,
}
use note_usb.Platform.{
  Env, World, Event, History, Device, Handle, UsbIds, Answer, ok, fail, Act, ◌>>=◌, ◌>>◌, pure,
  note, ask, query, listed, opened, closed, claimed_interface, released_interface, detached_driver,
  attached_driver, initialised_usb, exited_usb, registered_owner, unregistered_owner, wrote,
}
use note_usb.Registry
use note_usb.Usb.{
  Descriptor, to_notebytes, is_hid_device, get_device_id, unclaimed, find_usb_device,
}
use note_usb.Manager.{broadcast_to_all}

-- `DeviceHandler::DeviceInfo`
pub record DeviceInfo : Type 0 where
  pub device_id : Text
  pub handle : Option Handle
  pub interface_number : ℤ
  pub kernel_driver_attached : Bool
  pub capabilities : ℕ
  pub owner_pid : ℤ

-- `ctx` and `has_ownership_registry`: the pointer is not null.
pub record Handler : Type 0 where
  pub ctx : Bool
  pub running : Bool
  pub has_ownership_registry : Bool
  pub module_name : Text
  pub available : Map Text Descriptor
  pub claimed : Map Text DeviceInfo

abbrev pub success : Error
success = record { code = Code.daemon_success; message = [] }

abbrev pub error_of : Code → Text → Error
error_of c m = record { code = c; message = m }

module _ (env : Env) where
  abbrev V : Type 0
  V = env.Value

  unfoldable pub write_to_fd : ℤ → Response V → Act V (Unit {0})
  write_to_fd fd msg = if is_negative fd then pure tt else note (wrote fd msg)

  unfoldable pub error_response : Message → Text → Code → Text → Response V
  error_response event id c m =
      (Field.event, message event)
      ∷ (Field.error, code c)
      ∷ (Field.msg, scalar (text m))
      ∷ (if is_empty id then [] else (Field.device_id, scalar (text id)) ∷ [])

  unfoldable pub send_error_response : ℤ → Message → Text → Code → Text → Act V (Unit {0})
  unfolding write_to_fd error_response
  send_error_response fd event id c m = write_to_fd fd (error_response event id c m)

  -- The constructor.
  unfoldable pub new_handler : Bool → Text → Act V Handler
  new_handler has_registry name = do
    started ← ask env.init_ok initialised_usb
    pure (record {
      ctx = started;
      running = false;
      has_ownership_registry = has_registry;
      module_name = name;
      available = [];
      claimed = [];
    })

  -- The loop of `discover_devices`. It calls nothing that the history records.
  unfoldable pub scan_devices : History V → List Device → Map Text Descriptor → Map Text Descriptor
  unfolding is_hid_device get_device_id insert lookup
  scan_devices h [] available = available
  scan_devices h (dev ∷ devs) available = scan_devices h devs (
      if is_hid_device env h dev
      then (elim (env.ids h dev) [
        | none ↦ available
        | some ids ↦
            let id = get_device_id env dev in
            if has id available then available else insert id (unclaimed env id ids) available
      ])
      else available)

  -- What `libusb_get_device_list` answered; nothing is added where it failed.
  unfoldable pub add_listed : Handler → History V → Answer (List Device) → Handler
  unfolding scan_devices
  add_listed h history (fail rc) = h
  add_listed h history (ok devs) = record h { available = scan_devices history devs h.available }

  unfoldable pub discover_devices : Handler → Act V Handler
  unfolding add_listed
  discover_devices h =
      if h.ctx
      then (do
        answer ← ask env.device_list (λ _. listed)
        history ← query (λ x. x)
        pure (add_listed h history answer))
      else pure h

  unfoldable pub start_discovery : Handler → Act V Handler
  unfolding discover_devices
  start_discovery h = if h.running then pure h else discover_devices (record h { running = true })

  unfoldable pub stop_discovery : Handler → Act V Handler
  stop_discovery h = pure (record h { running = false })

  unfoldable pub item_list : Map Text Descriptor → List FlatObject
  item_list [] = []
  item_list ((id, d) ∷ rest) = to_notebytes d ∷ item_list rest

  unfoldable pub list_response : Handler → Response V
  unfolding item_list
  list_response h =
      (Field.event, Entry.message Message.item_list)
      ∷ (Field.items, objects (item_list h.available))
      ∷ []

  unfoldable pub send_device_list : Handler → ℤ → Act V Handler
  unfolding discover_devices list_response write_to_fd broadcast_to_all
  send_device_list h fd = do
    h' ← discover_devices h
    if is_negative fd
        then broadcast_to_all env (list_response h')
        else write_to_fd fd (list_response h')
    pure h'

  unfoldable pub find_device_by_id : Handler → Text → Option Descriptor
  unfolding lookup
  find_device_by_id h id = lookup id h.available
