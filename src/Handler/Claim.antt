-- ===== src/Handler/Claim.antt =====
-- DeviceHandler::claim_device (src/device_handler.cpp).
use note_usb.Shared.{
  Bool, true, false, none, some, List, [], ◌∷◌, ◌++◌, Text, codes, ℤ, if◌then◌else◌, text_key,
}
use note_usb.Shared.Map.{lookup, modify, insert, has}
use note_usb.Protocol.{Field, Message, Code, Error, Response, scalar, message, text}
use note_usb.Platform.{
  Env, Device, Handle, Answer, ok, fail, Act, ◌>>=◌, ◌>>◌, pure, note, ask, query, listed, opened,
  closed, claimed_interface, detached_driver, registered_owner,
}
use note_usb.Registry.{add_device}
use note_usb.Usb.{find_usb_device}
use note_usb.Handler.{Handler, success, error_of, write_to_fd, send_error_response}

-- What the calls to libusb give: an open handle with its interface claimed, and whether a kernel
-- driver was detached.
pub data Acquired : Type 0 where
  taken : Handle → Bool → Acquired
  refused : Error → Acquired

abbrev pub devices_of : Answer (List Device) → List Device
devices_of (ok devs) = devs
devices_of (fail rc) = []

abbrev pub is_ok : {A : Type 0} → Answer A → Bool
is_ok (ok a) = true
is_ok (fail rc) = false

module _ (env : Env) where
  abbrev V : Type 0
  V = env.Value

  unfoldable pub detach_driver : Handle → ℤ → Act V Bool
  detach_driver x interface = do
    active ← query (λ h. env.driver_active h x interface)
    if active
        then (do
          r ← ask (λ h. env.detach_driver h x interface) (detached_driver x interface)
          pure (is_ok r))
        else pure false

  unfoldable pub take_interface : Text → Handle → ℤ → Act V Acquired
  unfolding detach_driver
  take_interface id x interface = do
    r ← ask (λ h. env.claim_interface h x interface) (claimed_interface x interface)
    elim r [
      | fail rc ↦ do
        note (closed x)
        pure (
            refused (
              error_of Code.permission_denied
                (codes "Cannot claim interface for " ++ (id ++ (codes ": " ++ env.error_name rc)))))
      | ok _ ↦ do detached ← detach_driver x interface; pure (taken x detached)
    ]

  unfoldable pub open_device : Text → Device → ℤ → Act V Acquired
  unfolding take_interface
  open_device id dev interface = do
    r ← ask (λ h. env.open_device h dev) (opened dev)
    elim r [
      | fail rc ↦ pure (
          refused (
            error_of Code.permission_denied
              (codes "Cannot open " ++ (id ++ (codes ": " ++ env.error_name rc)))))
      | ok x ↦ take_interface id x interface
    ]

  unfoldable pub acquire : Text → ℤ → Act V Acquired
  unfolding open_device find_usb_device
  acquire id interface = do
    answer ← ask env.device_list (λ _. listed)
    elim (find_usb_device env id (devices_of answer)) [
      | none ↦
          pure (refused (error_of Code.device_not_found (codes "USB device disappeared: " ++ id)))
      | some dev ↦ open_device id dev interface
    ]

  -- "Store state": the entry of `claimed_devices_`, and the shared descriptor, changed in place.
  unfoldable pub store_claim : Handler → Text → Handle → ℤ → Bool → ℤ → Handler
  unfolding insert modify
  store_claim h id x interface detached pid = record h {
    claimed =
        insert id
          (record {
            device_id = id;
            handle = some x;
            interface_number = interface;
            kernel_driver_attached = detached;
            capabilities = env.mode_mask;
            owner_pid = pid;
          })
          h.claimed;
    available =
        modify id
          (λ d. record d { handle = some x; kernel_driver_attached = detached; owner_pid = pid })
          h.available;
  }

  unfoldable pub claimed_response : Handler → Text → Response V
  claimed_response h id =
      (Field.event, message Message.item_claimed)
      ∷ (Field.device_id, scalar (text id))
      ∷ (Field.status, scalar (text (codes "claimed")))
      ∷ (Field.module_id, scalar (text h.module_name))
      ∷ []

  unfoldable pub register_owner : Handler → Text → Act V (Unit {0})
  register_owner h id =
      if h.has_ownership_registry then note (registered_owner id h.module_name) else pure tt

  unfoldable pub accept_claim : Handler → Text → Handle → ℤ → Bool → ℤ → ℤ → Act V (Error × Handler)
  unfolding store_claim claimed_response register_owner write_to_fd
  accept_claim h id x interface detached fd pid = do
    add_device env id interface detached
    register_owner h id
    write_to_fd env fd (claimed_response h id)
    pure (success, store_claim h id x interface detached pid)

  unfoldable pub refuse_claim : Handler → Text → Error → ℤ → Act V (Error × Handler)
  unfolding send_error_response
  refuse_claim h id e fd = do
    send_error_response env fd Message.item_claimed id e.code e.message
    pure (e, h)

  -- What follows the calls to libusb.
  unfoldable pub finish_claim : Handler → Text → ℤ → ℤ → ℤ → Acquired → Act V (Error × Handler)
  finish_claim h id interface fd pid (refused e) = refuse_claim h id e fd
  finish_claim h id interface fd pid (taken x detached) =
      accept_claim h id x interface detached fd pid

  -- The device is in `available_devices_`, with this interface number.
  unfoldable pub claim_available : Handler → Text → ℤ → ℤ → ℤ → Act V (Error × Handler)
  unfolding lookup
  claim_available h id interface fd pid =
      if has id h.claimed
      then refuse_claim h id
          (error_of Code.item_not_available (codes "Device already claimed: " ++ id)) fd
      else (do acquired ← acquire id interface; finish_claim h id interface fd pid acquired)

  -- The part behind `as_string()`.
  unfoldable pub claim_id : Handler → Text → ℤ → ℤ → Act V (Error × Handler)
  unfolding claim_available
  claim_id h id fd pid = elim (lookup id h.available) [
    | none ↦
        refuse_claim h id (error_of Code.device_not_found (codes "Device not found: " ++ id)) fd
    | some d ↦ claim_available h id d.interface_number fd pid
  ]

  unfoldable pub claim_device : Handler → env.Object → ℤ → ℤ → Act V (Error × Handler)
  unfolding claim_id
  claim_device h msg fd pid = elim (env.get msg Field.device_id) [
    | none ↦ refuse_claim h [] (error_of Code.invalid_message (codes "Missing DEVICE_ID")) fd
    | some v ↦ claim_id h (env.as_string v) fd pid
  ]
