-- ===== src/Handler/Release.antt =====
-- DeviceHandler::release_device, release_all_devices and the destructor (src/device_handler.cpp).
use note_usb.Shared.{
  Bool, false, Option, none, some, [], ◌∷◌, ◌++◌, Text, codes, ℤ, pos, if◌then◌else◌, text_key,
}
use note_usb.Shared.Map.{Map, lookup, modify, erase}
use note_usb.Protocol.{Field, Message, Code, Error, Response, scalar, message, text}
use note_usb.Platform.{
  Env, Handle, Act, ◌>>=◌, ◌>>◌, pure, note, ask, closed, released_interface, attached_driver,
  exited_usb, unregistered_owner,
}
use note_usb.Registry.{remove_device, remove_all}
use note_usb.Usb.{Descriptor}
use note_usb.Handler.{DeviceInfo, Handler, success, error_of, write_to_fd, send_error_response}

-- The descriptor of a device that was released.
abbrev pub freed : Descriptor → Descriptor
freed d = record d { handle = none; kernel_driver_attached = false; owner_pid = pos 0 }

module _ (env : Env) where
  abbrev V : Type 0
  V = env.Value

  unfoldable pub reattach_driver : Handle → ℤ → Bool → Act V (Unit {0})
  reattach_driver x interface detached =
      if detached
      then (ask (λ h. env.attach_driver h x interface) (attached_driver x interface) >>= λ _.
          pure tt)
      else pure tt

  unfoldable pub close_device : Handle → ℤ → Bool → Act V (Unit {0})
  unfolding reattach_driver
  close_device x interface detached = do
    note (released_interface x interface)
    reattach_driver x interface detached
    note (closed x)

  unfoldable pub unregister_owner : Handler → Text → Act V (Unit {0})
  unregister_owner h id = if h.has_ownership_registry then note (unregistered_owner id) else pure tt

  -- `if (info.handle) { … }`
  unfoldable pub give_back : Option Handle → ℤ → Bool → Act V (Unit {0})
  unfolding close_device
  give_back none interface detached = pure tt
  give_back (some x) interface detached = close_device x interface detached

  unfoldable pub released_response : Text → Response V
  released_response id =
      (Field.event, message Message.item_released)
      ∷ (Field.device_id, scalar (text id))
      ∷ (Field.status, message Message.success_status)
      ∷ []

  unfoldable pub forget_claim : Handler → Text → Handler
  unfolding erase modify
  forget_claim h id = record h {
    claimed = erase id h.claimed;
    available = modify id freed h.available;
  }

  unfoldable pub release_claimed : Handler → Text → DeviceInfo → ℤ → Act V (Error × Handler)
  unfolding forget_claim unregister_owner released_response write_to_fd
  release_claimed h id info fd = do
    give_back info.handle info.interface_number info.kernel_driver_attached
    found ← remove_device env id
    unregister_owner h id
    write_to_fd env fd (released_response id)
    pure (success, forget_claim h id)

  unfoldable pub release_id : Handler → Text → ℤ → Act V (Error × Handler)
  unfolding send_error_response
  release_id h id fd = elim (lookup id h.claimed) [
    | none ↦
        let e = error_of Code.device_not_found (codes "Not claimed: " ++ id) in
        (do send_error_response env fd Message.item_released id e.code e.message; pure (e, h))
    | some info ↦ release_claimed h id info fd
  ]

  unfoldable pub release_device : Handler → env.Object → ℤ → Act V (Error × Handler)
  unfolding release_id
  release_device h msg fd = elim (env.get msg Field.device_id) [
    | none ↦ pure (error_of Code.invalid_message (codes "Missing DEVICE_ID"), h)
    | some v ↦ release_id h (env.as_string v) fd
  ]

  -- One round of the loop of `release_all_devices`.
  unfoldable pub release_entry : Handler → Text → Option Handle → ℤ → Bool → Act V (Unit {0})
  unfolding unregister_owner
  release_entry h id none interface detached = pure tt
  release_entry h id (some x) interface detached = do
    close_device x interface detached
    unregister_owner h id

  unfoldable pub release_loop : Handler → Map Text DeviceInfo → Act V (Unit {0})
  release_loop h [] = pure tt
  release_loop h ((id, info) ∷ rest) = do
    release_entry h id info.handle info.interface_number info.kernel_driver_attached
    release_loop h rest

  unfoldable pub release_all_devices : Handler → Act V Handler
  unfolding release_loop release_entry
  release_all_devices h = do
    release_loop h h.claimed
    remove_all env
    pure (record h { claimed = []; available = [] })

  -- The destructor.
  unfoldable pub destroy_handler : Handler → Act V Handler
  unfolding release_all_devices
  destroy_handler h = do
    h' ← release_all_devices h
    if h'.ctx then (note exited_usb >> pure (record h' { ctx = false })) else pure h'
