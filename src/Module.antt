-- ===== src/Module.antt =====
-- NoteUSBModule (src/module.cpp), as far as the management socket reaches it: the dispatch of a
-- request to DeviceHandler; and the bits of its capabilities.
pub mod Reachable
pub mod Hotplug
pub mod Life
use note_usb.Shared.{
  ◌+◌, ◌/◌, ◌%◌, ◌^◌, ◌==◌, ℕ, Bool, true, false, Option, none, some, ◌++◌, codes, ℤ, if◌then◌else◌,
}
use note_usb.Protocol.{Code, Error, Field, Message}
use note_usb.Platform.{Env, Act, ◌>>=◌, pure}
use note_usb.Handler.{Handler, success, error_of, send_device_list, start_discovery, stop_discovery}
use note_usb.Handler.Claim.{claim_device}
use note_usb.Handler.Release.{release_device, release_all_devices}

-- `caps |= (cpp_int(1) << n)`
abbrev pub with_bit : ℕ → ℕ → ℕ
with_bit n caps = if (caps / 2 ^ n) % 2 == 1 then caps else caps + 2 ^ n

unfoldable pub capabilities : ℕ
capabilities = with_bit 28 (
    with_bit 42 (
      with_bit 40
        (with_bit 11 (with_bit 9 (with_bit 8 (with_bit 32 (with_bit 33 (with_bit 34 0))))))))

module _ (env : Env) where
  abbrev V : Type 0
  V = env.Value

  -- CMD, and EVENT where that is missing.
  unfoldable pub command_of : env.Object → Option V
  command_of msg = elim (env.get msg Field.cmd) [ none ↦ env.get msg Field.event | some v ↦ some v ]

  unfoldable pub request_discovery : Option Handler → ℤ → Act V (Error × Option Handler)
  unfolding send_device_list
  request_discovery none fd = pure (success, none)
  request_discovery (some h) fd = do h' ← send_device_list env h fd; pure (success, some h')

  abbrev not_initialized : Error
  not_initialized = error_of Code.not_initialized (codes "Device handler not initialized")

  unfoldable pub claim_item : Option Handler → env.Object → ℤ → ℤ → Act V (Error × Option Handler)
  unfolding claim_device
  claim_item none msg fd pid = pure (not_initialized, none)
  claim_item (some h) msg fd pid = do r ← claim_device env h msg fd pid; pure (r.0, some r.1)

  unfoldable pub release_item : Option Handler → env.Object → ℤ → Act V (Error × Option Handler)
  unfolding release_device
  release_item none msg fd = pure (not_initialized, none)
  release_item (some h) msg fd = do r ← release_device env h msg fd; pure (r.0, some r.1)

  -- The comparisons of the command, in their order.
  unfoldable pub run_command :
      Option Handler → V → env.Object → ℤ → ℤ → Act V (Error × Option Handler)
  unfolding request_discovery claim_item release_item
  run_command handler cmd msg fd pid =
      if env.equals cmd Message.request_discovery
      then request_discovery handler fd
      else (if env.equals cmd Message.claim_item
          then claim_item handler msg fd pid
          else (if env.equals cmd Message.release_item
              then release_item handler msg fd
              else pure (
                error_of Code.daemon_unknown (codes "Unknown command: " ++ env.as_string cmd),
                handler,
              )))

  unfoldable pub handle_management_message :
      Option Handler → env.Object → ℤ → ℤ → Act V (Error × Option Handler)
  unfolding command_of run_command
  handle_management_message handler msg fd pid = elim (command_of msg) [
    | none ↦ pure (error_of Code.invalid_message (codes "Missing CMD or EVENT field"), handler)
    | some cmd ↦ run_command handler cmd msg fd pid
  ]
