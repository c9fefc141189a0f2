-- ===== src/Module/Hotplug.antt =====
-- NoteUSBModule's hotplug callbacks, their notifications, and the health check (src/module.cpp).
pub mod Delivery
pub mod Arriving
pub mod Registration
use note_usb.Shared.{
  Bool, true, false, not, Option, none, some, List, [], ◌∷◌, Text, codes, text_eq, if◌then◌else◌,
}
use note_usb.Protocol.{Code, Error, Field, Message, Response, message, scalar, object, text}
use note_usb.Platform.{
  Env, Device, Act, ◌>>=◌, ◌>>◌, pure, note, ask, query, initialised_usb, exited_usb,
}
use note_usb.Usb.{Descriptor, to_notebytes, get_device_id, build_device_descriptor}
use note_usb.Manager.{broadcast_to_all}
use note_usb.Handler.{success, error_of}

-- `libusb_hotplug_event`
pub data HotplugEvent : Type 0 where
  arrived : HotplugEvent
  left : HotplugEvent

module _ (env : Env) where
  abbrev V : Type 0
  V = env.Value

  unfoldable pub attached_notice : Text → Descriptor → Response V
  unfolding to_notebytes
  attached_notice id d =
      (Field.event, message Message.device_attached)
      ∷ (Field.device_id, scalar (text id))
      ∷ (Field.item_info, object (to_notebytes d))
      ∷ []

  unfoldable pub send_device_attached : Text → Descriptor → Act V (Unit {0})
  unfolding attached_notice broadcast_to_all
  send_device_attached id d = broadcast_to_all env (attached_notice id d)

  unfoldable pub detached_notice : Text → Response V
  detached_notice id =
      (Field.event, message Message.device_detached) ∷ (Field.device_id, scalar (text id)) ∷ []

  unfoldable pub send_device_detached : Text → Act V (Unit {0})
  unfolding detached_notice broadcast_to_all
  send_device_detached id = broadcast_to_all env (detached_notice id)

  -- The part behind `build_device_descriptor`.
  unfoldable pub announce : Text → Option Descriptor → Act V (Unit {0})
  unfolding send_device_attached
  announce id none = pure tt
  announce id (some d) = send_device_attached id d

  unfoldable pub hotplug_callback_attached : Device → HotplugEvent → Act V (Unit {0})
  unfolding announce get_device_id build_device_descriptor
  hotplug_callback_attached dev arrived = do
    let id = get_device_id env dev
    built ← query (λ h. build_device_descriptor env h dev id)
    announce id built
  hotplug_callback_attached dev left = pure tt

  unfoldable pub hotplug_callback_detached : Device → HotplugEvent → Act V (Unit {0})
  unfolding send_device_detached get_device_id
  hotplug_callback_detached dev arrived = pure tt
  hotplug_callback_detached dev left = send_device_detached (get_device_id env dev)

  -- `core_api_version.substr(0, 2) != "1."`
  abbrev is_compatible : Text → Bool
  is_compatible (a ∷ b ∷ rest) = text_eq (a ∷ b ∷ []) (codes "1.")
  is_compatible short = false

  unfoldable pub check_health : Text → Act V Error
  check_health version =
      if is_compatible version
      then (do
        started ← ask env.init_ok initialised_usb
        if started
            then (note exited_usb >> pure success)
            else pure
                (error_of Code.module_health_check_failed (codes "Failed to initialize libusb")))
      else pure (error_of Code.module_incompatible_version (codes "Incompatible core API version"))
