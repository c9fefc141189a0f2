-- ===== src/Usb.antt =====
-- The device helpers that DeviceHandler, NoteUSBSession and NoteUSBModule share:
-- USBDeviceDescriptor (include/note_usb/device_handler.h), is_hid_device, get_device_id and
-- build_device_descriptor (src/note_usb_session.cpp; the same code stands in
-- src/device_handler.cpp and src/module.cpp).
pub mod Ids
use note_usb.Shared.{
  ℕ, Bool, true, false, ◌||◌, Option, none, some, List, [], ◌∷◌, ◌++◌, Text, text_eq, ℤ, pos, ◌==◌,
  if◌then◌else◌,
}
use note_usb.Protocol.{
  Field, FlatObject, text, int, bool, device_id, vendor_id, product_id, interface_number,
  kernel_driver_attached,
}
use note_usb.Platform.{Env, Device, Handle, History, UsbInterface, UsbIds}
use note_usb.Registry.Print.{to_string}

pub record Descriptor : Type 0 where
  pub device_id : Text
  pub vendor_id : ℕ
  pub product_id : ℕ
  pub interface_number : ℤ
  pub kernel_driver_attached : Bool
  pub handle : Option Handle
  pub owner_pid : ℤ

-- `USBDeviceDescriptor::to_notebytes`
unfoldable pub to_notebytes : Descriptor → FlatObject
to_notebytes d =
    (Field.device_id, text d.device_id)
    ∷ (Field.vendor_id, int (pos d.vendor_id))
    ∷ (Field.product_id, int (pos d.product_id))
    ∷ (Field.interface_number, int d.interface_number)
    ∷ (Field.kernel_driver_attached, bool d.kernel_driver_attached)
    ∷ []

-- `iface.num_altsetting > 0 && iface.altsetting[0].bInterfaceClass == LIBUSB_CLASS_HID`
abbrev pub is_hid_interface : ℕ → UsbInterface → Bool
is_hid_interface hid [] = false
is_hid_interface hid (c ∷ settings) = c == hid

-- The loop over the interfaces, which ends at the first match.
unfoldable pub any_hid : ℕ → List UsbInterface → Bool
any_hid hid [] = false
any_hid hid (i ∷ interfaces) = is_hid_interface hid i || any_hid hid interfaces

-- `std::to_string(bus) + ":" + std::to_string(address)`
unfoldable pub id_text : ℕ → ℕ → Text
unfolding to_string
id_text bus address = to_string (pos bus) ++ b':' ∷ to_string (pos address)

module _ (env : Env) where
  unfoldable pub is_hid_device : History env.Value → Device → Bool
  unfolding any_hid
  is_hid_device h dev = elim (env.config h dev) [
    | none ↦ false
    | some interfaces ↦ any_hid env.hid_class interfaces
  ]

  unfoldable pub get_device_id : Device → Text
  unfolding id_text
  get_device_id dev = id_text (env.bus_number dev) (env.address dev)

  -- The descriptor that is made for a device that nobody has claimed.
  abbrev pub unclaimed : Text → UsbIds → Descriptor
  unclaimed id ids = record {
    device_id = id;
    vendor_id = ids.vendor;
    product_id = ids.product;
    interface_number = pos 0;
    kernel_driver_attached = false;
    handle = none;
    owner_pid = pos 0;
  }

  unfoldable pub build_device_descriptor : History env.Value → Device → Text → Option Descriptor
  build_device_descriptor h dev id = elim (env.ids h dev) [
    | none ↦ none
    | some ids ↦ some (unclaimed id ids)
  ]

  -- The loop that looks a device up by its id; the first match ends it.
  unfoldable pub find_usb_device : Text → List Device → Option Device
  unfolding get_device_id
  find_usb_device id [] = none
  find_usb_device id (dev ∷ devs) =
      if text_eq (get_device_id dev) id then some dev else find_usb_device id devs
