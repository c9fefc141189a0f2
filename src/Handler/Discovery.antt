-- ===== src/Handler/Discovery.antt =====
-- What DeviceHandler's discovery (src/device_handler.cpp) finds, device by device.
use note_usb.Shared.{
  ◌≡◌, ◌∙◌, Bool, true, false, Option, none, some, List, [], ◌∷◌, Text, arith, text_eq, text_eq_iff,
  text_key, if◌then◌else◌, Bool-cases, Option-cases, inl, inr,
}
use note_usb.Shared.Map.{Map, lookup, insert}
use note_usb.Shared.Map.Laws.{lookup-insert}
use note_usb.Platform.{Env, World, History, Device, Answer, ok, fail, listed}
use note_usb.Usb.{Descriptor, is_hid_device, get_device_id, unclaimed}
use note_usb.Handler.{Handler, scan_devices, add_listed, discover_devices}

abbrev pub or_else : {A : Type 0} → Option A → Option A → Option A
or_else none o = o
or_else (some a) o = some a

module _ (env : Env) where
  -- A HID device whose descriptor can be read, under this id.
  abbrev pub matching : History env.Value → Text → Device → Option Descriptor
  matching hist id dev =
      if is_hid_device env hist dev
      then (elim (env.ids hist dev) [
        | none ↦ none
        | some ids ↦
            if text_eq (get_device_id env dev) id
            then some (unclaimed env (get_device_id env dev) ids)
            else none
      ])
      else none

  -- The first of them.
  unfoldable pub first_matching : History env.Value → Text → List Device → Option Descriptor
  first_matching hist id [] = none
  first_matching hist id (dev ∷ devs) = or_else (matching hist id dev) (first_matching hist id devs)

  scan_devices-lookup :
      (hist : History env.Value) (id : Text) (devs : List Device) (m : Map Text Descriptor)
      → lookup id (scan_devices env hist devs m)
        ≡ or_else (lookup id m) (first_matching hist id devs)
  unfolding scan_devices first_matching
  scan_devices-lookup hist id [] m = ground arith
  scan_devices-lookup hist id (dev ∷ devs) m = elim (Bool-cases (is_hid_device env hist dev)) [
    | inr e ↦ rw e (scan_devices-lookup hist id devs m)
    | inl e ↦ elim (Option-cases (env.ids hist dev)) [
      | inl f ↦ rw (e, f) (scan_devices-lookup hist id devs m)
      | inr (ids, f) ↦ elim (Option-cases (lookup (get_device_id env dev) m)) [
        | inr (d, g) ↦
            rw (e, f, g)
              (scan_devices-lookup hist id devs m
                ∙ ground (arith, g, text_eq_iff (get_device_id env dev) id))
        | inl g ↦
            rw (e, f, g)
              (scan_devices-lookup hist id devs
                  (insert (get_device_id env dev) (unclaimed env (get_device_id env dev) ids) m)
                ∙ rw
                    (lookup-insert (get_device_id env dev) id
                      (unclaimed env (get_device_id env dev) ids) m)
                    (ground (arith, g, text_eq_iff (get_device_id env dev) id)))
      ]
    ]
  ]

  -- The devices that a discovery looks at: none without a context, none where the list fails.
  abbrev pub usable : Bool → Answer (List Device) → List Device
  usable false answer = []
  usable true (ok devs) = devs
  usable true (fail rc) = []

  add_listed-lookup :
      (h : Handler) (hist : History env.Value) (answer : Answer (List Device)) (id : Text)
      → lookup id (add_listed env h hist answer).available
        ≡ or_else (lookup id h.available) (first_matching hist id (usable true answer))
  unfolding add_listed first_matching
  add_listed-lookup h hist (fail rc) id = ground arith
  add_listed-lookup h hist (ok devs) id = scan_devices-lookup hist id devs h.available

  -- After a discovery a device id has the descriptor that it had, or else the one of the first HID
  -- device of the list with this id whose descriptor can be read; without a libusb context, or where
  -- the list fails, nothing is new.
  pub discover_devices-lookup :
      (h : Handler) (id : Text) (w : World env.Value)
      → lookup id (discover_devices env h w).0.available
        ≡ or_else
            (lookup id h.available)
            (first_matching (listed ∷ w.history) id (usable h.ctx (env.device_list w.history)))
  unfolding discover_devices first_matching
  discover_devices-lookup h id w = elim (Bool-cases h.ctx) [
    | inl e ↦ simp e (add_listed-lookup h (listed ∷ w.history) (env.device_list w.history) id)
    | inr e ↦ simp e (ground arith)
  ]
