-- ===== src/Handler/Invariant.antt =====
-- The agreement of DeviceHandler's two tables (src/device_handler.cpp): a device is claimed exactly
-- when its descriptor holds a handle, and then both entries name the same handle, driver state,
-- interface and owner.
pub mod Methods
use note_usb.Shared.{
  ℕ, ◌≡◌, refl, sym, ap, ◌∙◌, ◌≢◌, Bool, true, false, Option, none, some, List, [], ◌∷◌, arith,
  Text, text_eq, text_eq_iff, text_key, ℤ, pos, if◌then◌else◌, inl, inr, Bool-cases, Option-cases,
}
use note_usb.Shared.Map.{Map, lookup, has, insert}
use note_usb.Shared.Map.Laws.{
  Unique, lookup-insert, lookup-modify, lookup-erase, insert-Unique, modify-Unique, erase-Unique,
}
use mathlib.Core.Option
use note_usb.Protocol.{Error, Field, Code}
use note_usb.Platform.{Env, World, History, Device, Handle, UsbIds}
use note_usb.Usb.{Descriptor, get_device_id, is_hid_device, unclaimed}
use note_usb.Handler.{
  DeviceInfo, Handler, new_handler, scan_devices, discover_devices, start_discovery, stop_discovery,
  send_device_list,
}
use note_usb.Handler.Claim.{
  Acquired, taken, refused, acquire, store_claim, accept_claim, refuse_claim, finish_claim,
  claim_available, claim_id, claim_device,
}
use note_usb.Handler.Release.{
  freed, forget_claim, release_claimed, release_id, release_device, release_all_devices,
}

-- What the two tables say of one id.
pub data Agrees (id : Text) : Option Descriptor → Option DeviceInfo → Type 0 where
  unknown : Agrees id none none
  free :
      (d : Descriptor)
      → d.handle ≡ none
      → d.kernel_driver_attached ≡ false
      → Agrees id (some d) none
  owned :
      (d : Descriptor) (i : DeviceInfo) (x : Handle)
      → i.device_id ≡ id
      → i.handle ≡ some x
      → d.handle ≡ i.handle
      → d.kernel_driver_attached ≡ i.kernel_driver_attached
      → d.owner_pid ≡ i.owner_pid
      → d.interface_number ≡ i.interface_number
      → Agrees id (some d) (some i)

pub record Inv (h : Handler) : Type 0 where
  pub available_unique : Unique h.available
  pub claimed_unique : Unique h.claimed
  pub agrees : (id : Text) → Agrees id (lookup id h.available) (lookup id h.claimed)

module _ (env : Env) where
  store_claim-Agrees :
      (h : Handler) (id : Text) (d : Descriptor) (x : Handle) (detached : Bool) (pid : ℤ) (j : Text)
      → lookup id h.available ≡ some d
      → Agrees j (lookup j h.available) (lookup j h.claimed)
      → let h' = store_claim env h id x d.interface_number detached pid in
        Agrees j (lookup j h'.available) (lookup j h'.claimed)
  unfolding store_claim
  store_claim-Agrees h id d x detached pid j e a = elim (Bool-cases (text_eq id j)) [
    | inl same ↦
        let is_j = (text_eq_iff id j).0 same in
        rw (lookup-insert, lookup-modify, same, sym (ap (λ k. lookup k h.available) is_j) ∙ e)
          (owned _ _ x is_j refl refl refl refl refl)
    | inr other ↦ rw (lookup-insert, lookup-modify, other) a
  ]

  pub store_claim-Inv :
      (h : Handler) (id : Text) (d : Descriptor) (x : Handle) (detached : Bool) (pid : ℤ)
      → lookup id h.available ≡ some d
      → Inv h
      → Inv (store_claim env h id x d.interface_number detached pid)
  store_claim-Inv h id d x detached pid e v = record {
    available_unique = unfold store_claim in modify-Unique id _ h.available v.available_unique;
    claimed_unique = unfold store_claim in insert-Unique id _ h.claimed v.claimed_unique;
    agrees = λ j. store_claim-Agrees h id d x detached pid j e (v.agrees j);
  }

  forget_claim-Agrees :
      (h : Handler) (id j : Text)
      → Agrees j (lookup j h.available) (lookup j h.claimed)
      → let h' = forget_claim env h id in Agrees j (lookup j h'.available) (lookup j h'.claimed)
  unfolding forget_claim
  forget_claim-Agrees h id j a = elim (Bool-cases (text_eq id j)) [
    | inl same ↦ rw (lookup-erase, lookup-modify, same) (cleared _ _ a)
    | inr other ↦ rw (lookup-erase, lookup-modify, other) a
  ]
    where
      cleared :
          (o : Option Descriptor) (i : Option DeviceInfo)
          → Agrees j o i
          → Agrees j (Option.map freed o) none
      cleared none i a = unknown
      cleared (some d) i a = free _ refl refl

  pub forget_claim-Inv : (h : Handler) (id : Text) → Inv h → Inv (forget_claim env h id)
  forget_claim-Inv h id v = record {
    available_unique = unfold forget_claim in modify-Unique id _ h.available v.available_unique;
    claimed_unique = unfold forget_claim in erase-Unique id h.claimed v.claimed_unique;
    agrees = λ j. forget_claim-Agrees h id j (v.agrees j);
  }

  -- Discovery adds free devices, and only under new ids.
  add_free-Inv :
      (h : Handler) (id : Text) (ids : UsbIds)
      → lookup id h.available ≡ none
      → Inv h
      → Inv (record h { available = insert id (unclaimed env id ids) h.available })
  add_free-Inv h id ids e v = record {
    available_unique = insert-Unique id _ h.available v.available_unique;
    claimed_unique = v.claimed_unique;
    agrees = λ j. added j;
  }
    where
      fresh :
          (j : Text) (o : Option DeviceInfo)
          → Agrees j none o
          → Agrees j (some (unclaimed env id ids)) o
      fresh j none a = free _ refl refl
      fresh j (some i) a = elim a [ ]

      added :
          (j : Text)
          → Agrees j (lookup j (insert id (unclaimed env id ids) h.available)) (lookup j h.claimed)
      added j = elim (Bool-cases (text_eq id j)) [
        | inl same ↦
            let here : lookup j h.available ≡ none =
              sym (ap (λ k. lookup k h.available) ((text_eq_iff id j).0 same)) ∙ e in
            rw (lookup-insert, same) (fresh j _ (rw here at (v.agrees j)))
        | inr other ↦ rw (lookup-insert, other) (v.agrees j)
      ]

  pub scan_devices-Inv :
      (hist : History env.Value) (devs : List Device) (h : Handler)
      → Inv h
      → Inv (record h { available = scan_devices env hist devs h.available })
  unfolding scan_devices
  scan_devices-Inv hist [] h v = v
  scan_devices-Inv hist (dev ∷ devs) h v = elim (Bool-cases (is_hid_device env hist dev)) [
    | inr e ↦ rw e (scan_devices-Inv hist devs h v)
    | inl e ↦ elim (Option-cases (env.ids hist dev)) [
      | inl f ↦ rw (e, f) (scan_devices-Inv hist devs h v)
      | inr (ids, f) ↦ elim (Option-cases (lookup (get_device_id env dev) h.available)) [
        | inr (d, g) ↦ rw (e, f, g) (scan_devices-Inv hist devs h v)
        | inl g ↦
            rw (e, f, g)
              (scan_devices-Inv hist devs _ (add_free-Inv h (get_device_id env dev) ids g v))
      ]
    ]
  ]
