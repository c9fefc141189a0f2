-- ===== src/Handler/Recovery.antt =====
-- The crash-recovery file against `claimed_devices_`: DeviceHandler with DeviceRegistry
-- (src/device_handler.cpp).
pub mod Methods
pub mod Discovery
use note_usb.Shared.{
  ◌≡◌, refl, sym, ap, ◌∙◌, Bool, true, false, Option, none, some, List, [], ◌∷◌, ◌++◌, arith, Text,
  ℤ, text_eq, text_eq_iff, text_key, if◌then◌else◌, Bool-cases, Option-cases, inl, inr, pos, codes,
  InInt32,
}
use mathlib.Core.Option
use mathlib.Core.Path.{subst}
use note_usb.Shared.Map.{Map, lookup, insert, modify, erase, has}
use note_usb.Shared.Map.Laws.{lookup-insert, lookup-modify, lookup-erase}
use note_usb.Protocol.{Error, Response}
use note_usb.Platform.{
  Env, World, History, Device, UsbIds, Act, Answer, ok, fail, SessionEntry, Handle, both_branches,
}
use note_usb.Registry.{
  add_device, remove_device, remove_all, get_all_devices, read_registry, without,
}
use note_usb.Registry.Print.{ClaimedDevice}
use note_usb.Registry.RoundTrip.{IsPlain}
use note_usb.Registry.Contents.{
  Holds, entry, add_device-Holds, remove_device-Holds, remove_all-Holds,
}
use note_usb.Registry.Lookup.{
  find_entry, find_entry-without, find_entry-append, find_entry-append_other,
}
use note_usb.Usb.{Descriptor, is_hid_device, get_device_id, unclaimed}
use note_usb.Usb.Ids.{id_text-IsPlain}
use note_usb.Handler.{
  DeviceInfo, Handler, new_handler, write_to_fd, send_error_response, scan_devices, add_listed,
  discover_devices, send_device_list,
}
use note_usb.Handler.Claim.{
  Acquired, taken, refused, acquire, store_claim, accept_claim, register_owner, refuse_claim,
  finish_claim, claim_available, claim_id, claim_device, claimed_response,
}
use note_usb.Handler.Release.{
  give_back, forget_claim, unregister_owner, release_claimed, release_id, release_device,
  release_loop, release_entry, release_all_devices, freed,
}

module _ (env : Env) where
  -- What the file says of a claimed device.
  abbrev pub entry_of : DeviceInfo → ClaimedDevice
  entry_of i = entry env i.device_id i.interface_number i.kernel_driver_attached

  -- A known device can be written to the file.
  abbrev pub Known : Text → Option Descriptor → Type 0
  Known id none = Unit
  Known id (some d) = (driver : Bool) → IsPlain (entry env id d.interface_number driver)

  -- The file, read as a map, is `claimed_devices_`.
  pub record Recorded (h : Handler) (w : World env.Value) : Type 0 where
    pub devices : List ClaimedDevice
    pub holds : Holds env w devices
    pub same : (id : Text) → find_entry id devices ≡ Option.map entry_of (lookup id h.claimed)
    pub known : (id : Text) → Known id (lookup id h.available)

  -- The file is not touched, nor is the table of claimed devices.
  pub untouched :
      (h h' : Handler) (w w' : World env.Value)
      → w'.file ≡ w.file
      → h'.claimed ≡ h.claimed
      → ((id : Text) → Known id (lookup id h'.available))
      → Recorded h w
      → Recorded h' w'
  unfolding get_all_devices read_registry
  untouched h h' w w' f c k v = record {
    devices = v.devices;
    holds = record { reads = rw f v.holds.reads; plain = v.holds.plain };
    same = rw c v.same;
    known = k;
  }

  refuse_claim_file :
      (h : Handler) (id : Text) (e : Error) (fd : ℤ) (w : World env.Value)
      → (refuse_claim env h id e fd w).1.file ≡ w.file
  unfolding refuse_claim send_error_response write_to_fd
  refuse_claim_file h id e fd w = ground arith

  pub acquire_file :
      (id : Text) (interface : ℤ) (w : World env.Value)
      → (acquire env id interface w).1.file ≡ w.file
  unfolding acquire
  acquire_file id interface w = ground arith

  pub refuse_claim-Recorded :
      (h : Handler) (id : Text) (e : Error) (fd : ℤ) (w : World env.Value)
      → Recorded h w
      → let r = refuse_claim env h id e fd w in Recorded r.0.1 r.1
  refuse_claim-Recorded h id e fd w v =
      unfold refuse_claim in
      untouched h h w (refuse_claim env h id e fd w).1 (refuse_claim_file h id e fd w) refl v.known
        v

  -- Changes of a descriptor that keep its interface.
  Known-map :
      (id : Text) (f : Descriptor → Descriptor) (o : Option Descriptor)
      → ((d : Descriptor) → (f d).interface_number ≡ d.interface_number)
      → Known id o
      → Known id (Option.map f o)
  Known-map id f none k p = tt
  Known-map id f (some d) k p = λ driver. rw (k d) (p driver)

  pub Known-modify :
      (id j : Text) (f : Descriptor → Descriptor) (m : Map Text Descriptor)
      → ((d : Descriptor) → (f d).interface_number ≡ d.interface_number)
      → Known j (lookup j m)
      → Known j (lookup j (modify id f m))
  Known-modify id j f m k p =
      rw (lookup-modify id j f m) (if_known _ _ (text_eq id j) (Known-map j f (lookup j m) k p) p)
    where
      if_known :
          (o o' : Option Descriptor) (b : Bool)
          → Known j o
          → Known j o'
          → Known j (if b then o else o')
      if_known o o' true p q = p
      if_known o o' false p q = q

  -- The file after an addition, as a map.
  added_same :
      (ds : List ClaimedDevice) (m : Map Text DeviceInfo) (id j : Text) (i : DeviceInfo)
      → i.device_id ≡ id
      → find_entry j ds ≡ Option.map entry_of (lookup j m)
      → find_entry j (without id ds ++ entry_of i ∷ [])
        ≡ Option.map entry_of (lookup j (insert id i m))
  added_same ds m id j i n s = elim (Bool-cases (text_eq id j)) [
    | inl e ↦
        rw
          (
            find_entry-append j (without id ds) (entry_of i)
                (find_entry-without id j ds ∙ rw e refl),
            lookup-insert id j i m,
            n,
            e,
          )
          refl
    | inr e ↦
        rw
          (
            find_entry-append_other j (without id ds) (entry_of i) (rw n e),
            find_entry-without id j ds,
            lookup-insert id j i m,
            e,
          )
          s
  ]

  accept_claim_file :
      (h : Handler) (id : Text) (x : Handle) (interface : ℤ) (detached : Bool) (fd pid : ℤ)
      (w : World env.Value)
      → (accept_claim env h id x interface detached fd pid w).1.file
        ≡ (add_device env id interface detached w).1.file
  unfolding accept_claim register_owner write_to_fd
  accept_claim_file h id x interface detached fd pid w = ground arith

  pub accept_claim-Recorded :
      (h : Handler) (id : Text) (d : Descriptor) (x : Handle) (detached : Bool) (fd pid : ℤ)
      (w : World env.Value)
      → env.can_write w.history ≡ true
      → lookup id h.available ≡ some d
      → Recorded h w
      → let r = accept_claim env h id x d.interface_number detached fd pid w in Recorded r.0.1 r.1
  accept_claim-Recorded h id d x detached fd pid w c e v =
      let i : DeviceInfo = record {
        device_id = id;
        handle = some x;
        interface_number = d.interface_number;
        kernel_driver_attached = detached;
        capabilities = env.mode_mask;
        owner_pid = pid;
      } in
      let a =
        add_device-Holds env w v.devices id d.interface_number detached v.holds
          (subst (Known id) e (v.known id) detached) in
      let b : Holds env (add_device env id d.interface_number detached w).1
          (without id v.devices ++ entry_of i ∷ []) =
        rw c at a in
      let w' = (accept_claim env h id x d.interface_number detached fd pid w).1 in
      unfold accept_claim store_claim in
      untouched (record h { claimed = insert id i h.claimed }) _ _ w'
        (accept_claim_file h id x d.interface_number detached fd pid w) refl
        (λ j. Known-modify id j _ h.available (λ d. refl) (v.known j))
        (record {
          devices = without id v.devices ++ entry_of i ∷ [];
          holds = b;
          same = λ j. added_same v.devices h.claimed id j i refl (v.same j);
          known = v.known;
        })
