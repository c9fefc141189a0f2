-- ===== src/Handler/Recovery/Methods.antt =====
-- DeviceHandler's methods (src/device_handler.cpp) and the crash-recovery file.
use note_usb.Shared.{
  ◌≡◌, refl, ◌∙◌, Bool, true, Option, none, some, List, [], ◌∷◌, ◌++◌, arith, Text, ℤ, text_eq,
  text_key, Bool-cases, Option-cases, inl, inr, codes,
}
use mathlib.Core.Option
use note_usb.Shared.Map.{Map, lookup, erase, has}
use note_usb.Shared.Map.Laws.{lookup-erase}
use note_usb.Protocol.{Code, Message, Field}
use note_usb.Platform.{Env, World, History, Handle, both_branches}
use note_usb.Registry.{remove_device, without}
use note_usb.Registry.Print.{ClaimedDevice}
use note_usb.Registry.Contents.{Holds, remove_device-Holds, remove_all-Holds}
use note_usb.Usb.{Descriptor}
use note_usb.Handler.{DeviceInfo, Handler, write_to_fd, send_error_response}
use note_usb.Handler.Claim.{
  Acquired, taken, refused, acquire, finish_claim, claim_available, claim_id, claim_device,
}
use note_usb.Handler.Release.{
  give_back, close_device, reattach_driver, forget_claim, unregister_owner, release_claimed,
  release_id, release_device, release_loop, release_entry, release_all_devices, freed,
}
use note_usb.Registry.Lookup.{find_entry, find_entry-without}
use note_usb.Handler.Recovery.{
  entry_of, Recorded, untouched, acquire_file, refuse_claim-Recorded, accept_claim-Recorded,
  Known-modify,
}

module _ (env : Env) (writable : (h : History env.Value) → env.can_write h ≡ true) where
  finish_claim-Recorded :
      (h : Handler) (id : Text) (d : Descriptor) (fd pid : ℤ) (a : Acquired) (w : World env.Value)
      → lookup id h.available ≡ some d
      → Recorded env h w
      → let r = finish_claim env h id d.interface_number fd pid a w in Recorded env r.0.1 r.1
  unfolding finish_claim
  finish_claim-Recorded h id d fd pid (refused e) w l v = refuse_claim-Recorded env h id e fd w v
  finish_claim-Recorded h id d fd pid (taken x detached) w l v =
      accept_claim-Recorded env h id d x detached fd pid w (writable w.history) l v

  claim_available-Recorded :
      (h : Handler) (id : Text) (d : Descriptor) (fd pid : ℤ) (w : World env.Value)
      → lookup id h.available ≡ some d
      → Recorded env h w
      → let r = claim_available env h id d.interface_number fd pid w in Recorded env r.0.1 r.1
  unfolding claim_available
  claim_available-Recorded h id d fd pid w l v =
      let m = acquire env id d.interface_number w in
      both_branches (λ r. Recorded env r.0.1 r.1) (has id h.claimed) _ _ w
        (refuse_claim-Recorded env h id _ fd w v)
        (finish_claim-Recorded h id d fd pid m.0 m.1 l
          (untouched env h h w m.1 (acquire_file env id d.interface_number w) refl v.known v))

  claim_id-Recorded :
      (h : Handler) (id : Text) (fd pid : ℤ) (w : World env.Value)
      → Recorded env h w
      → let r = claim_id env h id fd pid w in Recorded env r.0.1 r.1
  unfolding claim_id
  claim_id-Recorded h id fd pid w v = elim (Option-cases (lookup id h.available)) [
    | inl e ↦ rw (e, claim_id) (refuse_claim-Recorded env h id _ fd w v)
    | inr (d, e) ↦ rw (e, claim_id) (claim_available-Recorded h id d fd pid w e v)
  ]

  pub claim_device-Recorded :
      (h : Handler) (msg : env.Object) (fd pid : ℤ) (w : World env.Value)
      → Recorded env h w
      → let r = claim_device env h msg fd pid w in Recorded env r.0.1 r.1
  unfolding claim_device
  claim_device-Recorded h msg fd pid w v = elim (Option-cases (env.get msg Field.device_id)) [
    | inl e ↦ rw (e, claim_device) (refuse_claim-Recorded env h [] _ fd w v)
    | inr (i, e) ↦ rw (e, claim_device) (claim_id-Recorded h (env.as_string i) fd pid w v)
  ]

  give_back_file :
      (o : Option Handle) (interface : ℤ) (detached : Bool) (w : World env.Value)
      → (give_back env o interface detached w).1.file ≡ w.file
  unfolding give_back close_device reattach_driver
  give_back_file none interface detached w = refl
  give_back_file (some x) interface detached w = ground arith

  -- The file after a removal, as a map.
  removed_same :
      (ds : List ClaimedDevice) (m : Map Text DeviceInfo) (id j : Text)
      → find_entry j ds ≡ Option.map (entry_of env) (lookup j m)
      → find_entry j (without id ds) ≡ Option.map (entry_of env) (lookup j (erase id m))
  removed_same ds m id j s = elim (Bool-cases (text_eq id j)) [
    | inl e ↦ rw (find_entry-without id j ds, lookup-erase id j m, e) refl
    | inr e ↦ rw (find_entry-without id j ds, lookup-erase id j m, e) s
  ]

  release_claimed_file :
      (h : Handler) (id : Text) (i : DeviceInfo) (fd : ℤ) (w : World env.Value)
      → (release_claimed env h id i fd w).1.file
        ≡ (remove_device env id
            (give_back env i.handle i.interface_number i.kernel_driver_attached w).1).1.file
  unfolding release_claimed unregister_owner write_to_fd
  release_claimed_file h id i fd w = ground arith

  release_claimed-Recorded :
      (h : Handler) (id : Text) (i : DeviceInfo) (fd : ℤ) (w : World env.Value)
      → Recorded env h w
      → let r = release_claimed env h id i fd w in Recorded env r.0.1 r.1
  release_claimed-Recorded h id i fd w v =
      let w1 = (give_back env i.handle i.interface_number i.kernel_driver_attached w).1 in
      let u =
        untouched env h h w w1
          (give_back_file i.handle i.interface_number i.kernel_driver_attached w) refl v.known v in
      let b : Holds env (remove_device env id w1).1 (without id u.devices) =
        rw (writable w1.history) at ((remove_device-Holds env w1 u.devices id u.holds).1) in
      unfold release_claimed forget_claim in
      untouched env (record h { claimed = erase id h.claimed }) _ _
        (release_claimed env h id i fd w).1 (release_claimed_file h id i fd w) refl
        (λ j. Known-modify env id j freed h.available (λ d. refl) (v.known j))
        (record {
          devices = without id u.devices;
          holds = b;
          same = λ j. removed_same u.devices h.claimed id j (u.same j);
          known = v.known;
        })

  send_error_response_file :
      (fd : ℤ) (event : Message) (id : Text) (c : Code) (m : Text) (w : World env.Value)
      → (send_error_response env fd event id c m w).1.file ≡ w.file
  unfolding send_error_response write_to_fd
  send_error_response_file fd event id c m w = ground arith

  release_id-Recorded :
      (h : Handler) (id : Text) (fd : ℤ) (w : World env.Value)
      → Recorded env h w
      → let r = release_id env h id fd w in Recorded env r.0.1 r.1
  unfolding release_id
  release_id-Recorded h id fd w v = elim (Option-cases (lookup id h.claimed)) [
    | inl e ↦
        rw (e, release_id)
          (untouched env h h w
            (send_error_response env fd Message.item_released id Code.device_not_found
              (codes "Not claimed: " ++ id) w).1
            (send_error_response_file fd Message.item_released id Code.device_not_found
              (codes "Not claimed: " ++ id) w)
            refl v.known v)
    | inr (i, e) ↦ rw (e, release_id) (release_claimed-Recorded h id i fd w v)
  ]

  pub release_device-Recorded :
      (h : Handler) (msg : env.Object) (fd : ℤ) (w : World env.Value)
      → Recorded env h w
      → let r = release_device env h msg fd w in Recorded env r.0.1 r.1
  unfolding release_device
  release_device-Recorded h msg fd w v = elim (Option-cases (env.get msg Field.device_id)) [
    | inl e ↦ rw (e, release_device) v
    | inr (i, e) ↦ rw (e, release_device) (release_id-Recorded h (env.as_string i) fd w v)
  ]

  release_entry_file :
      (h : Handler) (id : Text) (o : Option Handle) (interface : ℤ) (detached : Bool)
      (w : World env.Value)
      → (release_entry env h id o interface detached w).1.file ≡ w.file
  unfolding release_entry close_device reattach_driver unregister_owner
  release_entry_file h id none interface detached w = refl
  release_entry_file h id (some x) interface detached w = ground arith

  release_loop_file :
      (h : Handler) (m : Map Text DeviceInfo) (w : World env.Value)
      → (release_loop env h m w).1.file ≡ w.file
  unfolding release_loop
  release_loop_file h [] w = refl
  release_loop_file h ((id, i) ∷ m) w =
      release_loop_file h m
        (release_entry env h id i.handle i.interface_number i.kernel_driver_attached w).1
      ∙ release_entry_file h id i.handle i.interface_number i.kernel_driver_attached w

  pub release_all_devices-Recorded :
      (h : Handler) (w : World env.Value)
      → Recorded env h w
      → let r = release_all_devices env h w in Recorded env r.0 r.1
  unfolding release_all_devices lookup find_entry
  release_all_devices-Recorded h w v =
      let w1 = (release_loop env h h.claimed w).1 in
      let u = untouched env h h w w1 (release_loop_file h h.claimed w) refl v.known v in
      record {
        devices = [];
        holds = rw (writable w1.history) at (remove_all-Holds env w1 u.devices u.holds);
        same = λ id. refl;
        known = λ id. tt;
      }
