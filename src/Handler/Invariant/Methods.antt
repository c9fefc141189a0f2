-- ===== src/Handler/Invariant/Methods.antt =====
-- The methods of DeviceHandler (src/device_handler.cpp) and the invariant of its two tables.
use note_usb.Shared.{◌≡◌, Bool, some, List, Text, text_key, ℤ, inl, inr, Option-cases}
use note_usb.Shared.Map.{lookup}
use note_usb.Protocol.{Field}
use note_usb.Platform.{Env, World, History, Device, Answer, ok, fail, both_branches}
use note_usb.Usb.{Descriptor}
use note_usb.Handler.{
  Handler, new_handler, add_listed, discover_devices, stop_discovery, send_device_list,
}
use note_usb.Handler.Claim.{
  Acquired, taken, refused, acquire, accept_claim, refuse_claim, finish_claim, claim_available,
  claim_id, claim_device,
}
use note_usb.Handler.Release.{release_claimed, release_id, release_device, release_all_devices}
use note_usb.Handler.Invariant.{unknown, Inv, scan_devices-Inv, store_claim-Inv, forget_claim-Inv}

module _ (env : Env) where
  pub new_handler-Inv :
      (registry : Bool) (name : Text) (w : World env.Value)
      → Inv (new_handler env registry name w).0
  unfolding new_handler lookup
  new_handler-Inv registry name w = record {
    available_unique = tt;
    claimed_unique = tt;
    agrees = λ id. unknown;
  }

  add_listed-Inv :
      (h : Handler) (history : History env.Value) (answer : Answer (List Device))
      → Inv h
      → Inv (add_listed env h history answer)
  add_listed-Inv h history (fail rc) v = unfold add_listed in v
  add_listed-Inv h history (ok devs) v = unfold add_listed in scan_devices-Inv env history devs h v

  -- If `Inv` holds of the handler, it holds after a discovery: a device that is known keeps its
  -- descriptor, so a claimed one keeps its handle.
  pub discover_devices-Inv :
      (h : Handler) (w : World env.Value) → Inv h → Inv (discover_devices env h w).0
  unfolding discover_devices
  discover_devices-Inv h w v =
      both_branches (λ r. Inv r.0) h.ctx _ _ w (add_listed-Inv h _ (env.device_list w.history) v) v

  pub stop_discovery-Inv :
      (h : Handler) (w : World env.Value) → Inv h → Inv (stop_discovery env h w).0
  unfolding stop_discovery
  stop_discovery-Inv h w v = record {
    available_unique = v.available_unique;
    claimed_unique = v.claimed_unique;
    agrees = v.agrees;
  }

  finish_claim-Inv :
      (h : Handler) (id : Text) (d : Descriptor) (fd pid : ℤ) (a : Acquired) (w : World env.Value)
      → lookup id h.available ≡ some d
      → Inv h
      → Inv (finish_claim env h id d.interface_number fd pid a w).0.1
  unfolding finish_claim
  finish_claim-Inv h id d fd pid (refused e) w f v = unfold refuse_claim in v
  finish_claim-Inv h id d fd pid (taken x detached) w f v =
      unfold accept_claim in store_claim-Inv env h id d x detached pid f v

  claim_available-Inv :
      (h : Handler) (id : Text) (d : Descriptor) (fd pid : ℤ) (w : World env.Value)
      → lookup id h.available ≡ some d
      → Inv h
      → Inv (claim_available env h id d.interface_number fd pid w).0.1
  claim_available-Inv h id d fd pid w f v = elim (Option-cases (lookup id h.claimed)) [
    | inr (i, e) ↦ unfold claim_available refuse_claim in rw (e, claim_available) v
    | inl e ↦
        let m = acquire env id d.interface_number w in
        unfold claim_available in
        rw (e, claim_available) (finish_claim-Inv h id d fd pid m.0 m.1 f v)
  ]

  claim_id-Inv :
      (h : Handler) (id : Text) (fd pid : ℤ) (w : World env.Value)
      → Inv h
      → Inv (claim_id env h id fd pid w).0.1
  claim_id-Inv h id fd pid w v = elim (Option-cases (lookup id h.available)) [
    | inl e ↦ unfold claim_id refuse_claim in rw (e, claim_id) v
    | inr (d, e) ↦ unfold claim_id in rw (e, claim_id) (claim_available-Inv h id d fd pid w e v)
  ]

  -- If `Inv` holds of the handler, it holds after a claim, granted or refused: no id is in a table
  -- twice, and an id is claimed exactly if its descriptor holds a handle, the same one, with the
  -- same driver state, interface and owner.
  pub claim_device-Inv :
      (h : Handler) (msg : env.Object) (fd pid : ℤ) (w : World env.Value)
      → Inv h
      → Inv (claim_device env h msg fd pid w).0.1
  claim_device-Inv h msg fd pid w v = elim (Option-cases (env.get msg Field.device_id)) [
    | inl e ↦ unfold claim_device refuse_claim in rw (e, claim_device) v
    | inr (m, e) ↦
        unfold claim_device in rw (e, claim_device) (claim_id-Inv h (env.as_string m) fd pid w v)
  ]

  release_id-Inv :
      (h : Handler) (id : Text) (fd : ℤ) (w : World env.Value)
      → Inv h
      → Inv (release_id env h id fd w).0.1
  release_id-Inv h id fd w v = elim (Option-cases (lookup id h.claimed)) [
    | inl e ↦ unfold release_id in rw (e, release_id) v
    | inr (i, e) ↦
        unfold release_id release_claimed in rw (e, release_id) (forget_claim-Inv env h id v)
  ]

  -- If `Inv` holds of the handler, it holds after a release: the freed descriptor has no handle
  -- and its claim is gone.
  pub release_device-Inv :
      (h : Handler) (msg : env.Object) (fd : ℤ) (w : World env.Value)
      → Inv h
      → Inv (release_device env h msg fd w).0.1
  release_device-Inv h msg fd w v = elim (Option-cases (env.get msg Field.device_id)) [
    | inl e ↦ unfold release_device in rw (e, release_device) v
    | inr (m, e) ↦
        unfold release_device in rw (e, release_device) (release_id-Inv h (env.as_string m) fd w v)
  ]

  pub release_all_devices-Inv :
      (h : Handler) (w : World env.Value) → Inv (release_all_devices env h w).0
  unfolding release_all_devices lookup
  release_all_devices-Inv h w = record {
    available_unique = tt;
    claimed_unique = tt;
    agrees = λ id. unknown;
  }

  pub send_device_list-Inv :
      (h : Handler) (fd : ℤ) (w : World env.Value) → Inv h → Inv (send_device_list env h fd w).0
  unfolding send_device_list
  send_device_list-Inv h fd w v = discover_devices-Inv h w v
