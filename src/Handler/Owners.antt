-- ===== src/Handler/Owners.antt =====
-- DeviceHandler (src/device_handler.cpp) as a table of locks: which client owns which device.
use note_usb.Shared.{
  ◌≡◌, ◌≢◌, refl, Bool, Option, none, some, arith, Text, text_eq, text_key, ℤ, if◌then◌else◌, inl,
  inr, Option-cases,
}
use note_usb.Shared.Map.{lookup}
use note_usb.Shared.Map.Laws.{lookup-insert, lookup-erase}
use mathlib.Core.Option
use note_usb.Protocol.{Field}
use note_usb.Platform.{Env, World, Handle}
use note_usb.Usb.{Descriptor}
use note_usb.Handler.{DeviceInfo, Handler, discover_devices, add_listed, send_device_list}
use note_usb.Handler.Claim.{
  Acquired, taken, refused, store_claim, accept_claim, refuse_claim, finish_claim, claim_available,
  claim_id, claim_device,
}
use note_usb.Handler.Release.{forget_claim, release_claimed, release_id, release_device}

abbrev pub owner_of : Text → Handler → Option ℤ
owner_of id h = Option.map (λ (i : DeviceInfo). i.owner_pid) (lookup id h.claimed)

-- A table of locks, and what a request of the client `pid` may do to it: nothing; a known device that
-- nobody owns becomes the client's; or one that somebody owns becomes free.
pub data OwnerStep (pid : ℤ) (h h' : Handler) : Type 0 where
  kept : ((j : Text) → owner_of j h' ≡ owner_of j h) → OwnerStep pid h h'
  acquired :
      (id : Text)
      → lookup id h.available ≢ none
      → owner_of id h ≡ none
      → ((j : Text) → owner_of j h' ≡ (if text_eq id j then some pid else owner_of j h))
      → OwnerStep pid h h'
  freed :
      (id : Text)
      → owner_of id h ≢ none
      → ((j : Text) → owner_of j h' ≡ (if text_eq id j then none else owner_of j h))
      → OwnerStep pid h h'

module _ (env : Env) where
  store_claim-owner_of :
      (h : Handler) (id : Text) (x : Handle) (interface : ℤ) (detached : Bool) (pid : ℤ) (j : Text)
      → owner_of j (store_claim env h id x interface detached pid)
        ≡ (if text_eq id j then some pid else owner_of j h)
  unfolding store_claim
  store_claim-owner_of h id x interface detached pid j = ground (
    arith,
    lookup-insert id j
        (record {
          device_id = id;
          handle = some x;
          interface_number = interface;
          kernel_driver_attached = detached;
          capabilities = env.mode_mask;
          owner_pid = pid;
        })
        h.claimed,
  )

  pub forget_claim-owner_of :
      (h : Handler) (id j : Text)
      → owner_of j (forget_claim env h id) ≡ (if text_eq id j then none else owner_of j h)
  unfolding forget_claim
  forget_claim-owner_of h id j = ground (arith, lookup-erase id j h.claimed)

  finish_claim-OwnerStep :
      (h : Handler) (id : Text) (d : Descriptor) (fd pid : ℤ) (a : Acquired) (w : World env.Value)
      → lookup id h.available ≡ some d
      → lookup id h.claimed ≡ none
      → OwnerStep pid h (finish_claim env h id d.interface_number fd pid a w).0.1
  unfolding finish_claim refuse_claim accept_claim
  finish_claim-OwnerStep h id d fd pid (refused e) w a c = kept (λ j. refl)
  finish_claim-OwnerStep h id d fd pid (taken x detached) w a c =
      acquired id (λ n. cc) (ground (arith, c))
        (store_claim-owner_of h id x d.interface_number detached pid)

  claim_available-OwnerStep :
      (h : Handler) (id : Text) (d : Descriptor) (fd pid : ℤ) (w : World env.Value)
      → lookup id h.available ≡ some d
      → OwnerStep pid h (claim_available env h id d.interface_number fd pid w).0.1
  unfolding claim_available refuse_claim
  claim_available-OwnerStep h id d fd pid w a = elim (Option-cases (lookup id h.claimed)) [
    | inl e ↦ rw (e, claim_available) (finish_claim-OwnerStep h id d fd pid _ _ a e)
    | inr (i, e) ↦ rw (e, claim_available) (kept (λ j. refl))
  ]

  claim_id-OwnerStep :
      (h : Handler) (id : Text) (fd pid : ℤ) (w : World env.Value)
      → OwnerStep pid h (claim_id env h id fd pid w).0.1
  unfolding claim_id refuse_claim
  claim_id-OwnerStep h id fd pid w = elim (Option-cases (lookup id h.available)) [
    | inl e ↦ rw (e, claim_id) (kept (λ j. refl))
    | inr (d, e) ↦ rw (e, claim_id) (claim_available-OwnerStep h id d fd pid w e)
  ]

  pub claim_device-OwnerStep :
      (h : Handler) (msg : env.Object) (fd pid : ℤ) (w : World env.Value)
      → OwnerStep pid h (claim_device env h msg fd pid w).0.1
  unfolding claim_device refuse_claim
  claim_device-OwnerStep h msg fd pid w = elim (Option-cases (env.get msg Field.device_id)) [
    | inl e ↦ rw (e, claim_device) (kept (λ j. refl))
    | inr (v, e) ↦ rw (e, claim_device) (claim_id-OwnerStep h (env.as_string v) fd pid w)
  ]

  release_id-OwnerStep :
      (h : Handler) (id : Text) (fd pid : ℤ) (w : World env.Value)
      → OwnerStep pid h (release_id env h id fd w).0.1
  unfolding release_id release_claimed
  release_id-OwnerStep h id fd pid w = elim (Option-cases (lookup id h.claimed)) [
    | inl e ↦ rw (e, release_id) (kept (λ j. refl))
    | inr (i, e) ↦ rw (e, release_id) (freed id (ground (arith, e)) (forget_claim-owner_of h id))
  ]

  pub release_device-OwnerStep :
      (h : Handler) (msg : env.Object) (fd pid : ℤ) (w : World env.Value)
      → OwnerStep pid h (release_device env h msg fd w).0.1
  unfolding release_device
  release_device-OwnerStep h msg fd pid w = elim (Option-cases (env.get msg Field.device_id)) [
    | inl e ↦ rw (e, release_device) (kept (λ j. refl))
    | inr (v, e) ↦ rw (e, release_device) (release_id-OwnerStep h (env.as_string v) fd pid w)
  ]

  pub send_device_list-claimed :
      (h : Handler) (fd : ℤ) (w : World env.Value)
      → (send_device_list env h fd w).0.claimed ≡ h.claimed
  unfolding send_device_list discover_devices add_listed
  send_device_list-claimed h fd w = ground arith
