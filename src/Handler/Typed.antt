-- ===== src/Handler/Typed.antt =====
-- The shape of what DeviceHandler sends (src/device_handler.cpp): one operation at a time.
use note_usb.Shared.{
  ◌≡◌, refl, Bool, true, false, Option, none, some, [], ◌∷◌, ◌++◌, arith, Text, codes, ℤ,
  is_negative, text_key, Option-cases, inl, inr,
}
use note_usb.Shared.Map.{Map, lookup, has}
use note_usb.Protocol.{Code, Error, Field, Message, Response}
use note_usb.Protocol.Shape.{is_well_formed, all_well_formed, WellFormed}
use note_usb.Platform.{Env, World, Handle, both_branches}
use note_usb.Registry.{add_device, remove_device, remove_all}
use note_usb.Manager.{Sessions, broadcast_loop, broadcast_to, broadcast_to_all, write_bytes}
use note_usb.Handler.{
  DeviceInfo, Handler, start_discovery, discover_devices, send_device_list, list_response,
  write_to_fd, error_response, send_error_response,
}
use note_usb.Handler.Claim.{
  Acquired, taken, refused, acquire, accept_claim, refuse_claim, finish_claim, claim_available,
  claim_id, claim_device,
}
use note_usb.Handler.Release.{
  give_back, close_device, reattach_driver, unregister_owner, released_response, release_claimed,
  release_id, release_device, release_entry, release_loop, release_all_devices,
}

module _ (env : Env) where
  error_response-is_well_formed :
      (event : Message) (id : Text) (c : Code) (m : Text)
      → is_well_formed (error_response env event id c m) ≡ true
  unfolding error_response
  error_response-is_well_formed event id c m = ground arith

  acquire-WellFormed :
      (id : Text) (interface : ℤ) (w : World env.Value)
      → WellFormed w
      → WellFormed (acquire env id interface w).1
  unfolding acquire all_well_formed
  acquire-WellFormed id interface w p = ground (arith, p)

  refuse_claim-WellFormed :
      (h : Handler) (id : Text) (e : Error) (fd : ℤ) (w : World env.Value)
      → WellFormed w
      → WellFormed (refuse_claim env h id e fd w).1
  unfolding refuse_claim send_error_response all_well_formed
  refuse_claim-WellFormed h id e fd w p = ground (arith, p)

  accept_claim-WellFormed :
      (h : Handler) (id : Text) (x : Handle) (interface : ℤ) (detached : Bool) (fd pid : ℤ)
      (w : World env.Value)
      → WellFormed w
      → WellFormed (accept_claim env h id x interface detached fd pid w).1
  unfolding accept_claim add_device all_well_formed
  accept_claim-WellFormed h id x interface detached fd pid w p = ground (arith, p)

  finish_claim-WellFormed :
      (h : Handler) (id : Text) (interface fd pid : ℤ) (a : Acquired) (w : World env.Value)
      → WellFormed w
      → WellFormed (finish_claim env h id interface fd pid a w).1
  unfolding finish_claim
  finish_claim-WellFormed h id interface fd pid (refused e) w p =
      refuse_claim-WellFormed h id e fd w p
  finish_claim-WellFormed h id interface fd pid (taken x detached) w p =
      accept_claim-WellFormed h id x interface detached fd pid w p

  give_back-WellFormed :
      (x : Option Handle) (interface : ℤ) (detached : Bool) (w : World env.Value)
      → WellFormed w
      → WellFormed (give_back env x interface detached w).1
  unfolding give_back close_device reattach_driver all_well_formed
  give_back-WellFormed none interface detached w p = p
  give_back-WellFormed (some x) interface true w p = p
  give_back-WellFormed (some x) interface false w p = p

  remove_device-WellFormed :
      (id : Text) (w : World env.Value) → WellFormed w → WellFormed (remove_device env id w).1
  unfolding remove_device all_well_formed
  remove_device-WellFormed id w p = ground (arith, p)

  unregister_owner-WellFormed :
      (h : Handler) (id : Text) (w : World env.Value)
      → WellFormed w
      → WellFormed (unregister_owner env h id w).1
  unfolding unregister_owner all_well_formed
  unregister_owner-WellFormed h id w p = ground (arith, p)

  written-WellFormed :
      (fd : ℤ) (msg : Response env.Value) (w : World env.Value)
      → is_well_formed msg ≡ true
      → WellFormed w
      → WellFormed (write_to_fd env fd msg w).1
  unfolding write_to_fd all_well_formed
  written-WellFormed fd msg w e p = ground (arith, e, p)

  release_claimed-WellFormed :
      (h : Handler) (id : Text) (i : DeviceInfo) (fd : ℤ) (w : World env.Value)
      → WellFormed w
      → WellFormed (release_claimed env h id i fd w).1
  unfolding release_claimed released_response
  release_claimed-WellFormed h id i fd w p =
      written-WellFormed fd (released_response env id) _ refl (
        unregister_owner-WellFormed h id _ (
          remove_device-WellFormed id _
            (give_back-WellFormed i.handle i.interface_number i.kernel_driver_attached w p)))

  release_id-WellFormed :
      (h : Handler) (id : Text) (fd : ℤ) (w : World env.Value)
      → WellFormed w
      → WellFormed (release_id env h id fd w).1
  unfolding release_id send_error_response
  release_id-WellFormed h id fd w p = elim (Option-cases (lookup id h.claimed)) [
    | inl e ↦
        rw (e, release_id)
          (written-WellFormed fd _ w
            (error_response-is_well_formed Message.item_released id Code.device_not_found
              (codes "Not claimed: " ++ id))
            p)
    | inr (i, e) ↦ rw (e, release_id) (release_claimed-WellFormed h id i fd w p)
  ]

  pub release_device-WellFormed :
      (h : Handler) (msg : env.Object) (fd : ℤ) (w : World env.Value)
      → WellFormed w
      → WellFormed (release_device env h msg fd w).1
  unfolding release_device
  release_device-WellFormed h msg fd w p = elim (Option-cases (env.get msg Field.device_id)) [
    | inl e ↦ rw (e, release_device) p
    | inr (v, e) ↦ rw (e, release_device) (release_id-WellFormed h (env.as_string v) fd w p)
  ]

  release_loop-WellFormed :
      (h : Handler) (m : Map Text DeviceInfo) (w : World env.Value)
      → WellFormed w
      → WellFormed (release_loop env h m w).1
  unfolding release_loop
  release_loop-WellFormed h [] w p = p
  release_loop-WellFormed h ((id, i) ∷ m) w p = release_loop-WellFormed h m _ (entry i.handle)
    where
      entry :
          (x : Option Handle)
          → WellFormed (release_entry env h id x i.interface_number i.kernel_driver_attached w).1
      entry x =
          unfold release_entry close_device unregister_owner reattach_driver all_well_formed in
          ground (arith, p)

  broadcast_loop-WellFormed :
      (m : Sessions) (msg : Response env.Value) (w : World env.Value)
      → is_well_formed msg ≡ true
      → WellFormed w
      → WellFormed (broadcast_loop env m msg w).1
  unfolding broadcast_loop broadcast_to write_bytes all_well_formed
  broadcast_loop-WellFormed [] msg w e p = p
  broadcast_loop-WellFormed ((pid, s) ∷ m) msg w e p =
      broadcast_loop-WellFormed m msg _ e (ground (arith, e, p))

  claim_id-WellFormed :
      (h : Handler) (id : Text) (fd pid : ℤ) (w : World env.Value)
      → WellFormed w
      → WellFormed (claim_id env h id fd pid w).1
  unfolding claim_id claim_available
  claim_id-WellFormed h id fd pid w p = elim (Option-cases (lookup id h.available)) [
    | inl e ↦ rw (e, claim_id) (refuse_claim-WellFormed h id _ fd w p)
    | inr (d, e) ↦
        rw (e, claim_id)
          (both_branches (λ r. WellFormed r.1) (has id h.claimed) _ _ w
            (refuse_claim-WellFormed h id _ fd w p)
            (finish_claim-WellFormed h id d.interface_number fd pid _ _
              (acquire-WellFormed id d.interface_number w p)))
  ]

  pub claim_device-WellFormed :
      (h : Handler) (msg : env.Object) (fd pid : ℤ) (w : World env.Value)
      → WellFormed w
      → WellFormed (claim_device env h msg fd pid w).1
  unfolding claim_device
  claim_device-WellFormed h msg fd pid w p = elim (Option-cases (env.get msg Field.device_id)) [
    | inl e ↦ rw (e, claim_device) (refuse_claim-WellFormed h [] _ fd w p)
    | inr (v, e) ↦ rw (e, claim_device) (claim_id-WellFormed h (env.as_string v) fd pid w p)
  ]

  discovered-WellFormed :
      (h : Handler) (w : World env.Value) → WellFormed w → WellFormed (discover_devices env h w).1
  unfolding discover_devices all_well_formed
  discovered-WellFormed h w p = ground (arith, p)

  pub send_device_list-WellFormed :
      (h : Handler) (fd : ℤ) (w : World env.Value)
      → WellFormed w
      → WellFormed (send_device_list env h fd w).1
  unfolding send_device_list list_response broadcast_to_all
  send_device_list-WellFormed h fd w p =
      let r = discover_devices env h w in
      let q = discovered-WellFormed h w p in
      both_branches (λ r. WellFormed r.1) (is_negative fd) _ _ r.1
        (broadcast_loop-WellFormed r.1.sessions (list_response env r.0) r.1 refl q)
        (written-WellFormed fd (list_response env r.0) r.1 refl q)

  pub start_discovery-WellFormed :
      (h : Handler) (w : World env.Value) → WellFormed w → WellFormed (start_discovery env h w).1
  unfolding start_discovery
  start_discovery-WellFormed h w p =
      both_branches (λ r. WellFormed r.1) h.running _ _ w p
        (discovered-WellFormed (record h { running = true }) w p)

  pub release_all_devices-WellFormed :
      (h : Handler) (w : World env.Value)
      → WellFormed w
      → WellFormed (release_all_devices env h w).1
  unfolding release_all_devices remove_all all_well_formed
  release_all_devices-WellFormed h w p = ground (arith, release_loop-WellFormed h h.claimed w p)
