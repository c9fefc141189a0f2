-- ===== src/Handler/Handles/Released.antt =====
-- The handles that a release closes, one device's or all.
use note_usb.Shared.{
  ◌+◌, ◌≡◌, refl, Bool, Option, none, some, [], ◌∷◌, ◌++◌, codes, arith, Text, ℤ, ◌==◌,
  if◌then◌else◌, text_key, inl, inr, Option-cases,
}
use note_usb.Shared.Map.{Map, lookup}
use note_usb.Shared.Map.Laws.{Unique}
use note_usb.Shared.Map.Count.{total, total-erase}
use note_usb.Protocol.{Code, Field, Message, Response}
use note_usb.Platform.{Env, World, Handle}
use note_usb.Registry.{remove_device}
use note_usb.Handler.{DeviceInfo, Handler, write_to_fd, error_response, send_error_response}
use note_usb.Handler.Release.{
  close_device, give_back, forget_claim, unregister_owner, release_claimed, release_id,
  release_device, released_response, release_entry, release_loop, release_all_devices,
}
use note_usb.Handler.Handles.{opens, closes, holds_handle, holds, held, Net, Quiet, Balanced}
use note_usb.Handler.Handles.{remove_device-Quiet, remove_all-Quiet}

module _ (env : Env) where
  close_device-Net :
      (x y : Handle) (interface : ℤ) (detached : Bool) (w : World env.Value)
      → Net x w (close_device env y interface detached w).1 0 (if x == y then 1 else 0)
  unfolding close_device opens closes
  close_device-Net x y interface detached w = ground arith

  give_back-Net :
      (x : Handle) (o : Option Handle) (interface : ℤ) (detached : Bool) (w : World env.Value)
      → Net x w (give_back env o interface detached w).1 0 (holds_handle x o)
  unfolding give_back
  give_back-Net x none interface detached w = omega arith
  give_back-Net x (some y) interface detached w = close_device-Net x y interface detached w

  unregister_owner-Quiet :
      (x : Handle) (h : Handler) (id : Text) (w : World env.Value)
      → Quiet x w (unregister_owner env h id w).1
  unfolding unregister_owner opens closes
  unregister_owner-Quiet x h id w = ground arith

  write_to_fd-Quiet :
      (x : Handle) (fd : ℤ) (msg : Response env.Value) (w : World env.Value)
      → Quiet x w (write_to_fd env fd msg w).1
  unfolding write_to_fd opens closes
  write_to_fd-Quiet x fd msg w = ground arith

  -- What `release_claimed` does behind `give_back` opens and closes nothing.
  release_claimed-Net :
      (x : Handle) (h : Handler) (id : Text) (info : DeviceInfo) (fd : ℤ) (w : World env.Value)
      → Net x w (release_claimed env h id info fd w).1 0 (holds x info)
  unfolding release_claimed
  release_claimed-Net x h id info fd w =
      let w1 = (give_back env info.handle info.interface_number info.kernel_driver_attached w).1 in
      let w2 = (remove_device env id w1).1 in
      let w3 = (unregister_owner env h id w2).1 in
      omega (
        arith,
        give_back-Net x info.handle info.interface_number info.kernel_driver_attached w,
        remove_device-Quiet env x id w1,
        unregister_owner-Quiet x h id w2,
        write_to_fd-Quiet x fd (released_response env id) w3,
      )

  release_claimed-handler :
      (h : Handler) (id : Text) (info : DeviceInfo) (fd : ℤ) (w : World env.Value)
      → (release_claimed env h id info fd w).0.1 ≡ forget_claim env h id
  unfolding release_claimed
  release_claimed-handler h id info fd w = refl

  held-forget_claim :
      (x : Handle) (h : Handler) (id : Text) (info : DeviceInfo)
      → Unique h.claimed
      → lookup id h.claimed ≡ some info
      → held x h ≡ holds x info + held x (forget_claim env h id)
  unfolding held forget_claim
  held-forget_claim x h id info u e = total-erase (holds x) id info h.claimed u e

  send_error_response-Quiet :
      (x : Handle) (fd : ℤ) (event : Message) (id : Text) (c : Code) (m : Text)
      (w : World env.Value)
      → Quiet x w (send_error_response env fd event id c m w).1
  unfolding send_error_response
  send_error_response-Quiet x fd event id c m w =
      write_to_fd-Quiet x fd (error_response env event id c m) w

  release_id-Balanced :
      (x : Handle) (h : Handler) (id : Text) (fd : ℤ) (w : World env.Value)
      → Unique h.claimed
      → let r = release_id env h id fd w in Balanced x h w r.0.1 r.1
  unfolding release_id
  release_id-Balanced x h id fd w u = elim (Option-cases (lookup id h.claimed)) [
    | inl e ↦
        let q =
          send_error_response-Quiet x fd Message.item_released id Code.device_not_found
            (codes "Not claimed: " ++ id) w in
        rw (e, release_id) (omega (arith, q.0, q.1))
    | inr (i, e) ↦
        rw (e, release_id, release_claimed-handler)
          (omega (arith, release_claimed-Net x h id i fd w, held-forget_claim x h id i u e))
  ]

  -- For every handle `x` and a table of distinct ids: a release closes `x` exactly as often as it
  -- leaves `claimed_devices_`.
  pub release_device-Balanced :
      (x : Handle) (h : Handler) (msg : env.Object) (fd : ℤ) (w : World env.Value)
      → Unique h.claimed
      → let r = release_device env h msg fd w in Balanced x h w r.0.1 r.1
  unfolding release_device
  release_device-Balanced x h msg fd w u = elim (Option-cases (env.get msg Field.device_id)) [
    | inl e ↦ rw (e, release_device) (omega arith)
    | inr (v, e) ↦ rw (e, release_device) (release_id-Balanced x h (env.as_string v) fd w u)
  ]

  release_entry-Net :
      (x : Handle) (h : Handler) (id : Text) (o : Option Handle) (interface : ℤ) (detached : Bool)
      (w : World env.Value)
      → Net x w (release_entry env h id o interface detached w).1 0 (holds_handle x o)
  unfolding release_entry
  release_entry-Net x h id none interface detached w = omega arith
  release_entry-Net x h id (some y) interface detached w = omega (
    arith,
    close_device-Net x y interface detached w,
    unregister_owner-Quiet x h id (close_device env y interface detached w).1,
  )

  release_loop-Net :
      (x : Handle) (h : Handler) (m : Map Text DeviceInfo) (w : World env.Value)
      → Net x w (release_loop env h m w).1 0 (total (holds x) m)
  unfolding release_loop total
  release_loop-Net x h [] w = omega arith
  release_loop-Net x h ((id, i) ∷ m) w =
      let w' = (release_entry env h id i.handle i.interface_number i.kernel_driver_attached w).1 in
      omega (
        arith,
        release_entry-Net x h id i.handle i.interface_number i.kernel_driver_attached w,
        release_loop-Net x h m w',
      )

  -- For every handle `x`: the bulk release closes `x` as often as the table held it, and the table
  -- ends without it.
  pub release_all_devices-Balanced :
      (x : Handle) (h : Handler) (w : World env.Value)
      → let r = release_all_devices env h w in Balanced x h w r.0 r.1 × (held x r.0 ≡ 0)
  unfolding release_all_devices held total
  release_all_devices-Balanced x h w =
      let w' = (release_loop env h h.claimed w).1 in
      omega (arith, release_loop-Net x h h.claimed w, remove_all-Quiet env x w')
