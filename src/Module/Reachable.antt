-- ===== src/Module/Reachable.antt =====
-- One request of the management socket (src/module.cpp), DeviceHandler's invariant and its handles.
pub mod Runs
pub mod Locks
pub mod Typed
pub mod Recovery
use note_usb.Shared.{
  ℕ, ◌+◌, ◌≡◌, refl, sym, ap, ◌∙◌, Bool, true, false, Option, none, some, List, [], ◌∷◌, arith,
  Text, ℤ, if◌then◌else◌, is_negative, codes, Bool-cases, Option-cases, inl, inr,
}
use note_usb.Protocol.{Error, Code, Field, Message, Response}
use note_usb.Platform.{Env, World, SessionEntry, Handle, Answer, ok, fail, Act, pure, both_branches}
use note_usb.Manager.{Sessions, broadcast_loop, broadcast_to, broadcast_to_all, write_bytes}
use note_usb.Handler.{
  Handler, new_handler, discover_devices, start_discovery, stop_discovery, send_device_list,
  error_of, write_to_fd, list_response,
}
use note_usb.Handler.Claim.{claim_device}
use note_usb.Handler.Release.{release_device, release_all_devices}
use note_usb.Handler.Handles.{opens, closes, held, Net, Quiet, Balanced, claim_device-Balanced}
use note_usb.Handler.Handles.Released.{release_device-Balanced, release_all_devices-Balanced}
use note_usb.Handler.Invariant.{Inv}
use note_usb.Handler.Invariant.Methods.{
  new_handler-Inv, discover_devices-Inv, stop_discovery-Inv, claim_device-Inv, release_device-Inv,
  release_all_devices-Inv, send_device_list-Inv,
}
use note_usb.Module.{
  request_discovery, claim_item, release_item, run_command, command_of, handle_management_message,
}

module _ (env : Env) (x : Handle) where
  broadcast_to-Quiet :
      (e : SessionEntry) (msg : Response env.Value) (w : World env.Value)
      → Quiet x w (broadcast_to env e msg w).1
  unfolding broadcast_to write_bytes opens closes
  broadcast_to-Quiet e msg w =
      both_branches (λ r. Quiet x w r.1) e.is_active _ _ w (refl, refl) (refl, refl)

  broadcast_loop-Quiet :
      (m : Sessions) (msg : Response env.Value) (w : World env.Value)
      → Quiet x w (broadcast_loop env m msg w).1
  unfolding broadcast_loop
  broadcast_loop-Quiet [] msg w = (refl, refl)
  broadcast_loop-Quiet ((pid, e) ∷ m) msg w =
      let p = broadcast_to-Quiet e msg w in
      let q = broadcast_loop-Quiet m msg (broadcast_to env e msg w).1 in (q.0 ∙ p.0, q.1 ∙ p.1)

  pub discover_devices-Balanced :
      (h : Handler) (w : World env.Value)
      → let r = discover_devices env h w in Balanced x h w r.0 r.1
  unfolding discover_devices held opens closes
  discover_devices-Balanced h w = ground arith

  -- The list goes to one socket, or to every session.
  send_list-Quiet :
      (fd : ℤ) (msg : Response env.Value) (w : World env.Value)
      → Quiet x w
          ((if is_negative fd then broadcast_to_all env msg else write_to_fd env fd msg) w).1
  unfolding broadcast_to_all write_to_fd opens closes
  send_list-Quiet fd msg w = elim (Bool-cases (is_negative fd)) [
    | inl n ↦ rw n (broadcast_loop-Quiet w.sessions msg w)
    | inr n ↦ rw n (refl, refl)
  ]

  send_device_list-Balanced :
      (h : Handler) (fd : ℤ) (w : World env.Value)
      → let r = send_device_list env h fd w in Balanced x h w r.0 r.1
  unfolding send_device_list
  send_device_list-Balanced h fd w =
      let d = discover_devices-Balanced h w in
      let q =
        send_list-Quiet fd (list_response env (discover_devices env h w).0)
          (discover_devices env h w).1 in
      omega (arith, d, q.0, q.1)

  -- What one request does to a handler that is there.
  abbrev pub Kept : Handler → World env.Value → (Error × Option Handler) × World env.Value → Type 0
  Kept h w ((e, none), w') = ⊥
  Kept h w ((e, some h'), w') = Inv h' × Balanced x h w h' w'

  pub handle_management_message-Kept :
      (h : Handler) (msg : env.Object) (fd pid : ℤ) (w : World env.Value)
      → Inv h
      → Kept h w (handle_management_message env (some h) msg fd pid w)
  unfolding handle_management_message run_command request_discovery claim_item release_item
  handle_management_message-Kept h msg fd pid w v = dispatched (command_of env msg)
    where
      run : (cmd : env.Value) → Kept h w (run_command env (some h) cmd msg fd pid w)
      run cmd =
          both_branches (Kept h w) (env.equals cmd Message.request_discovery) _ _ w
            (send_device_list-Inv env h fd w v, send_device_list-Balanced h fd w)
            (both_branches (Kept h w) (env.equals cmd Message.claim_item) _ _ w
              (claim_device-Inv env h msg fd pid w v, claim_device-Balanced env x h msg fd pid w)
              (both_branches (Kept h w) (env.equals cmd Message.release_item) _ _ w
                (
                  release_device-Inv env h msg fd w v,
                  release_device-Balanced env x h msg fd w v.claimed_unique,
                )
                (v, refl)))

      dispatched :
          (found : Option env.Value)
          → Kept h w (
              (elim found as (λ f. Act env.Value (Error × Option Handler)) [
                | none ↦
                    pure
                      (error_of Code.invalid_message (codes "Missing CMD or EVENT field"), some h)
                | some cmd ↦ run_command env (some h) cmd msg fd pid
              ])
                w)
      dispatched none = (v, refl)
      dispatched (some cmd) = run cmd
