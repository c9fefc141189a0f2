-- ===== src/Module/Reachable/Typed.antt =====
-- The shape of what the device handler sends (src/device_handler.cpp), in every state that it reaches.
use note_usb.Shared.{some, ℤ, text_key, Option-cases, inl, inr}
use mathlib.Core.Path.{subst}
use note_usb.Protocol.{Message}
use note_usb.Protocol.Shape.{all_well_formed, WellFormed}
use note_usb.Platform.{Env, World, both_branches}
use note_usb.Handler.{Handler, new_handler, stop_discovery}
use note_usb.Module.{
  command_of, run_command, request_discovery, claim_item, release_item, handle_management_message,
}
use note_usb.Module.Reachable.Runs.{Reaches, created, requested, started, stopped, released_all}
use note_usb.Handler.Typed.{
  claim_device-WellFormed, release_device-WellFormed, send_device_list-WellFormed,
  start_discovery-WellFormed, release_all_devices-WellFormed,
}

module _ (env : Env) where
  handle_management_message-WellFormed :
      (h : Handler) (msg : env.Object) (fd pid : ℤ) (w : World env.Value)
      → WellFormed w
      → WellFormed (handle_management_message env (some h) msg fd pid w).1
  unfolding handle_management_message run_command request_discovery claim_item release_item
  handle_management_message-WellFormed h msg fd pid w p = elim (Option-cases (command_of env msg)) [
    | inl e ↦ rw (e, handle_management_message) p
    | inr (cmd, e) ↦
        rw (e, handle_management_message)
          (both_branches (λ r. WellFormed r.1) (env.equals cmd Message.request_discovery) _ _ w
            (send_device_list-WellFormed env h fd w p)
            (both_branches (λ r. WellFormed r.1) (env.equals cmd Message.claim_item) _ _ w
              (claim_device-WellFormed env h msg fd pid w p)
              (both_branches (λ r. WellFormed r.1) (env.equals cmd Message.release_item) _ _ w
                (release_device-WellFormed env h msg fd w p) p)))
  ]

  stopped-WellFormed :
      (h : Handler) (w : World env.Value) → WellFormed w → WellFormed (stop_discovery env h w).1
  unfolding stop_discovery
  stopped-WellFormed h w p = p

  -- Every message that the device handler writes to a management socket or broadcasts, in any state
  -- that it reaches, begins with its one EVENT, a constant of the protocol, and gives a MSG with each
  -- ERROR, if this holds of what was sent before the handler was made.
  pub Reaches-WellFormed :
      (w0 : World env.Value) (h : Handler) (w : World env.Value)
      → WellFormed w0
      → Reaches env w0 h w
      → WellFormed w
  Reaches-WellFormed w0 _ _ p (created registry name) = unfold new_handler all_well_formed in p
  Reaches-WellFormed w0 _ _ p (requested h h' w w' e msg fd pid r q) =
      subst (λ t. WellFormed t.1) q
        (handle_management_message-WellFormed h msg fd pid w (Reaches-WellFormed w0 h w p r))
  Reaches-WellFormed w0 _ _ p (started h w r) =
      start_discovery-WellFormed env h w (Reaches-WellFormed w0 h w p r)
  Reaches-WellFormed w0 _ _ p (stopped h w r) =
      stopped-WellFormed h w (Reaches-WellFormed w0 h w p r)
  Reaches-WellFormed w0 _ _ p (released_all h w r) =
      release_all_devices-WellFormed env h w (Reaches-WellFormed w0 h w p r)
