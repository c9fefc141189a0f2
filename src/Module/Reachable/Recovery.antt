-- ===== src/Module/Reachable/Recovery.antt =====
-- The crash-recovery file in the states that a module's device handler reaches (src/module.cpp).
use note_usb.Shared.{◌≡◌, refl, Bool, true, Option, none, some, [], Text, ℤ, codes, InInt32}
use mathlib.Core.Path.{subst}
use note_usb.Protocol.{Code, Error, Message}
use note_usb.Platform.{Env, World, History, Act, pure, both_branches}
use note_usb.Shared.Map.{lookup}
use note_usb.Registry.{get_all_devices, read_registry}
use note_usb.Registry.Contents.{Holds}
use note_usb.Handler.{Handler, new_handler, error_of}
use note_usb.Registry.Lookup.{find_entry}
use note_usb.Handler.Recovery.{Recorded}
use note_usb.Handler.Recovery.Methods.{
  claim_device-Recorded, release_device-Recorded, release_all_devices-Recorded,
}
use note_usb.Handler.Recovery.Discovery.{
  send_device_list-Recorded, start_discovery-Recorded, stop_discovery-Recorded,
}
use note_usb.Module.{
  request_discovery, claim_item, release_item, run_command, command_of, handle_management_message,
}
use note_usb.Module.Reachable.Runs.{Reaches, created, requested, started, stopped, released_all}

module _ (env : Env) (writable : (h : History env.Value) → env.can_write h ≡ true)
    (fits : InInt32 env.self_pid) where
  abbrev AfterRequest : (Error × Option Handler) × World env.Value → Type 0
  AfterRequest ((e, none), w) = Unit
  AfterRequest ((e, some h), w) = Recorded env h w

  handle_management_message-Recorded :
      (h : Handler) (msg : env.Object) (fd pid : ℤ) (w : World env.Value)
      → Recorded env h w
      → AfterRequest (handle_management_message env (some h) msg fd pid w)
  unfolding handle_management_message run_command request_discovery claim_item release_item
  handle_management_message-Recorded h msg fd pid w v = dispatched (command_of env msg)
    where
      run : (cmd : env.Value) → AfterRequest (run_command env (some h) cmd msg fd pid w)
      run cmd =
          both_branches AfterRequest (env.equals cmd Message.request_discovery) _ _ w
            (send_device_list-Recorded env fits h fd w v)
            (both_branches AfterRequest (env.equals cmd Message.claim_item) _ _ w
              (claim_device-Recorded env writable h msg fd pid w v)
              (both_branches AfterRequest (env.equals cmd Message.release_item) _ _ w
                (release_device-Recorded env writable h msg fd w v) v))

      dispatched :
          (found : Option env.Value)
          → AfterRequest (
              (elim found as (λ f. Act env.Value (Error × Option Handler)) [
                | none ↦
                    pure
                      (error_of Code.invalid_message (codes "Missing CMD or EVENT field"), some h)
                | some cmd ↦ run_command env (some h) cmd msg fd pid
              ])
                w)
      dispatched none = v
      dispatched (some cmd) = run cmd

  created-Recorded :
      (registry : Bool) (name : Text) (w : World env.Value)
      → Holds env w []
      → let r = new_handler env registry name w in Recorded env r.0 r.1
  unfolding new_handler lookup find_entry get_all_devices read_registry
  created-Recorded registry name w v = record {
    devices = [];
    holds = record { reads = v.reads; plain = v.plain };
    same = λ id. refl;
    known = λ id. tt;
  }

  -- Where the file can always be written and the process id fits 32 bits: in every state that the
  -- handler reaches from its construction with an empty file, by requests of any clients, starts and
  -- stops of discovery and bulk releases, the text of the file reads as a map from ids to entries that
  -- is `claimed_devices_`, each entry with the device's interface and driver state.
  pub Reaches-Recorded :
      (w0 : World env.Value) (h : Handler) (w : World env.Value)
      → Holds env w0 []
      → Reaches env w0 h w
      → Recorded env h w
  Reaches-Recorded w0 _ _ v (created registry name) = created-Recorded registry name w0 v
  Reaches-Recorded w0 _ _ v (requested h h' w w' e msg fd pid r q) =
      subst AfterRequest q
        (handle_management_message-Recorded h msg fd pid w (Reaches-Recorded w0 h w v r))
  Reaches-Recorded w0 _ _ v (started h w r) =
      start_discovery-Recorded env fits h w (Reaches-Recorded w0 h w v r)
  Reaches-Recorded w0 _ _ v (stopped h w r) =
      stop_discovery-Recorded env fits h w (Reaches-Recorded w0 h w v r)
  Reaches-Recorded w0 _ _ v (released_all h w r) =
      release_all_devices-Recorded env writable h w (Reaches-Recorded w0 h w v r)
