-- ===== src/Session/Keeps/Frame.antt =====
-- What a message leaves of a session (src/note_usb_session.cpp): its client, its device_id and
-- running_, and a stop that was requested.
use note_usb.Shared.{◌≡◌, refl, true, List, arith, Text}
use note_usb.Platform.{Env, World}
use note_usb.Session.{
  Session, discover_devices, scan_listed, discovered, claim_device, release_device,
}
use note_usb.Session.Messages.{handle_message}
use note_usb.Session.Keeps.{Outcome, ClaimOutcome, Keeps}
use note_usb.Session.Lifecycle.{read_socket}
use note_usb.Session.Keeps.Rule.{handle_message-Keeps, read_socket-Keeps}

abbrev pub Frame : Session → Session → Type 0
Frame s0 s =
    (s.client_fd ≡ s0.client_fd)
    × (s.client_pid ≡ s0.client_pid)
    × (s.device_id ≡ s0.device_id)
    × (s.running ≡ s0.running)
    × ((s0.stop_requested ≡ true) → s.stop_requested ≡ true)

module _ (env : Env) (s0 : Session) where
  abbrev Kept : Session → World env.Value → Type 0
  Kept s w = Frame s0 s

  abbrev Left : World env.Value → Type 0
  Left w = Unit {0}

  discovered-Frame :
      (s : Session) (w : World env.Value) → Frame s0 s → Frame s0 (discover_devices env s w).0.1
  unfolding discover_devices scan_listed discovered
  discovered-Frame s w p = ground (arith, p)

  claimed-Frame :
      (s : Session) (id : Text) (w : World env.Value)
      → Frame s0 s
      → ClaimOutcome Kept Left s (claim_device env s id w)
  unfolding claim_device
  claimed-Frame s id w p = ground (arith, p)

  released-Frame :
      (s : Session) (w : World env.Value) → Frame s0 s → Frame s0 (release_device env s w).0.1
  unfolding release_device
  released-Frame s w p = ground (arith, p)

  kept : Keeps env Kept Left
  kept = record {
    sends = λ s msg w e p. p;
    discovers = discovered-Frame;
    claims = claimed-Frame;
    releases = released-Frame;
    starts_encryption = λ s id key w p. p;
    ends_encryption = λ s id w p. p;
    rekeys = λ s b key w p. p;
    shuts_down = λ s w p. (p.0, p.1, p.2, p.3, λ e. refl);
    gives_up = λ s w p. tt;
  }

  -- A message that is handled leaves the session's client, its device_id, running_ and a stop that
  -- was requested as they were.
  pub handle_message-Frame :
      (msg : env.Object) (w : World env.Value) → Outcome Kept Left s0 (handle_message env s0 msg w)
  handle_message-Frame msg w =
      handle_message-Keeps env Kept Left kept s0 msg w (refl, refl, refl, refl, λ e. e)

  -- And so does the reading loop.
  pub read_socket-Frame :
      (arriving : List env.Object) (w : World env.Value)
      → Outcome Kept Left s0 (read_socket env s0 arriving w)
  read_socket-Frame arriving w =
      read_socket-Keeps env Kept Left kept s0 s0 arriving w (refl, refl, refl, refl, λ e. e)
