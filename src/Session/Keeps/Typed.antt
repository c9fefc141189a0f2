-- ===== src/Session/Keeps/Typed.antt =====
-- The shape of what a session sends (src/note_usb_session.cpp), whatever it reads.
use note_usb.Shared.{◌≡◌, true, Option, none, some, List, [], ◌∷◌, arith, Text}
use note_usb.Protocol.{Response}
use note_usb.Protocol.Shape.{is_well_formed, all_well_formed, WellFormed}
use note_usb.Platform.{Env, World, Device, Act, Answer, ok, fail, both_branches}
use note_usb.Usb.{Descriptor, is_hid_device}
use note_usb.Handler.Claim.{detach_driver}
use note_usb.Session.{
  Session, Ran, returned, threw, crashed, hung, send_response, discover_devices, claim_device,
  release_device, probe, scan_next, scan, scan_listed, claim_found, claim_opened, claim_taken,
}
use note_usb.Session.Lifecycle.{read_socket}
use note_usb.Session.Keeps.{Outcome, ClaimOutcome, Keeps}
use note_usb.Session.Keeps.Rule.{read_socket-Keeps}

module _ (env : Env) where
  sent-WellFormed :
      (s : Session) (msg : Response env.Value) (w : World env.Value)
      → is_well_formed msg ≡ true
      → WellFormed w
      → WellFormed (send_response env s msg w).1
  unfolding send_response all_well_formed
  sent-WellFormed s msg w e p = ground (arith, e, p)

  claimed-WellFormed :
      (s : Session) (id : Text) (w : World env.Value)
      → WellFormed w
      → ClaimOutcome (λ s'. WellFormed) WellFormed s (claim_device env s id w)
  unfolding claim_device claim_found claim_opened claim_taken detach_driver all_well_formed
  claimed-WellFormed s id w p = ground (arith, p)

  probed-WellFormed :
      (dev : Device) (w : World env.Value) → WellFormed w → WellFormed (probe env dev w).1
  unfolding probe all_well_formed
  probed-WellFormed dev w p = ground (arith, p)

  scan_next-WellFormed :
      (rest : Option Descriptor → Act env.Value (Option Descriptor)) (d : Option Descriptor)
      (tried : Option (Option Descriptor)) (w : World env.Value)
      → ((d : Option Descriptor) (w : World env.Value) → WellFormed w → WellFormed (rest d w).1)
      → WellFormed w
      → WellFormed (scan_next env rest d tried w).1
  unfolding scan_next
  scan_next-WellFormed rest d none w h p = h d w p
  scan_next-WellFormed rest d (some none) w h p = h none w p
  scan_next-WellFormed rest d (some (some e)) w h p = p

  scan-WellFormed :
      (devs : List Device) (d : Option Descriptor) (w : World env.Value)
      → WellFormed w
      → WellFormed (scan env devs d w).1
  unfolding scan
  scan-WellFormed [] d w p = p
  scan-WellFormed (dev ∷ devs) d w p =
      scan_next-WellFormed (scan env devs) d _ _ (scan-WellFormed devs) (
        both_branches (λ r. WellFormed r.1) (is_hid_device env w.history dev) (probe env dev) _ w
          (probed-WellFormed dev w p) p)

  scan_listed-WellFormed :
      (s : Session) (answer : Answer (List Device)) (w : World env.Value)
      → WellFormed w
      → WellFormed (scan_listed env s answer w).1
  unfolding scan_listed
  scan_listed-WellFormed s (fail rc) w p = p
  scan_listed-WellFormed s (ok devs) w p = scan-WellFormed devs s.device w p

  discovered-WellFormed :
      (s : Session) (w : World env.Value) → WellFormed w → WellFormed (discover_devices env s w).1
  unfolding discover_devices all_well_formed
  discovered-WellFormed s w p = scan_listed-WellFormed s (env.device_list w.history) _ p

  released-WellFormed :
      (s : Session) (w : World env.Value) → WellFormed w → WellFormed (release_device env s w).1
  unfolding release_device all_well_formed
  released-WellFormed s w p = ground (arith, p)

  kept : Keeps env (λ s. WellFormed) WellFormed
  kept = record {
    sends = sent-WellFormed;
    discovers = discovered-WellFormed;
    claims = claimed-WellFormed;
    releases = released-WellFormed;
    starts_encryption = λ s id key w p. unfold all_well_formed in p;
    ends_encryption = λ s id w p. unfold all_well_formed in p;
    rekeys = λ s b key w p. p;
    shuts_down = λ s w p. p;
    gives_up = λ s w p. p;
  }

  -- A session sends only messages that begin with their one EVENT, a constant of the protocol or
  -- the value that the client sent, and that give a MSG with each ERROR: if all that was sent so far
  -- is such, then so it is when the session's loop ends, whatever messages it read and however
  -- it ended.
  pub read_socket-WellFormed :
      (s : Session) (arriving : List env.Object) (w : World env.Value)
      → WellFormed w
      → WellFormed (read_socket env s arriving w).1
  read_socket-WellFormed s arriving w p =
      at_the_end (read_socket env s arriving w)
        (read_socket-Keeps env (λ s'. WellFormed) WellFormed kept s s arriving w p)
    where
      at_the_end :
          (r : Ran Session × World env.Value)
          → Outcome (λ s'. WellFormed) WellFormed s r
          → WellFormed r.1
      at_the_end (returned s', w') q = q
      at_the_end (threw, w') q = q
      at_the_end (crashed, w') q = q
      at_the_end (hung, w') q = q
