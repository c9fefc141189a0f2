-- ===== src/Session/Replies.antt =====
-- How often a session answers a message: the parts. The theorem is in Messages.
pub mod Messages
use note_usb.Shared.{
  ℕ, suc, ◌≡◌, refl, sym, ap, ◌∙◌, Bool, true, false, Option, none, some, List, [], ◌∷◌, arith,
  Text, codes, is_empty, ℤ, pos, int_eq, int_eq_iff, is_negative, if◌then◌else◌, length, inl, inr,
  Bool-cases, Option-cases,
}
use note_usb.Protocol.{Code, Error, Entry, Field, Message, Response, echo}
use note_usb.Platform.{
  Env, World, History, Device, Handle, Answer, ok, fail, Act, wrote, both_branches,
}
use note_usb.Usb.{Descriptor, find_usb_device, is_hid_device}
use note_usb.Handler.Claim.{devices_of, detach_driver}
use note_usb.Handler.Release.{close_device}
use note_usb.Handler.Replies.{replies, replies-wrote}
use note_usb.Session.{
  Session, Ran, returned, threw, crashed, hung, send_response, send_error, error_message, probe,
  scan_next, scan, discovered, scan_listed, discover_devices, adopt, claim_device, release_held,
  release_device,
}

abbrev pub count_replies : {V : Type 0} → ℤ → World V → ℕ
count_replies fd w = length (replies fd w.history)

-- Nothing was written to the socket.
abbrev pub Silent : {V : Type 0} → ℤ → World V → World V → Type 0
Silent fd w w' = replies fd w'.history ≡ replies fd w.history

-- The socket takes what is written to it.
pub record IsOpen (env : Env) (fd : ℤ) : Type 0 where
  pub valid : is_negative fd ≡ false
  pub polls : (h : History env.Value) → env.poll_fails h fd ≡ false

-- One message more, on the session's own socket.
abbrev pub Once : {V : Type 0} → ℤ → World V → Session × World V → Type 0
Once fd w (s, w') = (s.client_fd ≡ fd) × (count_replies fd w' ≡ suc (count_replies fd w))

-- A handler that returns has answered once, and one that does not has not answered.
abbrev pub OnceIfReturned : {V : Type 0} → ℤ → World V → Ran Session × World V → Type 0
OnceIfReturned fd w (returned s, w') = Once fd w (s, w')
OnceIfReturned fd w (threw, w') = Silent fd w w'
OnceIfReturned fd w (crashed, w') = Silent fd w w'
OnceIfReturned fd w (hung, w') = Silent fd w w'

module _ (env : Env) where
  pub send_response_once :
      (s : Session) (msg : Response env.Value) (w0 w : World env.Value)
      → IsOpen env s.client_fd
      → Silent s.client_fd w0 w
      → count_replies s.client_fd (send_response env s msg w).1 ≡ suc (count_replies s.client_fd w0)
  send_response_once s msg w0 w o q =
      ap (λ (x : World env.Value). count_replies s.client_fd x) sent
      ∙ ap length (replies-wrote env s.client_fd msg w.history)
      ∙ ap (λ (l : List (Response env.Value)). suc (length l)) q
    where
      sent :
          (send_response env s msg w).1 ≡ record w { history = wrote s.client_fd msg ∷ w.history }
      sent = unfold send_response in ground (arith, o.valid, o.polls w.history)

  detach_driver-Silent :
      (fd : ℤ) (x : Handle) (i : ℤ) (w : World env.Value) → Silent fd w (detach_driver env x i w).1
  unfolding detach_driver replies
  detach_driver-Silent fd x i w = ground arith

  probe-Silent : (fd : ℤ) (dev : Device) (w : World env.Value) → Silent fd w (probe env dev w).1
  unfolding probe replies
  probe-Silent fd dev w = ground arith

  scan_next-Silent :
      (fd : ℤ) (w0 : World env.Value) (rest : Option Descriptor → Act env.Value (Option Descriptor))
      (d : Option Descriptor) (tried : Option (Option Descriptor)) (w : World env.Value)
      → ((d : Option Descriptor) (w : World env.Value) → Silent fd w0 w → Silent fd w0 (rest d w).1)
      → Silent fd w0 w
      → Silent fd w0 (scan_next env rest d tried w).1
  unfolding scan_next
  scan_next-Silent fd w0 rest d none w h q = h d w q
  scan_next-Silent fd w0 rest d (some none) w h q = h none w q
  scan_next-Silent fd w0 rest d (some (some e)) w h q = q

  scan-Silent :
      (fd : ℤ) (devs : List Device) (d : Option Descriptor) (w0 w : World env.Value)
      → Silent fd w0 w
      → Silent fd w0 (scan env devs d w).1
  unfolding scan
  scan-Silent fd [] d w0 w q = q
  scan-Silent fd (dev ∷ devs) d w0 w q =
      scan_next-Silent fd w0 (scan env devs) d _ _ (λ d' w'. scan-Silent fd devs d' w0 w')
        (both_branches (λ r. Silent fd w0 r.1) (is_hid_device env w.history dev) (probe env dev) _ w
          (probe-Silent fd dev w ∙ q) q)

  discovered-client_fd :
      (s : Session) (d : Option Descriptor) → (discovered env s d).1.client_fd ≡ s.client_fd
  unfolding discovered
  discovered-client_fd s none = refl
  discovered-client_fd s (some d) = refl

  scan_listed-Silent :
      (s : Session) (fd : ℤ) (answer : Answer (List Device)) (w0 w : World env.Value)
      → Silent fd w0 w
      → let r = scan_listed env s answer w in Silent fd w0 r.1 × (r.0.1.client_fd ≡ s.client_fd)
  scan_listed-Silent s fd (fail rc) w0 w q = unfold scan_listed in (q, refl)
  scan_listed-Silent s fd (ok devs) w0 w q =
      unfold scan_listed in
      (scan-Silent fd devs s.device w0 w q, discovered-client_fd s (scan env devs s.device w).0)

  pub discover_devices-Silent :
      (s : Session) (fd : ℤ) (w : World env.Value)
      → let r = discover_devices env s w in Silent fd w r.1 × (r.0.1.client_fd ≡ s.client_fd)
  discover_devices-Silent s fd w =
      unfold discover_devices in
      scan_listed-Silent s fd (env.device_list w.history) w _ (unfold replies in refl)

  pub claim_device-Silent :
      (s : Session) (id : Text) (fd : ℤ) (w : World env.Value)
      → Silent fd w (claim_device env s id w).1
  unfolding claim_device replies
  claim_device-Silent s id fd w = ground arith

  abbrev pub KeepsFd : Session → Ran (Error × Session) → Type 0
  KeepsFd s (returned (e, s')) = s'.client_fd ≡ s.client_fd
  KeepsFd s other = Unit

  pub claim_device-KeepsFd :
      (s : Session) (id : Text) (w : World env.Value) → KeepsFd s (claim_device env s id w).0
  unfolding claim_device
  claim_device-KeepsFd s id w = ground arith

  pub release_device-Silent :
      (s : Session) (fd : ℤ) (w : World env.Value)
      → let r = release_device env s w in Silent fd w r.1 × (r.0.1.client_fd ≡ s.client_fd)
  unfolding release_device replies
  release_device-Silent s fd w = ground arith
