-- ===== src/Session/Keeps.antt =====
-- What every handler of NoteUSBSession (src/note_usb_session.cpp) keeps: a predicate on a session and
-- the world that its operations keep. The rule is in Rule.
pub mod Rule
pub mod Frame
pub mod Provider
pub mod Owned
pub mod Typed
use note_usb.Shared.{
  ◌≡◌, refl, Bool, true, false, Option, none, some, List, [], ◌∷◌, Text, codes, is_empty, ℤ,
  if◌then◌else◌, inl, inr, Option-cases,
}
use note_usb.Protocol.{Code, Error, Entry, Field, Message, Response, echo}
use note_usb.Protocol.Shape.{is_well_formed}
use note_usb.Platform.{Env, World, Act, both_branches, started_encryption, ended_encryption}
use note_usb.Session.{
  Session, Ran, returned, threw, crashed, hung, send_response, send_error, error_message,
  discover_devices, claim_device, release_device,
}
use note_usb.Session.Lifecycle.{read_on, read_socket}
use note_usb.Session.Messages.{
  device_id_of, handle_discover, claim_answer, handle_claim, handle_release, handle_resume,
  enable_with, enable_key, handle_enable_encryption, handle_disable_encryption, handle_shutdown,
  dispatch, handle_message,
}
use note_usb.Session.Cipher.{read_key}

-- `Q` holds of a session that was returned, of the session `s0` as it was where an exception was
-- thrown, and `R` of the world that was left otherwise.
abbrev pub Outcome :
    {V : Type 0}
    → (Session → World V → Type 0)
    → (World V → Type 0)
    → Session
    → Ran Session × World V
    → Type 0
Outcome Q R s0 (returned s, w) = Q s w
Outcome Q R s0 (threw, w) = Q s0 w
Outcome Q R s0 (crashed, w) = R w
Outcome Q R s0 (hung, w) = R w

abbrev pub ClaimOutcome :
    {V : Type 0}
    → (Session → World V → Type 0)
    → (World V → Type 0)
    → Session
    → Ran (Error × Session) × World V
    → Type 0
ClaimOutcome Q R s0 (returned (e, s), w) = Q s w
ClaimOutcome Q R s0 (threw, w) = Q s0 w
ClaimOutcome Q R s0 (crashed, w) = R w
ClaimOutcome Q R s0 (hung, w) = R w

module _ (env : Env) where
  -- What the handlers are made of, and what each part keeps.
  pub record Keeps (Q : Session → World env.Value → Type 0) (R : World env.Value → Type 0)
      : Type 0 where
    pub sends :
        (s : Session) (msg : Response env.Value) (w : World env.Value)
        → is_well_formed msg ≡ true
        → Q s w
        → Q s (send_response env s msg w).1
    pub discovers :
        (s : Session) (w : World env.Value)
        → Q s w
        → let r = discover_devices env s w in Q r.0.1 r.1
    pub claims :
        (s : Session) (id : Text) (w : World env.Value)
        → Q s w
        → ClaimOutcome Q R s (claim_device env s id w)
    pub releases :
        (s : Session) (w : World env.Value) → Q s w → let r = release_device env s w in Q r.0.1 r.1
    pub starts_encryption :
        (s : Session) (id key : Text) (w : World env.Value)
        → Q s w
        → Q s (record w { history = started_encryption id key ∷ w.history })
    pub ends_encryption :
        (s : Session) (id : Text) (w : World env.Value)
        → Q s w
        → Q s (record w { history = ended_encryption id ∷ w.history })
    pub rekeys :
        (s : Session) (b : Bool) (key : Text) (w : World env.Value)
        → Q s w
        → Q (record s { encryption_enabled = b; encryption_key = key }) w
    pub shuts_down :
        (s : Session) (w : World env.Value) → Q s w → Q (record s { stop_requested = true }) w
    pub gives_up : (s : Session) (w : World env.Value) → Q s w → R w
