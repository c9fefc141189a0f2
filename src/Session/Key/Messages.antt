-- ===== src/Session/Key/Messages.antt =====
-- The messages of a session (src/note_usb_session.cpp) and the key loop: no handler runs for ever.
use note_usb.Shared.{
  Option, none, some, [], Text, is_empty, arith, if◌then◌else◌, Option-cases, inl, inr,
}
use note_usb.Protocol.{Error, Field, Message}
use note_usb.Platform.{Env, World, Act, both_branches}
use note_usb.Session.{Session, Ran, returned, threw, crashed, hung}
use note_usb.Session.Handles.{ClaimLedger, claim_device-ClaimLedger}
use note_usb.Session.Key.{Advances, Ends, read_key-Ends}
use note_usb.Session.Messages.{
  device_id_of, claim_answer, handle_claim, enable_with, enable_key, handle_enable_encryption,
  dispatch, handle_message,
}

-- The call comes to an end: it returns, throws, or ends the process.
abbrev pub Terminates : {V : Type 0} → Ran Session × World V → Type 0
Terminates (returned s, w) = Unit {0}
Terminates (threw, w) = Unit {0}
Terminates (crashed, w) = Unit {0}
Terminates (hung, w) = ⊥

module _ (env : Env) (advances : (v : env.Value) → Advances env v) where
  claim_answer-Terminates :
      (s : Session) (id : Text) (w0 : World env.Value) (r : Ran (Error × Session) × World env.Value)
      → ClaimLedger 0 s w0 r
      → Terminates (claim_answer env id r.0 r.1)
  unfolding claim_answer
  claim_answer-Terminates s id w0 (returned (e, s'), w) l = tt
  claim_answer-Terminates s id w0 (crashed, w) l = tt
  claim_answer-Terminates s id w0 (threw, w) l = absurd l
  claim_answer-Terminates s id w0 (hung, w) l = absurd l

  handle_claim-Terminates :
      (s : Session) (msg : env.Object) (w : World env.Value) → Terminates (handle_claim env s msg w)
  unfolding handle_claim
  handle_claim-Terminates s msg w =
      let id = device_id_of env msg in
      both_branches Terminates (is_empty id) _ _ w tt
        (claim_answer-Terminates s id w _ (claim_device-ClaimLedger env 0 s id w))

  enable_with-Terminates :
      (s : Session) (id : Text) (key : Ran Text) (w : World env.Value)
      → Ends env key
      → Terminates (enable_with env s id key w)
  unfolding enable_with
  enable_with-Terminates s id (returned key) w h = tt
  enable_with-Terminates s id threw w h = tt
  enable_with-Terminates s id crashed w h = tt
  enable_with-Terminates s id hung w h = h

  enable_key-Terminates :
      (s : Session) (id : Text) (v : Option env.Value) (w : World env.Value)
      → Terminates (enable_key env s id v w)
  unfolding enable_key
  enable_key-Terminates s id none w = tt
  enable_key-Terminates s id (some v) w =
      both_branches Terminates (env.is_byte_array v) _ _ w
        (enable_with-Terminates s id _ w
          (read_key-Ends env (env.data_size v) v 0 [] (advances v) (omega arith)))
        tt

  handle_enable_encryption-Terminates :
      (s : Session) (msg : env.Object) (w : World env.Value)
      → Terminates (handle_enable_encryption env s msg w)
  unfolding handle_enable_encryption
  handle_enable_encryption-Terminates s msg w =
      let id = device_id_of env msg in
      both_branches Terminates (is_empty id) _ _ w tt
        (enable_key-Terminates s id (env.get msg Field.key) w)

  dispatch-Terminates :
      (s : Session) (msg : env.Object) (v : env.Value) (w : World env.Value)
      → Terminates (dispatch env s msg v w)
  unfolding dispatch
  dispatch-Terminates s msg v w = branch Message.hello _ _ tt (
      branch Message.request_discovery _ _ tt (
        branch Message.claim_item _ _ (handle_claim-Terminates s msg w) (
          branch Message.release_item _ _ tt (
            branch Message.resume _ _ tt (
              branch Message.enable_encryption _ _ (handle_enable_encryption-Terminates s msg w)
                (branch Message.disable_encryption _ _ tt (branch Message.shutdown _ _ tt tt)))))))
    where
      branch :
          (m : Message) (f g : Act env.Value (Ran Session))
          → Terminates (f w)
          → Terminates (g w)
          → Terminates ((if env.equals v m then f else g) w)
      branch m f g a b = both_branches Terminates (env.equals v m) f g w a b

  -- If reading an element moves the offset, the handling of a message comes to an end.
  pub handle_message-Terminates :
      (s : Session) (msg : env.Object) (w : World env.Value)
      → Terminates (handle_message env s msg w)
  unfolding handle_message
  handle_message-Terminates s msg w = elim (Option-cases (env.get msg Field.event)) [
    | inl n ↦ rw (n, handle_message) tt
    | inr (v, f) ↦
        rw (f, handle_message)
          (both_branches Terminates (env.is_empty_string v) _ _ w tt
            (dispatch-Terminates s msg v w))
  ]
