-- ===== src/Session/Keeps/Rule.antt =====
-- The rule of Keeps: handle_message and the reading loop of NoteUSBSession
-- (src/note_usb_session.cpp) keep what their parts keep.
use note_usb.Shared.{
  refl, true, false, Option, none, some, List, [], ◌∷◌, Text, is_empty, if◌then◌else◌, inl, inr,
  Option-cases,
}
use note_usb.Protocol.{Code, Error, Entry, Field, Message}
use note_usb.Platform.{Env, World, Act, both_branches, started_encryption, ended_encryption}
use note_usb.Session.{
  Session, Ran, returned, threw, crashed, hung, send_error, error_message, discover_devices,
  claim_device, release_device,
}
use note_usb.Session.Lifecycle.{read_on, read_socket}
use note_usb.Session.Messages.{
  device_id_of, handle_discover, claim_answer, handle_claim, handle_release, handle_resume,
  enable_with, enable_key, handle_enable_encryption, handle_disable_encryption, handle_shutdown,
  dispatch, handle_message,
}
use note_usb.Session.Cipher.{read_key}
use note_usb.Session.Keeps.{Outcome, ClaimOutcome, Keeps}

module _ (env : Env) where
  module _ (Q : Session → World env.Value → Type 0) (R : World env.Value → Type 0)
      (k : Keeps env Q R) where
    refused :
        (s : Session) (m : Message) (id : Text) (c : Code) (t : Text) (w : World env.Value)
        → Q s w
        → Q s (send_error env s (Entry.message m) id c t w).1
    unfolding send_error error_message
    refused s m id c t w p = k.sends s _ w refl p

    abbrev Plain : Session × World env.Value → Type 0
    Plain (s, w) = Q s w

    handle_discover-Keeps :
        (s : Session) (w : World env.Value) → Q s w → Plain (handle_discover env s w)
    unfolding handle_discover
    handle_discover-Keeps s w p =
        let r = discover_devices env s w in
        let q = k.discovers s w p in
        both_branches Plain (env.failed r.0.0) _ _ r.1 (refused r.0.1 _ _ _ _ r.1 q)
          (k.sends r.0.1 _ r.1 refl q)

    claim_answer-Keeps :
        (s0 : Session) (id : Text) (r : Ran (Error × Session)) (w : World env.Value)
        → ClaimOutcome Q R s0 (r, w)
        → Outcome Q R s0 (claim_answer env id r w)
    unfolding claim_answer
    claim_answer-Keeps s0 id (returned (e, s)) w p =
        both_branches Plain (env.failed e) _ _ w (refused s _ _ _ _ w p) (k.sends s _ w refl p)
    claim_answer-Keeps s0 id threw w p = p
    claim_answer-Keeps s0 id crashed w p = p
    claim_answer-Keeps s0 id hung w p = p

    handle_claim-Keeps :
        (s : Session) (msg : env.Object) (w : World env.Value)
        → Q s w
        → Outcome Q R s (handle_claim env s msg w)
    unfolding handle_claim
    handle_claim-Keeps s msg w p =
        let id = device_id_of env msg in
        let r = claim_device env s id w in
        both_branches (Outcome Q R s) (is_empty id) _ _ w (refused s _ _ _ _ w p)
          (claim_answer-Keeps s id r.0 r.1 (k.claims s id w p))

    handle_release-Keeps :
        (s : Session) (msg : env.Object) (w : World env.Value)
        → Q s w
        → Plain (handle_release env s msg w)
    unfolding handle_release
    handle_release-Keeps s msg w p =
        let r = release_device env s w in
        let q = k.releases s w p in
        both_branches Plain (is_empty (device_id_of env msg)) _ _ w (refused s _ _ _ _ w p) (
          both_branches Plain (env.failed r.0.0) _ _ r.1 (refused r.0.1 _ _ _ _ r.1 q)
            (k.sends r.0.1 _ r.1 refl q))

    handle_resume-Keeps :
        (s : Session) (msg : env.Object) (w : World env.Value)
        → Q s w
        → Plain (handle_resume env s msg w)
    unfolding handle_resume
    handle_resume-Keeps s msg w p =
        both_branches Plain (is_empty (env.get_string msg Field.device_id)) _ _ w
          (refused s _ _ _ _ w p) (k.sends s _ w refl p)

    enable_with-Keeps :
        (s : Session) (id : Text) (key : Ran Text) (w : World env.Value)
        → Q s w
        → Outcome Q R s (enable_with env s id key w)
    unfolding enable_with
    enable_with-Keeps s id (returned key) w p =
        let w1 = record w { history = started_encryption id key ∷ w.history } in
        let q = k.starts_encryption s id key w p in
        both_branches Plain (env.failed (env.init_encryption w.history id key)) _ _ w1
          (refused s _ _ _ _ w1 q)
          (k.sends (record s { encryption_enabled = true; encryption_key = key }) _ w1 refl
            (k.rekeys s true key w1 q))
    enable_with-Keeps s id threw w p = p
    enable_with-Keeps s id crashed w p = k.gives_up s w p
    enable_with-Keeps s id hung w p = k.gives_up s w p

    enable_key-Keeps :
        (s : Session) (id : Text) (v : Option env.Value) (w : World env.Value)
        → Q s w
        → Outcome Q R s (enable_key env s id v w)
    unfolding enable_key
    enable_key-Keeps s id none w p = refused s _ _ _ _ w p
    enable_key-Keeps s id (some v) w p =
        both_branches (Outcome Q R s) (env.is_byte_array v) _ _ w
          (enable_with-Keeps s id (read_key env (env.data_size v) v 0 []) w p)
          (refused s _ _ _ _ w p)

    handle_enable_encryption-Keeps :
        (s : Session) (msg : env.Object) (w : World env.Value)
        → Q s w
        → Outcome Q R s (handle_enable_encryption env s msg w)
    unfolding handle_enable_encryption
    handle_enable_encryption-Keeps s msg w p =
        both_branches (Outcome Q R s) (is_empty (device_id_of env msg)) _ _ w
          (refused s _ _ _ _ w p)
          (enable_key-Keeps s (device_id_of env msg) (env.get msg Field.key) w p)

    handle_disable_encryption-Keeps :
        (s : Session) (msg : env.Object) (w : World env.Value)
        → Q s w
        → Plain (handle_disable_encryption env s msg w)
    unfolding handle_disable_encryption
    handle_disable_encryption-Keeps s msg w p =
        let id = device_id_of env msg in
        let w1 = record w { history = ended_encryption id ∷ w.history } in
        both_branches Plain (is_empty id) _ _ w (refused s _ _ _ _ w p) (
          k.sends (record s { encryption_key = []; encryption_enabled = false }) _ w1 refl
            (k.rekeys s false [] w1 (k.ends_encryption s id w p)))

    handle_shutdown-Keeps :
        (s : Session) (w : World env.Value) → Q s w → Plain (handle_shutdown env s w)
    unfolding handle_shutdown
    handle_shutdown-Keeps s w p = k.shuts_down s _ (k.sends s _ w refl p)

    dispatch-Keeps :
        (s : Session) (msg : env.Object) (v : env.Value) (w : World env.Value)
        → Q s w
        → Outcome Q R s (dispatch env s msg v w)
    unfolding dispatch send_error error_message
    dispatch-Keeps s msg v w p = branch Message.hello _ _ (k.sends s _ w refl p) (
        branch Message.request_discovery _ _ (handle_discover-Keeps s w p) (
          branch Message.claim_item _ _ (handle_claim-Keeps s msg w p) (
            branch Message.release_item _ _ (handle_release-Keeps s msg w p) (
              branch Message.resume _ _ (handle_resume-Keeps s msg w p) (
                branch Message.enable_encryption _ _ (handle_enable_encryption-Keeps s msg w p) (
                  branch Message.disable_encryption _ _ (handle_disable_encryption-Keeps s msg w p)
                    (branch Message.shutdown _ _ (handle_shutdown-Keeps s w p)
                      (k.sends s _ w refl p))))))))
      where
        branch :
            (m : Message) (f g : Act env.Value (Ran Session))
            → Outcome Q R s (f w)
            → Outcome Q R s (g w)
            → Outcome Q R s ((if env.equals v m then f else g) w)
        branch m f g a b = both_branches (Outcome Q R s) (env.equals v m) f g w a b

    -- The rule for a message.
    pub handle_message-Keeps :
        (s : Session) (msg : env.Object) (w : World env.Value)
        → Q s w
        → Outcome Q R s (handle_message env s msg w)
    unfolding handle_message
    handle_message-Keeps s msg w p = elim (Option-cases (env.get msg Field.event)) [
      | inl n ↦ rw (n, handle_message) (refused s _ _ _ _ w p)
      | inr (v, f) ↦
          rw (f, handle_message)
            (both_branches (Outcome Q R s) (env.is_empty_string v) _ _ w (refused s _ _ _ _ w p)
              (dispatch-Keeps s msg v w p))
    ]

    read_on-Keeps :
        (s0 : Session) (rest : Session → Act env.Value (Ran Session)) (s : Session)
        (r : Ran Session × World env.Value)
        → Outcome Q R s r
        → ((s' : Session) (w' : World env.Value) → Q s' w' → Outcome Q R s0 (rest s' w'))
        → Outcome Q R s0 (read_on env rest s r.0 r.1)
    unfolding read_on
    read_on-Keeps s0 rest s (returned s', w') p h = h s' w' p
    read_on-Keeps s0 rest s (threw, w') p h = p
    read_on-Keeps s0 rest s (crashed, w') p h = p
    read_on-Keeps s0 rest s (hung, w') p h = p

    -- The rule for the reading loop, which throws nothing.
    pub read_socket-Keeps :
        (s0 s : Session) (arriving : List env.Object) (w : World env.Value)
        → Q s w
        → Outcome Q R s0 (read_socket env s arriving w)
    unfolding read_socket
    read_socket-Keeps s0 s [] w p = p
    read_socket-Keeps s0 s (msg ∷ arriving) w p =
        both_branches (Outcome Q R s0) s.stop_requested _ _ w p (
          read_on-Keeps s0 (λ s'. read_socket env s' arriving) s (handle_message env s msg w)
            (handle_message-Keeps s msg w p) (λ s' w' p'. read_socket-Keeps s0 s' arriving w' p'))
