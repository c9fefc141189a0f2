-- ===== src/Session/Replies/Messages.antt =====
-- The number of answers of NoteUSBSession::handle_message (src/note_usb_session.cpp).
use note_usb.Shared.{
  suc, ◌≡◌, refl, ◌∙◌, Option, none, some, [], ◌∷◌, Text, is_empty, ℤ, if◌then◌else◌, inl, inr,
  Option-cases,
}
use mathlib.Core.Path.{subst}
use note_usb.Protocol.{Code, Error, Entry, Field, Message, Response}
use note_usb.Platform.{Env, World, Act, both_branches, started_encryption, ended_encryption}
use note_usb.Handler.Replies.{replies}
use note_usb.Session.{
  Session, Ran, returned, threw, crashed, hung, send_response, send_error, error_message,
  discover_devices, claim_device, release_device,
}
use note_usb.Session.Messages.{
  device_id_of, handle_discover, claim_answer, handle_claim, handle_release, handle_resume,
  enable_with, enable_key, handle_enable_encryption, handle_disable_encryption, handle_shutdown,
  dispatch, handle_message,
}
use note_usb.Session.Cipher.{read_key}
use note_usb.Session.Replies.{
  count_replies, Silent, IsOpen, Once, OnceIfReturned, send_response_once, discover_devices-Silent,
  claim_device-Silent, KeepsFd, claim_device-KeepsFd, release_device-Silent,
}

module _ (env : Env) (fd : ℤ) (open_socket : IsOpen env fd) (w0 : World env.Value) where
  -- A response of a session whose socket is `fd`.
  response_once :
      (s : Session) (msg : Response env.Value) (w : World env.Value)
      → s.client_fd ≡ fd
      → Silent fd w0 w
      → count_replies fd (send_response env s msg w).1 ≡ suc (count_replies fd w0)
  response_once s msg w e q =
      subst
        (λ f.
          IsOpen env f
          → Silent f w0 w
          → count_replies f (send_response env s msg w).1 ≡ suc (count_replies f w0))
        e (λ o q'. send_response_once env s msg w0 w o q') open_socket q

  error_once :
      (s : Session) (event : Entry env.Value) (id : Text) (c : Code) (m : Text)
      (w : World env.Value)
      → s.client_fd ≡ fd
      → Silent fd w0 w
      → count_replies fd (send_error env s event id c m w).1 ≡ suc (count_replies fd w0)
  error_once s event id c m w e q =
      unfold send_error in response_once s (error_message env event id c m) w e q

  handle_discover-Once : (s : Session) → s.client_fd ≡ fd → Once fd w0 (handle_discover env s w0)
  unfolding handle_discover
  handle_discover-Once s e =
      let r = discover_devices env s w0 in
      let q = discover_devices-Silent env s fd w0 in
      both_branches (Once fd w0) (env.failed r.0.0) _ _ r.1
        (q.1 ∙ e, error_once _ _ _ _ _ _ (q.1 ∙ e) q.0) (q.1 ∙ e, response_once _ _ _ (q.1 ∙ e) q.0)

  claim_answer_once :
      (s : Session) (id : Text) (r : Ran (Error × Session)) (w : World env.Value)
      → s.client_fd ≡ fd
      → KeepsFd env s r
      → Silent fd w0 w
      → OnceIfReturned fd w0 (claim_answer env id r w)
  unfolding claim_answer
  claim_answer_once s id (returned (x, s')) w e k q =
      both_branches (Once fd w0) (env.failed x) _ _ w (k ∙ e, error_once _ _ _ _ _ _ (k ∙ e) q)
        (k ∙ e, response_once _ _ _ (k ∙ e) q)
  claim_answer_once s id threw w e k q = q
  claim_answer_once s id crashed w e k q = q
  claim_answer_once s id hung w e k q = q

  handle_claim_once :
      (s : Session) (msg : env.Object)
      → s.client_fd ≡ fd
      → OnceIfReturned fd w0 (handle_claim env s msg w0)
  unfolding handle_claim
  handle_claim_once s msg e =
      let id = device_id_of env msg in
      let r = claim_device env s id w0 in
      both_branches (OnceIfReturned fd w0) (is_empty id) _ _ w0 (e, error_once s _ _ _ _ _ e refl)
        (claim_answer_once s id r.0 r.1 e (claim_device-KeepsFd env s id w0)
          (claim_device-Silent env s id fd w0))

  handle_release-Once :
      (s : Session) (msg : env.Object) → s.client_fd ≡ fd → Once fd w0 (handle_release env s msg w0)
  unfolding handle_release
  handle_release-Once s msg e =
      let r = release_device env s w0 in
      let q = release_device-Silent env s fd w0 in
      both_branches (Once fd w0) (is_empty (device_id_of env msg)) _ _ w0
        (e, error_once s _ _ _ _ _ e refl)
        (both_branches (Once fd w0) (env.failed r.0.0) _ _ r.1
          (q.1 ∙ e, error_once _ _ _ _ _ _ (q.1 ∙ e) q.0)
          (q.1 ∙ e, response_once _ _ _ (q.1 ∙ e) q.0))

  handle_resume-Once :
      (s : Session) (msg : env.Object) → s.client_fd ≡ fd → Once fd w0 (handle_resume env s msg w0)
  unfolding handle_resume
  handle_resume-Once s msg e =
      both_branches (Once fd w0) (is_empty (env.get_string msg Field.device_id)) _ _ w0
        (e, error_once s _ _ _ _ _ e refl) (e, response_once s _ _ e refl)

  started-Silent :
      (id key : Text) → replies fd (started_encryption id key ∷ w0.history) ≡ replies fd w0.history
  unfolding replies
  started-Silent id key = refl

  ended-Silent : (id : Text) → replies fd (ended_encryption id ∷ w0.history) ≡ replies fd w0.history
  unfolding replies
  ended-Silent id = refl

  enable_with_once :
      (s : Session) (id : Text) (key : Ran Text)
      → s.client_fd ≡ fd
      → OnceIfReturned fd w0 (enable_with env s id key w0)
  unfolding enable_with
  enable_with_once s id (returned key) e =
      both_branches (Once fd w0) (env.failed (env.init_encryption w0.history id key)) _ _ _
        (e, error_once s _ _ _ _ _ e (started-Silent id key))
        (e, response_once _ _ _ e (started-Silent id key))
  enable_with_once s id threw e = refl
  enable_with_once s id crashed e = refl
  enable_with_once s id hung e = refl

  enable_key_once :
      (s : Session) (id : Text) (v : Option env.Value)
      → s.client_fd ≡ fd
      → OnceIfReturned fd w0 (enable_key env s id v w0)
  unfolding enable_key
  enable_key_once s id none e = (e, error_once s _ _ _ _ _ e refl)
  enable_key_once s id (some v) e =
      both_branches (OnceIfReturned fd w0) (env.is_byte_array v) _ _ w0
        (enable_with_once s id (read_key env (env.data_size v) v 0 []) e)
        (e, error_once s _ _ _ _ _ e refl)

  handle_enable_encryption_once :
      (s : Session) (msg : env.Object)
      → s.client_fd ≡ fd
      → OnceIfReturned fd w0 (handle_enable_encryption env s msg w0)
  unfolding handle_enable_encryption
  handle_enable_encryption_once s msg e =
      both_branches (OnceIfReturned fd w0) (is_empty (device_id_of env msg)) _ _ w0
        (e, error_once s _ _ _ _ _ e refl)
        (enable_key_once s (device_id_of env msg) (env.get msg Field.key) e)

  handle_disable_encryption-Once :
      (s : Session) (msg : env.Object)
      → s.client_fd ≡ fd
      → Once fd w0 (handle_disable_encryption env s msg w0)
  unfolding handle_disable_encryption
  handle_disable_encryption-Once s msg e =
      both_branches (Once fd w0) (is_empty (device_id_of env msg)) _ _ w0
        (e, error_once s _ _ _ _ _ e refl)
        (e, response_once _ _ _ e (ended-Silent (device_id_of env msg)))

  dispatch_once :
      (s : Session) (msg : env.Object) (v : env.Value)
      → s.client_fd ≡ fd
      → OnceIfReturned fd w0 (dispatch env s msg v w0)
  unfolding dispatch
  dispatch_once s msg v e =
      branch Message.hello _ _ (e, response_once s _ _ e refl)
        (branch Message.request_discovery _ _ (handle_discover-Once s e) (
          branch Message.claim_item _ _ (handle_claim_once s msg e) (
            branch Message.release_item _ _ (handle_release-Once s msg e) (
              branch Message.resume _ _ (handle_resume-Once s msg e) (
                branch Message.enable_encryption _ _ (handle_enable_encryption_once s msg e) (
                  branch Message.disable_encryption _ _ (handle_disable_encryption-Once s msg e) (
                    branch Message.shutdown _ _
                      (e, unfold handle_shutdown in response_once s _ _ e refl)
                      (e, error_once s _ _ _ _ _ e refl))))))))
    where
      branch :
          (m : Message) (f g : Act env.Value (Ran Session))
          → OnceIfReturned fd w0 (f w0)
          → OnceIfReturned fd w0 (g w0)
          → OnceIfReturned fd w0 ((if env.equals v m then f else g) w0)
      branch m f g p q = both_branches (OnceIfReturned fd w0) (env.equals v m) f g w0 p q

  -- On a socket that is open and that `poll` accepts: if the handling of a message, known or not,
  -- returns, then exactly one message more was handed to the session's socket; if it throws,
  -- crashes or never ends, none was.
  pub handle_message-OnceIfReturned :
      (s : Session) (msg : env.Object)
      → s.client_fd ≡ fd
      → OnceIfReturned fd w0 (handle_message env s msg w0)
  unfolding handle_message
  handle_message-OnceIfReturned s msg e = elim (Option-cases (env.get msg Field.event)) [
    | inl n ↦ rw (n, handle_message) (e, error_once s _ _ _ _ _ e refl)
    | inr (v, f) ↦
        rw (f, handle_message)
          (both_branches (OnceIfReturned fd w0) (env.is_empty_string v) _ _ w0
            (e, error_once s _ _ _ _ _ e refl) (dispatch_once s msg v e))
  ]
