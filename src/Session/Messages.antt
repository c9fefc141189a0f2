-- ===== src/Session/Messages.antt =====
-- NoteUSBSession::handle_message and its handlers (src/note_usb_session.cpp).
use note_usb.Shared.{
  true, false, Option, none, some, [], ◌∷◌, ◌++◌, Text, codes, is_empty, if◌then◌else◌,
}
use note_usb.Protocol.{
  Field, Message, Code, Error, Entry, Response, scalar, message, echo, objects, text,
}
use note_usb.Platform.{
  Env, Act, ◌>>=◌, ◌>>◌, pure, note, query, started_encryption, ended_encryption,
}
use note_usb.Usb.{Descriptor, to_notebytes}
use note_usb.Session.Cipher.{read_key}
use note_usb.Session.{
  Session, Ran, returned, threw, crashed, hung, send_response, send_error, discover_devices,
  claim_device, release_device,
}

module _ (env : Env) where
  abbrev V : Type 0
  V = env.Value

  -- `device_id_val ? device_id_val->as_string() : ""`
  unfoldable pub device_id_of : env.Object → Text
  device_id_of msg = elim (env.get msg Field.device_id) [ none ↦ [] | some v ↦ env.as_string v ]

  abbrev refuse : Session → Message → Text → Code → Text → Act V Session
  refuse s event id c m = do send_error env s (Entry.message event) id c m; pure s

  abbrev device_objects : Option Descriptor → Entry V
  device_objects none = objects []
  device_objects (some d) = objects (to_notebytes d ∷ [])

  unfoldable pub handle_discover : Session → Act V Session
  unfolding to_notebytes
  handle_discover s = do
    found ← discover_devices env s
    let (e, s') = found
    if env.failed e then refuse s' Message.item_list [] e.code e.message else (do
      send_response env s' (
          (Field.event, Entry.message Message.item_list)
          ∷ (Field.items, device_objects s'.device)
          ∷ [])
      pure s')

  -- The reply that a handler ends with: the event, the id, and "claimed", "ok" or the like.
  abbrev reply : Message → Text → Entry V → Response V
  reply event id status =
      (Field.event, Entry.message event)
      ∷ (Field.device_id, scalar (text id))
      ∷ (Field.status, status)
      ∷ []

  abbrev answer : Session → Response V → Act V Session
  answer s msg = do send_response env s msg; pure s

  -- What follows the call of `claim_device`.
  unfoldable pub claim_answer : Text → Ran (Error × Session) → Act V (Ran Session)
  claim_answer id (returned (e, s)) = do
    s' ←
        if env.failed e
        then refuse s Message.item_claimed id e.code e.message
        else answer s (reply Message.item_claimed id (scalar (text (codes "claimed"))))
    pure (returned s')
  claim_answer id threw = pure threw
  claim_answer id crashed = pure crashed
  claim_answer id hung = pure hung

  unfoldable pub handle_claim : Session → env.Object → Act V (Ran Session)
  unfolding device_id_of claim_answer
  handle_claim s msg =
      let id = device_id_of msg in
      if is_empty id
      then (do
        s' ← refuse s Message.item_claimed [] Code.invalid_message (codes "Missing DEVICE_ID field")
        pure (returned s'))
      else (do r ← claim_device env s id; claim_answer id r)

  unfoldable pub handle_release : Session → env.Object → Act V Session
  unfolding device_id_of
  handle_release s msg =
      let id = device_id_of msg in
      if is_empty id
      then refuse s Message.item_released [] Code.invalid_message (codes "Missing DEVICE_ID field")
      else (do
        r ← release_device env s
        let (e, s') = r
        if env.failed e
            then refuse s' Message.item_released id e.code e.message
            else answer s' (reply Message.item_released id (message Message.success_status)))

  -- `processed_count` is only logged.
  unfoldable pub handle_resume : Session → env.Object → Act V Session
  handle_resume s msg =
      let id = env.get_string msg Field.device_id in
      if is_empty id
      then refuse s Message.resume [] Code.invalid_message (codes "Missing DEVICE_ID field")
      else answer s (reply Message.resume id (scalar (text (codes "ok"))))

  -- What follows the extraction of the key.
  unfoldable pub enable_with : Session → Text → Ran Text → Act V (Ran Session)
  enable_with s id (returned key) = do
    e ← query (λ h. env.init_encryption h id key)
    note (started_encryption id key)
    s' ←
        if env.failed e
        then refuse s Message.enable_encryption id e.code e.message
        else (let s' = record s { encryption_enabled = true; encryption_key = key } in
            answer s' (reply Message.encryption_ready id (message Message.success_status)))
    pure (returned s')
  enable_with s id threw = pure threw
  enable_with s id crashed = pure crashed
  enable_with s id hung = pure hung

  unfoldable pub enable_key : Session → Text → Option V → Act V (Ran Session)
  unfolding enable_with read_key
  enable_key s id none = do
    s' ← refuse s Message.enable_encryption id Code.invalid_message (codes "Missing KEY field")
    pure (returned s')
  enable_key s id (some v) =
      if env.is_byte_array v then enable_with s id (read_key env (env.data_size v) v 0 []) else (do
        s' ←
            refuse s Message.enable_encryption id Code.invalid_message
              (codes "KEY must be an array of bytes")
        pure (returned s'))

  unfoldable pub handle_enable_encryption : Session → env.Object → Act V (Ran Session)
  unfolding device_id_of enable_key
  handle_enable_encryption s msg =
      let id = device_id_of msg in
      if is_empty id
      then (do
        s' ←
            refuse s Message.enable_encryption [] Code.invalid_message
              (codes "Missing DEVICE_ID field")
        pure (returned s'))
      else enable_key s id (env.get msg Field.key)

  unfoldable pub handle_disable_encryption : Session → env.Object → Act V Session
  unfolding device_id_of
  handle_disable_encryption s msg =
      let id = device_id_of msg in
      if is_empty id
      then refuse s Message.disable_encryption [] Code.invalid_message
          (codes "Missing DEVICE_ID field")
      else (do
        note (ended_encryption id)
        let s' = record s { encryption_key = []; encryption_enabled = false }
        answer s' (reply Message.enable_encryption id (message Message.success_status)))

  abbrev plainly : Act V Session → Act V (Ran Session)
  plainly m = do s ← m; pure (returned s)

  unfoldable pub handle_shutdown : Session → Act V Session
  handle_shutdown s = do
    send_response env s
        ((Field.event, message Message.shutdown) ∷ (Field.status, scalar (text (codes "ok"))) ∷ [])
    pure (record s { stop_requested = true })

  -- The branch for an event that is there.
  unfoldable pub dispatch : Session → env.Object → V → Act V (Ran Session)
  unfolding handle_discover handle_claim handle_release handle_resume handle_enable_encryption
      handle_disable_encryption handle_shutdown
  dispatch s msg v =
      if env.equals v Message.hello
      then plainly (
          answer s (
            (Field.event, message Message.accept)
            ∷ (Field.status, scalar (text (codes "accepted")))
            ∷ []))
      else if env.equals v Message.request_discovery
      then plainly (handle_discover s)
      else if env.equals v Message.claim_item
      then handle_claim s msg
      else if env.equals v Message.release_item
      then plainly (handle_release s msg)
      else if env.equals v Message.resume
      then plainly (handle_resume s msg)
      else if env.equals v Message.enable_encryption
      then handle_enable_encryption s msg
      else if env.equals v Message.disable_encryption
      then plainly (handle_disable_encryption s msg)
      else if env.equals v Message.shutdown
      then plainly (handle_shutdown s)
      else plainly (do
        send_error env s (echo v) [] Code.invalid_message
            (codes "Unknown event type: " ++ env.as_string v)
        pure s)

  abbrev no_event : Session → Act V (Ran Session)
  no_event s = plainly (
      refuse s Message.error_event [] Code.invalid_message
        (codes "Message missing required EVENT field"))

  unfoldable pub handle_message : Session → env.Object → Act V (Ran Session)
  unfolding dispatch
  handle_message s msg = elim (env.get msg Field.event) [
    | none ↦ no_event s
    | some v ↦ if env.is_empty_string v then no_event s else dispatch s msg v
  ]
