-- ===== src/Module/Life/Clients.antt =====
-- The device sockets of NoteUSBModule (src/module.cpp): a session for each client, on a thread of its
-- own, and its end; and the requests of the management socket, on the module's handler.
pub mod Leaving
use note_usb.Shared.{
  ℕ, Bool, true, false, Option, none, some, List, [], ◌∷◌, ◌++◌, Text, codes, ℤ, int_key,
  if◌then◌else◌,
}
use note_usb.Shared.Map.{Map, lookup, has, insert, modify, erase}
use note_usb.Registry.Print.{to_string}
use note_usb.Protocol.{Code, Error}
use note_usb.Platform.{Env, World, Act, ◌>>=◌, ◌>>◌, pure, note, spawned_session}
use note_usb.Session.{Ran, returned, threw, crashed, hung}
use note_usb.Session.Live.{
  then_run, Live, create_session, start_session, stop_session, destroy_session,
}
use note_usb.Streaming.{ReportQueue}
use note_usb.Handler.{success, error_of}
use note_usb.Module.{handle_management_message}
use note_usb.Module.Life.{NoteUsbModule}

module _ (env : Env) (q : ReportQueue) where
  abbrev V : Type 0
  V = env.Value

  unfoldable pub manage :
      NoteUsbModule env q → env.Object → ℤ → ℤ → Act V (Error × NoteUsbModule env q)
  unfolding handle_management_message
  manage m msg fd pid = do
    (e, handler') ← handle_management_message env m.handler msg fd pid
    pure (e, record m { handler = handler' })

  -- The session's thread is started; `this` is the session's address.
  unfoldable pub handle_client :
      NoteUsbModule env q → ℤ → ℤ → ℕ → Act V (Error × NoteUsbModule env q)
  unfolding create_session insert lookup
  handle_client m fd pid this =
      if has pid m.sessions
      then pure (
        error_of Code.already_initialized
            (codes "Session already exists for pid=" ++ to_string pid),
        m,
      )
      else (do
        l ← create_session env q fd pid [] this
        note (spawned_session pid)
        pure (success, record m { sessions = insert pid l m.sessions }))

  -- The thread of the session `l` of the client `pid`: the objects that arrive on its socket, up to
  -- the end of `start`. It is detached and changes the session in place.
  unfoldable pub session_thread :
      ℕ → NoteUsbModule env q → ℤ → Live env q → List env.Object → Act V (Ran (NoteUsbModule env q))
  unfolding start_session modify
  session_thread f m pid l arriving w =
      let r = start_session env q f l arriving w in
      then_run r.0
        (λ l' w'. (returned (record m { sessions = modify pid (λ _. l') m.sessions }), w')) r.1

  unfoldable pub cleanup_client : ℕ → NoteUsbModule env q → ℤ → Act V (Ran (NoteUsbModule env q))
  unfolding lookup erase stop_session destroy_session
  cleanup_client f m pid w = elim (lookup pid m.sessions) [
    | none ↦ (returned m, w)
    | some l ↦
        let stopped = stop_session env q f l w in
        then_run stopped.0
          (λ l' w'.
            let gone = destroy_session env q f l' w' in
            then_run gone.0
              (λ _ w''. (returned (record m { sessions = erase pid m.sessions }), w'')) gone.1)
          stopped.1
  ]
