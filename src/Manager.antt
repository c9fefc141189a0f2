-- ===== src/Manager.antt =====
-- SessionManager (include/note_usb/session_manager.h): the singleton that knows every session by
-- a key and writes to its management socket. Each call holds its mutex to the end.
-- `msg.serialize_with_header()` is NoteBytes'; the message stands for its bytes.
pub mod Laws
use note_usb.Shared.{
  ℕ, Bool, true, false, not, Option, none, some, List, [], ◌∷◌, ℤ, negsuc, int_key, if◌then◌else◌,
  length,
}
use note_usb.Shared.Map.{Map, lookup, modify, erase, emplace}
use note_usb.Protocol.{Response}
use note_usb.Platform.{Env, World, SessionEntry, Act, ◌>>=◌, ◌>>◌, pure, ask, broadcast}

abbrev pub Sessions : Type 0
Sessions = Map ℤ SessionEntry

-- The constructor of SessionEntry.
unfoldable pub new_entry : ℤ → ℤ → Option ℕ → SessionEntry
new_entry pid fd session = record {
  client_pid = pid;
  management_fd = fd;
  is_active = true;
  session = session;
}

abbrev pub deactivate : SessionEntry → SessionEntry
deactivate e = record e { is_active = false }

module _ (env : Env) where
  abbrev V : Type 0
  V = env.Value

  abbrev get_sessions : Act V Sessions
  get_sessions w = (w.sessions, w)

  abbrev set_sessions : Sessions → Act V (Unit {0})
  set_sessions s w = (tt, record w { sessions = s })

  unfoldable pub register_session : ℤ → ℤ → Option ℕ → Act V (Unit {0})
  unfolding new_entry emplace
  register_session pid fd session = do
    sessions ← get_sessions
    set_sessions (emplace pid (new_entry pid fd session) sessions)

  unfoldable pub update_session : ℤ → Option ℕ → Act V (Unit {0})
  unfolding modify
  update_session pid session = do
    sessions ← get_sessions
    set_sessions (modify pid (λ e. record e { session = session }) sessions)

  unfoldable pub unregister_session : ℤ → Act V (Unit {0})
  unfolding erase
  unregister_session pid = do sessions ← get_sessions; set_sessions (erase pid sessions)

  -- `write_bytes`: false if `::write` failed.
  unfoldable pub write_bytes : ℤ → Response V → Act V Bool
  write_bytes fd msg = ask (λ h. env.write_ok h fd) (broadcast fd msg)

  -- One entry of the loop.
  unfoldable pub broadcast_to : SessionEntry → Response V → Act V SessionEntry
  unfolding write_bytes
  broadcast_to e msg =
      if e.is_active
      then (do sent ← write_bytes e.management_fd msg; pure (if sent then e else deactivate e))
      else pure e

  unfoldable pub broadcast_loop : Sessions → Response V → Act V Sessions
  unfolding broadcast_to
  broadcast_loop [] msg = pure []
  broadcast_loop ((pid, e) ∷ rest) msg = do
    e' ← broadcast_to e msg
    rest' ← broadcast_loop rest msg
    pure ((pid, e') ∷ rest')

  unfoldable pub broadcast_to_all : Response V → Act V (Unit {0})
  unfolding broadcast_loop
  broadcast_to_all msg = do
    sessions ← get_sessions
    sessions' ← broadcast_loop sessions msg
    set_sessions sessions'

  -- The part of `send_to_session` behind the two tests.
  unfoldable pub send_to_entry : ℤ → SessionEntry → Response V → Act V Bool
  unfolding write_bytes modify
  send_to_entry pid e msg = do
    sent ← write_bytes e.management_fd msg
    sessions ← get_sessions
    set_sessions (if sent then sessions else modify pid deactivate sessions)
    pure sent

  unfoldable pub send_to_session : ℤ → Response V → Act V Bool
  unfolding send_to_entry lookup
  send_to_session pid msg = do
    sessions ← get_sessions
    elim (lookup pid sessions) [
      | none ↦ pure false
      | some e ↦ if e.is_active then send_to_entry pid e msg else pure false
    ]

  unfoldable pub session_count : Act V ℕ
  session_count w = (length w.sessions, w)

  unfoldable pub is_active : ℤ → Act V Bool
  unfolding lookup
  is_active pid w = (elim (lookup pid w.sessions) [ none ↦ false | some e ↦ e.is_active ], w)

  unfoldable pub get_management_fd : ℤ → Act V ℤ
  unfolding lookup
  get_management_fd pid w =
      (elim (lookup pid w.sessions) [ none ↦ negsuc 0 | some e ↦ e.management_fd ], w)
