-- ===== src/Session/Lifecycle.antt =====
-- NoteUSBSession's hotplug registration and its reading loop (src/note_usb_session.cpp).
pub mod Laws
use note_usb.Shared.{Bool, true, false, Option, none, some, List, [], ◌∷◌, if◌then◌else◌, ℕ}
use note_usb.Platform.{Env, Act, ◌>>=◌, pure}
use note_usb.Manager.{register_session, unregister_session}
use note_usb.Session.{Session, Ran, returned, threw, crashed, hung}
use note_usb.Session.Messages.{handle_message}

module _ (env : Env) where
  abbrev V : Type 0
  V = env.Value

  -- `this` is the session's address.
  unfoldable pub register_for_hotplug : Session → ℕ → Act V (Unit {0})
  unfolding register_session
  register_for_hotplug s this = register_session env s.client_fd s.client_pid (some this)

  unfoldable pub unregister_from_hotplug : Session → Act V (Unit {0})
  unfolding unregister_session
  unregister_from_hotplug s = unregister_session env s.client_pid

  -- What follows a message. An exception ends the loop; what throws is `read_from`, before the
  -- session is changed.
  unfoldable pub read_on :
      (Session → Act V (Ran Session)) → Session → Ran Session → Act V (Ran Session)
  read_on rest s (returned s') = rest s'
  read_on rest s threw = pure (returned s)
  read_on rest s crashed = pure crashed
  read_on rest s hung = pure hung

  -- The loop, over the objects that arrive; behind the last one the read throws. No other thread
  -- sets `stop_requested_` meanwhile.
  unfoldable pub read_socket : Session → List env.Object → Act V (Ran Session)
  unfolding handle_message read_on
  read_socket s [] = pure (returned s)
  read_socket s (msg ∷ arriving) =
      if s.stop_requested
      then pure (returned s)
      else (do r ← handle_message env s msg; read_on (λ s'. read_socket s' arriving) s r)
