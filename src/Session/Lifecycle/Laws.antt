-- ===== src/Session/Lifecycle/Laws.antt =====
-- What a session leaves in the SessionManager, and how often it answers.
use note_usb.Shared.{
  ℕ, suc, ◌+◌, ◌≤◌, ◌≡◌, ap, none, some, List, [], ◌∷◌, arith, ℤ, int_eq, int_key, if◌then◌else◌,
  length,
}
use note_usb.Shared.Map.{lookup, emplace}
use note_usb.Shared.Map.Laws.{lookup-emplace, lookup-erase}
use mathlib.Core.Option
use note_usb.Platform.{Env, World, Act, both_branches}
use note_usb.Manager.{new_entry, register_session, unregister_session}
use note_usb.Session.{Session, Ran, returned, threw, crashed, hung}
use note_usb.Session.Messages.{handle_message}
use note_usb.Session.Replies.{count_replies, IsOpen, OnceIfReturned}
use note_usb.Session.Replies.Messages.{handle_message-OnceIfReturned}
use note_usb.Session.Lifecycle.{register_for_hotplug, unregister_from_hotplug, read_on, read_socket}

module _ (env : Env) where
  -- A session that registers and then unregisters takes away what stood under its pid, and leaves an
  -- entry under its descriptor: the one that stood there, or one with the two numbers exchanged.
  pub unregister_from_hotplug-register_for_hotplug :
      (s : Session) (this : ℕ) (j : ℤ) (w : World env.Value)
      → let w' = (unregister_from_hotplug env s (register_for_hotplug env s this w).1).1 in
        lookup j w'.sessions ≡ (
          if int_eq s.client_pid j
          then none
          else if int_eq s.client_fd j
          then some (
              Option.get_or
                (lookup s.client_fd w.sessions)
                (new_entry s.client_fd s.client_pid (some this)))
          else lookup j w.sessions)
  unfolding unregister_from_hotplug register_for_hotplug register_session unregister_session
  unregister_from_hotplug-register_for_hotplug s this j w = ground (
    arith,
    lookup-erase s.client_pid j
        (emplace s.client_fd (new_entry s.client_fd s.client_pid (some this)) w.sessions),
    lookup-emplace s.client_fd j (new_entry s.client_fd s.client_pid (some this)) w.sessions,
  )

-- At most `n` messages were handed to the socket.
abbrev pub AtMost : {V : Type 0} → ℤ → ℕ → World V → Type 0
AtMost fd n w = count_replies fd w ≤ n

module _ (env : Env) (fd : ℤ) (open_socket : IsOpen env fd) where
  -- One answer at most, and what the rest of the loop adds.
  read_on-AtMost :
      (rest : Session → Act env.Value (Ran Session)) (s : Session) (k : ℕ) (w : World env.Value)
      (r : Ran Session × World env.Value)
      → OnceIfReturned fd w r
      → ((s' : Session) (w' : World env.Value)
          → s'.client_fd ≡ fd
          → AtMost fd (count_replies fd w' + k) (rest s' w').1)
      → AtMost fd (count_replies fd w + suc k) (read_on env rest s r.0 r.1).1
  unfolding read_on
  read_on-AtMost rest s k w (returned s', w') o h = omega (arith, o.1, h s' w' o.0)
  read_on-AtMost rest s k w (threw, w') o h = omega (arith, ap length o)
  read_on-AtMost rest s k w (crashed, w') o h = omega (arith, ap length o)
  read_on-AtMost rest s k w (hung, w') o h = omega (arith, ap length o)

  -- On a socket that is open and that `poll` accepts: the reading loop hands over at most one answer
  -- for each message that arrives.
  pub read_socket-AtMost :
      (s : Session) (arriving : List env.Object) (w : World env.Value)
      → s.client_fd ≡ fd
      → AtMost fd (count_replies fd w + length arriving) (read_socket env s arriving w).1
  unfolding read_socket
  read_socket-AtMost s [] w e = omega arith
  read_socket-AtMost s (msg ∷ arriving) w e =
      both_branches (λ r. AtMost fd (count_replies fd w + suc (length arriving)) r.1)
        s.stop_requested _ _ w (omega arith)
        (read_on-AtMost (λ s'. read_socket env s' arriving) s (length arriving) w
          (handle_message env s msg w) (handle_message-OnceIfReturned env fd open_socket w s msg e)
          (λ s' w' e'. read_socket-AtMost s' arriving w' e'))
