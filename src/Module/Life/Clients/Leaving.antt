-- ===== src/Module/Life/Clients/Leaving.antt =====
-- A client that comes and goes (src/module.cpp): the tables of NoteUSBModule and of SessionManager.
use note_usb.Shared.{
  ℕ, ◌≡◌, refl, sym, ap, ◌∙◌, none, some, [], ◌∷◌, ℤ, arith, int_key, int_eq, if◌then◌else◌,
}
use mathlib.Core.Path.{subst}
use mathlib.Core.Option
use note_usb.Shared.Map.{Map, lookup, erase, insert, modify, emplace}
use note_usb.Shared.Map.Laws.{lookup-insert, lookup-erase, lookup-modify, lookup-emplace, beq_refl}
use note_usb.Platform.{Env, World, spawned_session}
use note_usb.Handler.{success}
use note_usb.Manager.{new_entry, register_session, unregister_session}
use note_usb.Session.{Ran, returned, threw, crashed, hung}
use note_usb.Session.Lifecycle.{register_for_hotplug, unregister_from_hotplug}
use note_usb.Session.Live.{
  Live, new_session, create_session, stop_session, destroy_session, stop_streaming,
}
use note_usb.Streaming.{ReportQueue}
use note_usb.Module.Life.{NoteUsbModule}
use note_usb.Module.Life.Sessions.{Returns, then_run-Returns}
use note_usb.Module.Life.Clients.{handle_client, cleanup_client}

Returns-map :
    {V A : Type 0} (P Q : A → World V → Type 0) (r : Ran A × World V)
    → Returns P r
    → ((a : A) (w : World V) → P a w → Q a w)
    → Returns Q r
Returns-map P Q (returned a, w) p h = h a w p
Returns-map P Q (threw, w) p h = p
Returns-map P Q (crashed, w) p h = p
Returns-map P Q (hung, w) p h = p

module _ (env : Env) (q : ReportQueue) where
  abbrev fresh : ℤ → ℤ → Live env q
  fresh fd pid = record { session = new_session fd pid []; streaming = none }

  abbrev registered : ℤ → ℤ → ℕ → World env.Value → World env.Value
  registered fd pid this w =
      let w' = (register_for_hotplug env (new_session fd pid []) this w).1 in
      record w' { history = spawned_session pid ∷ w'.history }

  accepted_client :
      (m : NoteUsbModule env q) (fd pid : ℤ) (this : ℕ) (w : World env.Value)
      → lookup pid m.sessions ≡ none
      → handle_client env q m fd pid this w ≡ (
        (success, record m { sessions = insert pid (fresh fd pid) m.sessions }),
        registered fd pid this w,
      )
  unfolding handle_client create_session
  accepted_client m fd pid this w e = simp e refl

  -- A session without a streaming thread leaves, running or not.
  left_session :
      (f : ℕ) (l : Live env q) (streaming : l.streaming ≡ none) (w : World env.Value)
      → Returns
          (λ l' w'.
            (w' ≡ w) × ((l'.streaming ≡ none) × (l'.session.client_pid ≡ l.session.client_pid)))
          (stop_session env q f l w)
  unfolding stop_session stop_streaming
  left_session f l n w = ground (arith, n)

  destroyed_session :
      (f : ℕ) (l : Live env q) (w : World env.Value)
      → l.streaming ≡ none
      → destroy_session env q f l w ≡ (returned tt, (unregister_from_hotplug env l.session w).1)
  unfolding destroy_session stop_streaming
  destroyed_session f l w n = rw (n, stop_streaming) refl

  -- The client `pid` leaves, whatever its thread has made of the session `l`, short of a stream.
  left_client :
      (f : ℕ) (m : NoteUsbModule env q) (pid : ℤ) (l : Live env q) (w : World env.Value)
      → lookup pid m.sessions ≡ some l
      → l.streaming ≡ none
      → l.session.client_pid ≡ pid
      → Returns
          (λ m' w'. (m'.sessions ≡ erase pid m.sessions) × (w'.sessions ≡ erase pid w.sessions))
          (cleanup_client env q f m pid w)
  unfolding cleanup_client unregister_from_hotplug unregister_session
  left_client f m pid l w e n p =
      rw (e, cleanup_client)
        (then_run-Returns _ _ (stop_session env q f l w) _ (left_session f l n w)
          (λ l' w' k. rw (destroyed_session f l' w' k.1.0, k.0, k.1.1, p) (refl, refl)))

  -- What the module has under `j` afterwards, and what SessionManager has under `k`.
  abbrev pub Left :
      NoteUsbModule env q
      → World env.Value
      → ℤ
      → ℤ
      → ℕ
      → ℤ
      → ℤ
      → NoteUsbModule env q
      → World env.Value
      → Type 0
  Left m w fd pid this j k m' w' =
      (lookup j m'.sessions ≡ lookup j m.sessions)
      × (lookup k w'.sessions ≡ (
          if int_eq pid k
          then none
          else if int_eq fd k
          then some (Option.get_or (lookup fd w.sessions) (new_entry fd pid (some this)))
          else lookup k w.sessions))

  -- What a registration and the erasure behind it leave in SessionManager.
  left_entries :
      (fd pid : ℤ) (this : ℕ) (k : ℤ) (w : World env.Value)
      → lookup k (erase pid (registered fd pid this w).sessions) ≡ (
          if int_eq pid k
          then none
          else if int_eq fd k
          then some (Option.get_or (lookup fd w.sessions) (new_entry fd pid (some this)))
          else lookup k w.sessions)
  unfolding register_for_hotplug register_session new_session
  left_entries fd pid this k w = ground (
    arith,
    lookup-erase pid k (emplace fd (new_entry fd pid (some this)) w.sessions),
    lookup-emplace fd k (new_entry fd pid (some this)) w.sessions,
  )

  erased_back :
      (m : Map ℤ (Live env q)) (pid j : ℤ) (l l' : Live env q)
      → lookup pid m ≡ none
      → lookup j (erase pid (modify pid (λ _. l') (insert pid l m))) ≡ lookup j m
  erased_back m pid j l l' e = ground (
    arith,
    e,
    lookup-erase pid j (modify pid (λ _. l') (insert pid l m)),
    lookup-modify pid j (λ _. l') (insert pid l m),
    lookup-insert pid j l m,
    int_key.beq_iff pid j,
  )

  changed :
      (m : Map ℤ (Live env q)) (pid : ℤ) (l l' : Live env q)
      → lookup pid (modify pid (λ _. l') (insert pid l m)) ≡ some l'
  changed m pid l l' =
      lookup-modify pid pid (λ _. l') (insert pid l m)
      ∙ rw (beq_refl pid, lookup-insert pid pid l m, beq_refl pid) refl

  -- A client without a session comes and goes. Meanwhile its thread has made the session any session
  -- of this client without a streaming thread, running or not, and SessionManager has the
  -- entries that the registration left. Then `cleanup_client` returns, and the module's table of sessions is as
  -- before under every pid `j`. SessionManager has nothing under the client's pid; under the
  -- descriptor `fd`, if that is another number, it has the entry that stood there, or else one for
  -- the session that is destroyed; and every other entry is as before.
  pub cleanup_client-handle_client :
      (f : ℕ) (m : NoteUsbModule env q) (fd pid : ℤ) (this : ℕ) (l : Live env q) (j k : ℤ)
      (w w' : World env.Value)
      → lookup pid m.sessions ≡ none
      → l.streaming ≡ none
      → l.session.client_pid ≡ pid
      → w'.sessions ≡ (handle_client env q m fd pid this w).1.sessions
      → let m' = (handle_client env q m fd pid this w).0.1 in
        Returns
          (Left m w fd pid this j k)
          (cleanup_client env q f (record m' { sessions = modify pid (λ _. l) m'.sessions }) pid w')
  cleanup_client-handle_client f m fd pid this l j k w w' e n p t =
      let c = accepted_client m fd pid this w e in
      let m1 = record m { sessions = insert pid (fresh fd pid) m.sessions } in
      subst
        (λ m'. Returns (Left m w fd pid this j k) (
          cleanup_client env q f (record m' { sessions = modify pid (λ _. l) m'.sessions }) pid w'))
        (sym (ap (λ r. r.0.1) c))
        (Returns-map _ _
          (cleanup_client env q f (record m1 { sessions = modify pid (λ _. l) m1.sessions }) pid w')
          (left_client f (record m1 { sessions = modify pid (λ _. l) m1.sessions }) pid l w'
            (changed m.sessions pid (fresh fd pid) l) n p)
          (λ m' w'' h. (
            ap (lookup j) h.0 ∙ erased_back m.sessions pid j (fresh fd pid) l e,
            ap (lookup k) (h.1 ∙ ap (erase pid) (t ∙ ap (λ r. r.1.sessions) c))
                ∙ left_entries fd pid this k w,
          )))
