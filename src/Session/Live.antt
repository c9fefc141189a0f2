-- ===== src/Session/Live.antt =====
-- The life of a NoteUSBSession with its streaming thread (src/note_usb_session.cpp): construction,
-- start, stop, streaming, destruction.
pub mod Laws
use note_usb.Shared.{
  ℕ, Bool, true, false, Option, none, some, List, [], ◌∷◌, Text, is_empty, ℤ, if◌then◌else◌,
}
use note_usb.Protocol.{Error}
use note_usb.Platform.{Env, World, Act, ◌>>=◌, ◌>>◌, pure}
use note_usb.Usb.{Descriptor}
use note_usb.Session.{Session, Ran, returned, threw, crashed, hung, held_device, claim_device}
use note_usb.Session.Lifecycle.{register_for_hotplug, unregister_from_hotplug, read_socket}
use note_usb.Streaming.{ReportQueue, Stream}
use note_usb.Streaming.Capture.{new_stream, start, destroy_stream, stop}

-- What follows a call that may not return.
abbrev pub then_run :
    {V A B : Type 0} → Ran A → (A → World V → Ran B × World V) → World V → Ran B × World V
then_run (returned a) next w = next a w
then_run threw next w = (threw, w)
then_run crashed next w = (crashed, w)
then_run hung next w = (hung, w)

-- The fields of a new session.
unfoldable pub new_session : ℤ → ℤ → Text → Session
new_session fd pid id = record {
  client_fd = fd;
  client_pid = pid;
  running = false;
  stop_requested = false;
  device = none;
  device_id = id;
  encryption_enabled = false;
  encryption_key = [];
}

module _ (env : Env) (q : ReportQueue) where
  abbrev V : Type 0
  V = env.Value

  -- A session and its `streaming_thread_`, with the thread's queue.
  pub record Live : Type 0 where
    pub session : Session
    pub streaming : Option (Stream × q.Queue)

  -- The constructor; `this` is the session's address.
  unfoldable pub create_session : ℤ → ℤ → Text → ℕ → Act V Live
  unfolding new_session register_for_hotplug
  create_session fd pid id this = do
    register_for_hotplug env (new_session fd pid id) this
    pure (record { session = new_session fd pid id; streaming = none })

  -- `f` is the fuel of a process loop that a join waits for. `reset()`, or the old thread of an
  -- assignment: it is destroyed.
  unfoldable pub discard : ℕ → Option (Stream × q.Queue) → Act V (Ran (Unit {0}))
  unfolding destroy_stream
  discard f none = pure (returned tt)
  discard f (some (s, queue)) = destroy_stream env q f s queue

  unfoldable pub start_streaming : ℕ → Live → Act V (Ran Live)
  unfolding discard held_device new_stream start
  start_streaming f l w = elim (held_device l.session.device) [
    | none ↦ (returned l, w)
    | some held ↦
        let old = discard f l.streaming w in
        then_run old.0
          (λ _ w'.
            let started =
              start env (new_stream l.session.device_id l.session.client_fd (some l.session)) w' in
            (returned (record l { streaming = some (started.0, q.created) }), started.1))
          old.1
  ]

  unfoldable pub stop_streaming : ℕ → Live → Act V (Ran Live)
  unfolding discard stop
  stop_streaming f l w = elim l.streaming [
    | none ↦ (returned l, w)
    | some (s, queue) ↦
        let stopped = stop env q f s queue w in
        then_run stopped.0
          (λ (s', queue') w'.
            let gone = discard f (some (s', queue')) w' in
            then_run gone.0 (λ _ w''. (returned (record l { streaming = none }), w'')) gone.1)
          stopped.1
  ]

  -- The end of `start`.
  unfoldable pub read_live : Live → List env.Object → Act V (Ran Live)
  unfolding read_socket
  read_live l arriving w =
      let r = read_socket env l.session arriving w in
      then_run r.0 (λ s w'. (returned (record l { session = s }), w')) r.1

  -- What follows the claim in `start`.
  unfoldable pub start_claimed : ℕ → Live → List env.Object → Error × Session → Act V (Ran Live)
  unfolding start_streaming read_live
  start_claimed f l arriving (e, s) w =
      if env.failed e
      then (returned (record l { session = record s { running = false } }), w)
      else (let streaming = start_streaming f (record l { session = s }) w in
          then_run streaming.0 (λ l'. read_live l' arriving) streaming.1)

  -- `start` behind its test; `running_` is set.
  unfoldable pub start_running : ℕ → Live → List env.Object → Act V (Ran Live)
  unfolding start_claimed read_live claim_device
  start_running f l arriving w =
      if is_empty l.session.device_id
      then read_live l arriving w
      else (let claimed = claim_device env l.session l.session.device_id w in
          then_run claimed.0 (start_claimed f l arriving) claimed.1)

  unfoldable pub start_session : ℕ → Live → List env.Object → Act V (Ran Live)
  unfolding start_running
  start_session f l arriving w =
      if l.session.running
      then (returned l, w)
      else start_running f
          (record l { session = record l.session { running = true; stop_requested = false } })
          arriving w

  unfoldable pub stop_session : ℕ → Live → Act V (Ran Live)
  unfolding stop_streaming
  stop_session f l w =
      if l.session.running
      then stop_streaming f
          (record l { session = record l.session { running = false; stop_requested = true } }) w
      else (returned l, w)

  -- The destructor. Afterwards `streaming_thread_` is null, and nothing is left to destroy.
  unfoldable pub destroy_session : ℕ → Live → Act V (Ran (Unit {0}))
  unfolding stop_streaming unregister_from_hotplug
  destroy_session f l w =
      let gone = unregister_from_hotplug env l.session w in
      let stopped = stop_streaming f l gone.1 in
      then_run stopped.0 (λ l' w'. (returned tt, w')) stopped.1
