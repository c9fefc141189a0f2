-- ===== src/Session/Live/Laws.antt =====
-- What the life of a session leaves behind: handles, streams, entries of the SessionManager.
use note_usb.Shared.{
  ℕ, zero, suc, ◌≡◌, refl, ◌∙◌, true, false, Option, none, some, List, arith, Text, is_empty,
  Bool-cases, Option-cases, inl, inr,
}
use note_usb.Platform.{Env, World, Handle, both_branches}
use note_usb.Handler.Handles.{opens, closes, Quiet}
use note_usb.Session.{Session, Ran, returned, threw, crashed, hung}
use note_usb.Session.Lifecycle.{read_socket, unregister_from_hotplug}
use note_usb.Session.Live.{
  then_run, Live, discard, stop_streaming, read_live, start_running, start_session, destroy_session,
}
use note_usb.Streaming.{
  Report, ReportQueue, Stream, process_loop, process_hid_report, drain, drain_one, send_to_client,
  protect,
}
use note_usb.Session.Cipher.{encrypt_data}
use note_usb.Manager.{unregister_session}
use note_usb.Streaming.Capture.{destroy_stream, stop, joined, request_stop, finish_stop}

module _ (env : Env) (q : ReportQueue) where
  -- A session that was returned has no streaming thread.
  abbrev pub NoStream : Ran (Live env q) → Type 0
  NoStream (returned l) = l.streaming ≡ none
  NoStream other = Unit

  read_live-NoStream :
      (l : Live env q) (arriving : List env.Object) (w : World env.Value)
      → l.streaming ≡ none
      → NoStream (read_live env q l arriving w).0
  unfolding read_live
  read_live-NoStream l arriving w n = kept (read_socket env l.session arriving w)
    where
      kept :
          (r : Ran Session × World env.Value)
          → NoStream (then_run r.0 (λ s w'. (returned (record l { session = s }), w')) r.1).0
      kept (returned s, w') = n
      kept (threw, w') = tt
      kept (crashed, w') = tt
      kept (hung, w') = tt

  -- A session that was made without a device id, as the module makes each, has no streaming thread
  -- when `start` returns, whatever messages arrive: a claim among them starts none.
  pub start_session-NoStream :
      (f : ℕ) (l : Live env q) (arriving : List env.Object) (w : World env.Value)
      → is_empty l.session.device_id ≡ true
      → l.streaming ≡ none
      → NoStream (start_session env q f l arriving w).0
  unfolding start_session start_running
  start_session-NoStream f l arriving w i n = elim (Bool-cases l.session.running) [
    | inl r ↦ rw (r, NoStream, start_session) n
    | inr r ↦
        rw (r, start_session)
          (rw (i, start_running)
            (read_live-NoStream
              (record l { session = record l.session { running = true; stop_requested = false } })
              arriving w n))
  ]

module _ (env : Env) (q : ReportQueue) (x : Handle) where
  abbrev Calm : {A : Type 0} → World env.Value → Ran A × World env.Value → Type 0
  Calm w r = Quiet x w r.1

  process_hid_report-Quiet :
      (s : Stream) (content : Text) (w : World env.Value)
      → Quiet x w (process_hid_report env s content w).1
  unfolding process_hid_report send_to_client protect encrypt_data opens closes
  process_hid_report-Quiet s content w = ground arith

  Quiet-trans : (w0 w1 w2 : World env.Value) → Quiet x w0 w1 → Quiet x w1 w2 → Quiet x w0 w2
  Quiet-trans w0 w1 w2 a b = (b.0 ∙ a.0, b.1 ∙ a.1)

  drain_one-Quiet :
      (s : Stream) (r : Report) (w : World env.Value) → Quiet x w (drain_one env q s r w).1
  unfolding drain_one
  drain_one-Quiet s r w =
      both_branches (λ t. Quiet x w t.1) r.is_sentinel _ _ w (refl, refl)
        (both_branches (λ t. Quiet x w t.1) (is_empty r.content) _ _ w (refl, refl)
          (process_hid_report-Quiet s r.content w))

  drain-Quiet :
      (f : ℕ) (s : Stream) (queue : q.Queue) (w : World env.Value)
      → Quiet x w (drain env q f s queue w).1
  unfolding drain
  drain-Quiet zero s queue w = (refl, refl)
  drain-Quiet (suc f) s queue w = elim (Option-cases (q.try_pop queue)) [
    | inl e ↦ rw (e, drain) (refl, refl)
    | inr ((r, queue'), e) ↦
        let t = drain_one env q s r w in
        rw (e, drain)
          (Quiet-trans w t.1 (drain env q f t.0 queue' t.1).1 (drain_one-Quiet s r w)
            (drain-Quiet f t.0 queue' t.1))
  ]

  process_loop-Quiet :
      (f : ℕ) (s : Stream) (queue : q.Queue) (w : World env.Value)
      → Quiet x w (process_loop env q f s queue w).1
  unfolding process_loop
  process_loop-Quiet zero s queue w = (refl, refl)
  process_loop-Quiet (suc f) s queue w = elim (Option-cases (q.try_pop queue)) [
    | inl e ↦ rw (e, process_loop) (refl, refl)
    | inr ((r, queue'), e) ↦
        let t = process_hid_report env s r.content w in
        rw (e, process_loop)
          (both_branches (λ u. Quiet x w u.1) r.is_sentinel _ _ w (drain-Quiet f s queue' w)
            (Quiet-trans w t.1 (process_loop env q f t.0 queue' t.1).1
              (process_hid_report-Quiet s r.content w) (process_loop-Quiet f t.0 queue' t.1)))
  ]

  joined-Quiet : (r : Ran (Stream × q.Queue)) (w : World env.Value) → Quiet x w (joined env q r w).1
  unfolding joined finish_stop opens closes
  joined-Quiet (returned (s, queue)) w = elim (Bool-cases s.has_transfer) [
    | inl e ↦ simp e (refl, refl)
    | inr e ↦ simp e (refl, refl)
  ]
  joined-Quiet threw w = (refl, refl)
  joined-Quiet crashed w = (refl, refl)
  joined-Quiet hung w = (refl, refl)

  request_stop-Quiet :
      (s : Stream) (queue : q.Queue) (w : World env.Value)
      → Quiet x w (request_stop env q s queue w).1
  unfolding request_stop opens closes
  request_stop-Quiet s queue w = elim (Bool-cases s.has_transfer) [
    | inl e ↦ simp e (refl, refl)
    | inr e ↦ simp e (refl, refl)
  ]

  stop-Quiet :
      (f : ℕ) (s : Stream) (queue : q.Queue) (w : World env.Value)
      → Quiet x w (stop env q f s queue w).1
  unfolding stop
  stop-Quiet f s queue w =
      let a = request_stop env q s queue w in
      let b = process_loop env q f a.0.0 a.0.1 a.1 in
      both_branches (λ u. Quiet x w u.1) s.running _ _ w
        (Quiet-trans w a.1 (joined env q b.0 b.1).1 (request_stop-Quiet s queue w) (
          Quiet-trans a.1 b.1 (joined env q b.0 b.1).1 (process_loop-Quiet f a.0.0 a.0.1 a.1)
            (joined-Quiet b.0 b.1)))
        (refl, refl)

  discard-Quiet :
      (f : ℕ) (old : Option (Stream × q.Queue)) (w : World env.Value)
      → Quiet x w (discard env q f old w).1
  unfolding discard destroy_stream
  discard-Quiet f none w = (refl, refl)
  discard-Quiet f (some (s, queue)) w = stop-Quiet f s queue w

  -- A call and what follows it.
  then_run-Quiet :
      {A B : Type 0} (w : World env.Value) (r : Ran A × World env.Value)
      (next : A → World env.Value → Ran B × World env.Value)
      → Quiet x w r.1
      → ((a : A) (w' : World env.Value) → Quiet x w' (next a w').1)
      → Quiet x w (then_run r.0 next r.1).1
  then_run-Quiet w (returned a, w') next p h = Quiet-trans w w' (next a w').1 p (h a w')
  then_run-Quiet w (threw, w') next p h = p
  then_run-Quiet w (crashed, w') next p h = p
  then_run-Quiet w (hung, w') next p h = p

  stop_streaming-Quiet :
      (f : ℕ) (l : Live env q) (w : World env.Value) → Quiet x w (stop_streaming env q f l w).1
  unfolding stop_streaming
  stop_streaming-Quiet f l w = stopping l.streaming
    where
      stopping :
          (old : Option (Stream × q.Queue))
          → Quiet x w
              ((elim old as (λ o. Ran (Live env q) × World env.Value) [
                | none ↦ (returned l, w)
                | some (s, queue) ↦
                    let stopped = stop env q f s queue w in
                    then_run stopped.0
                      (λ (s', queue') w'.
                        let gone = discard env q f (some (s', queue')) w' in
                        then_run gone.0
                          (λ _ w''. (returned (record l { streaming = none }), w''))
                          gone.1)
                      stopped.1
              ])).1
      stopping none = (refl, refl)
      stopping (some (s, queue)) =
          then_run-Quiet w (stop env q f s queue w) _ (stop-Quiet f s queue w)
            (λ (t : Stream × q.Queue) (w' : World env.Value).
              then_run-Quiet w' (discard env q f (some t) w') _ (discard-Quiet f (some t) w')
                (λ _ w''. (refl, refl)))

  -- The end of a session closes no handle, and opens none, whatever its streaming thread does: a
  -- device that the session holds stays open.
  pub destroy_session-Quiet :
      (f : ℕ) (l : Live env q) (w : World env.Value) → Quiet x w (destroy_session env q f l w).1
  unfolding destroy_session unregister_from_hotplug unregister_session
  destroy_session-Quiet f l w =
      let gone = unregister_from_hotplug env l.session w in
      let stopped = stop_streaming env q f l gone.1 in
      then_run-Quiet w stopped (λ l' w'. (returned tt, w'))
        (Quiet-trans w gone.1 stopped.1 (refl, refl) (stop_streaming-Quiet f l gone.1))
        (λ _ w'. (refl, refl))
