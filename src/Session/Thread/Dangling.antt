-- ===== src/Session/Thread/Dangling.antt =====
-- A session that is destroyed (cleanup_client of src/module.cpp) while its thread
-- (src/note_usb_session.cpp) is not over.
use note_usb.Shared.{
  ℕ, ◌≡◌, refl, ap, ◌∙◌, Bool, true, false, not, Option, none, some, List, [], ◌∷◌, arith, is_empty,
  ◌≤◌, ◌⊎◌, inl, inr,
}
use note_usb.Platform.{Env, World}
use note_usb.Session.{Session, Ran, returned, threw, crashed, hung}
use note_usb.Session.Messages.{handle_message}
use note_usb.Session.Live.{Live, stop_streaming, destroy_session}
use note_usb.Session.Keeps.{Outcome}
use note_usb.Session.Keeps.Frame.{Frame, handle_message-Frame}
use note_usb.Session.Key.{Advances}
use note_usb.Session.Thread.Stopped.{count_reads, run-stopped}
use note_usb.Session.Thread.{
  Reader, Stopper, State, handled, live_step, reader_step, live_stop, stream_joined, stop_step,
  is_over, erased, erase_session, Move, reads, stops, move, run,
}
use note_usb.Streaming.{ReportQueue}

-- The thread has used a session that was destroyed.
abbrev pub is_dangling : Reader → Bool
is_dangling Reader.dangling = true
is_dangling other = false

module _ (env : Env) (q : ReportQueue) where
  abbrev Idle : Option (Live env q) → Type 0
  Idle none = ⊥
  Idle (some l) = (l.streaming ≡ none) × (is_empty l.session.device_id ≡ true)

  -- The session is there, and it is one of the module's: without a device_id or a streaming thread.
  abbrev IsThere : State env q → Type 0
  IsThere s = Idle s.live × (is_dangling s.reader ≡ false)

  handled-IsThere :
      (l : Live env q) (r : Ran Session × World env.Value) (s : State env q)
      → Outcome (λ s' w. Frame l.session s') (λ w. Unit {0}) l.session r
      → Idle (some l)
      → IsThere (handled env q l r.0 r.1 (record s { live = some l }))
  unfolding handled
  handled-IsThere l (returned s', w) s p d = ((d.0, ap is_empty p.2 ∙ d.1), refl)
  handled-IsThere l (threw, w) s p d = (d, refl)
  handled-IsThere l (crashed, w) s p d = (d, refl)
  handled-IsThere l (hung, w) s p d = (d, refl)

  live_step-IsThere :
      (f : ℕ) (arriving : Option env.Object) (p : Reader) (l : Live env q) (s : State env q)
      → let s' = record s { live = some l; reader = p } in
        IsThere s' → IsThere (live_step env q f arriving p l s')
  unfolding live_step
  live_step-IsThere f none Reader.reading l s d = d
  live_step-IsThere f (some msg) Reader.reading l s d =
      handled-IsThere l (handle_message env l.session msg s.world)
        (record s { reader = Reader.reading }) (handle_message-Frame env l.session msg s.world) d.0
  live_step-IsThere f arriving Reader.claiming l s d = rw d.0.1 d
  live_step-IsThere f arriving p l s d = ground (arith, d)

  move-IsThere : (f : ℕ) (m : Move env q) (s : State env q) → IsThere s → IsThere (move env q f m s)
  unfolding move reader_step stop_step live_stop stream_joined stop_streaming
  move-IsThere f (reads arriving) s d = read s.live s.reader d
    where
      read :
          (live : Option (Live env q)) (p : Reader)
          → let s' = record s { live = live; reader = p } in
            IsThere s' → IsThere (reader_step env q f arriving s')
      read none p h = absurd h.0
      read (some l) p h = live_step-IsThere f arriving p l s h
  move-IsThere f stops s d = stopped s.live s.stopper d
    where
      stopped :
          (live : Option (Live env q)) (p : Stopper)
          → let s' = record s { live = live; stopper = p } in
            IsThere s' → IsThere (stop_step env q f s')
      stopped none p h = absurd h.0
      stopped (some l) Stopper.joining h = rw (h.0.0, stop_step) ((refl, h.0.1), h.1)
      stopped (some l) p h = ground (arith, h)

  run-IsThere :
      (f : ℕ) (ms : List (Move env q)) (s : State env q) → IsThere s → IsThere (run env q f ms s)
  unfolding run
  run-IsThere f [] s d = d
  run-IsThere f (m ∷ ms) s d = run-IsThere f ms _ (move-IsThere f m s d)

  erase_session-IsThere :
      (f : ℕ) (arriving : Option env.Object) (s : State env q)
      → IsThere s
      → is_dangling (reader_step env q f arriving (erase_session env q f s)).reader
        ≡ not (is_over s.reader)
  unfolding reader_step erase_session erased destroy_session stop_streaming
  erase_session-IsThere f arriving s d = from s.live s.reader d
    where
      from :
          (live : Option (Live env q)) (p : Reader)
          → let s' = record s { live = live; reader = p } in
            IsThere s'
            → is_dangling (reader_step env q f arriving (erase_session env q f s')).reader
              ≡ not (is_over p)
      from none p h = absurd h.0
      from (some l) p h = ground (arith, h)

  -- The three actions of stop().
  abbrev pub stopping : List (Move env q)
  stopping = stops ∷ stops ∷ stops ∷ []

  -- The session's thread waits in its read, and nobody is in stop().
  abbrev pub waiting : Live env q → World env.Value → State env q
  waiting l w = record {
    live = some l;
    reader = Reader.reading;
    stopper = Stopper.outside;
    world = w;
  }

  -- What stop() leaves of such a session.
  waiting-stopping :
      (f : ℕ) (l : Live env q) (w : World env.Value)
      → l.session.running ≡ true
      → l.streaming ≡ none
      → run env q f stopping (waiting l w)
        ≡ waiting
            (record l {
              session = record l.session { running = false; stop_requested = true };
              streaming = none;
            })
            w
  unfolding run move stop_step live_stop stream_joined stop_streaming
  waiting-stopping f l w r n = ground (arith, r, n)

  -- A running session as the module makes it, whose thread waits in its read, is stopped, and
  -- reading an element of a message moves the offset. If the session is destroyed as soon as stop()
  -- has returned, as cleanup_client does, the thread's next action uses the destroyed session; if
  -- the thread has come to at least three actions first, among further calls of stop(), it does not.
  pub erase_session-run :
      (f : ℕ) (l : Live env q) (w : World env.Value) (ms : List (Move env q))
      (arriving : Option env.Object)
      → ((v : env.Value) → Advances env v)
      → l.session.running ≡ true
      → is_empty l.session.device_id ≡ true
      → l.streaming ≡ none
      → 3 ≤ count_reads env q ms
      → let s = run env q f stopping (waiting l w) in
        (is_dangling (reader_step env q f arriving (erase_session env q f s)).reader ≡ true)
        × (is_dangling
              (reader_step env q f arriving (erase_session env q f (run env q f ms s))).reader
            ≡ false)
  erase_session-run f l w ms arriving a r i n c = rw (waiting-stopping f l w r n) (
    erase_session-IsThere f arriving stopped there,
    erase_session-IsThere f arriving (run env q f ms stopped) (run-IsThere f ms stopped there)
        ∙ over (run env q f ms stopped).reader
            (run-stopped env q a f ms stopped refl (omega arith) c),
  )
    where
      stopped : State env q
      stopped =
          waiting
            (record l {
              session = record l.session { running = false; stop_requested = true };
              streaming = none;
            })
            w

      there : IsThere stopped
      there = ((refl, i), refl)

      over : (p : Reader) → (p ≡ Reader.ended) ⊎ (p ≡ Reader.died) → not (is_over p) ≡ false
      over p (inl e) = rw e refl
      over p (inr e) = rw e refl
