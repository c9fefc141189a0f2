-- ===== src/Session/Thread/Lost.antt =====
-- A stop() between the two stores of NoteUSBSession::start (src/note_usb_session.cpp).
use note_usb.Shared.{
  ℕ, ◌≡◌, refl, ap, ◌∙◌, Bool, true, false, Option, none, some, List, [], ◌∷◌, arith, is_empty,
}
use note_usb.Platform.{Env, World}
use note_usb.Session.{Session, Ran, returned, threw, crashed, hung}
use note_usb.Session.Messages.{handle_message}
use note_usb.Session.Live.{Live, stop_streaming}
use note_usb.Session.Keeps.{Outcome}
use note_usb.Session.Keeps.Frame.{Frame, handle_message-Frame}
use note_usb.Session.Thread.{
  Reader, Stopper, State, handled, live_step, reader_step, live_stop, stream_joined, stop_step,
  Move, reads, stops, move, run, spawned,
}
use note_usb.Streaming.{ReportQueue}

-- Behind the store of `running_`.
abbrev pub is_past : Reader → Bool
is_past Reader.testing = false
is_past Reader.marking = false
is_past other = true

module _ (env : Env) (q : ReportQueue) where
  abbrev Unmarked : Option (Live env q) → Type 0
  Unmarked none = ⊥
  Unmarked (some l) = (l.session.running ≡ false) × (is_empty l.session.device_id ≡ true)

  -- The session's thread is behind its store of `running_`, and `running_` is false all the same;
  -- nobody is in `stop`.
  abbrev pub Deaf : State env q → Type 0
  Deaf s = Unmarked s.live × (s.stopper ≡ Stopper.outside) × (is_past s.reader ≡ true)

  handled-Deaf :
      (l : Live env q) (r : Ran Session × World env.Value) (s : State env q)
      → Outcome (λ s' w. Frame l.session s') (λ w. Unit {0}) l.session r
      → Deaf (record s { live = some l })
      → Deaf (handled env q l r.0 r.1 (record s { live = some l }))
  unfolding handled
  handled-Deaf l (returned s', w) s p d = ((p.3 ∙ d.0.0, ap is_empty p.2 ∙ d.0.1), d.1, refl)
  handled-Deaf l (threw, w) s p d = (d.0, d.1, refl)
  handled-Deaf l (crashed, w) s p d = (d.0, d.1, refl)
  handled-Deaf l (hung, w) s p d = (d.0, d.1, refl)

  live_step-Deaf :
      (f : ℕ) (arriving : Option env.Object) (p : Reader) (l : Live env q) (s : State env q)
      → let s' = record s { live = some l; reader = p } in
        Deaf s' → Deaf (live_step env q f arriving p l s')
  unfolding live_step
  live_step-Deaf f none Reader.reading l s d = (d.0, d.1, refl)
  live_step-Deaf f (some msg) Reader.reading l s d =
      handled-Deaf l (handle_message env l.session msg s.world)
        (record s { reader = Reader.reading }) (handle_message-Frame env l.session msg s.world) d
  live_step-Deaf f arriving Reader.claiming l s d = rw d.0.1 (d.0, d.1, refl)
  live_step-Deaf f arriving p l s d = ground (arith, d)

  stop_step-Deaf : (f : ℕ) (s : State env q) → Deaf s → stop_step env q f s ≡ s
  unfolding stop_step live_stop
  stop_step-Deaf f s d = from s.live s.stopper d
    where
      from :
          (live : Option (Live env q)) (p : Stopper)
          → let s' = record s { live = live; stopper = p } in Deaf s' → stop_step env q f s' ≡ s'
      from none p h = absurd h.0
      from (some l) p h = ground (arith, h)

  move-Deaf : (f : ℕ) (m : Move env q) (s : State env q) → Deaf s → Deaf (move env q f m s)
  unfolding move reader_step stop_step live_stop
  move-Deaf f (reads arriving) s d = from s.live s.reader d
    where
      from :
          (live : Option (Live env q)) (p : Reader)
          → let s' = record s { live = live; reader = p } in
            Deaf s' → Deaf (reader_step env q f arriving s')
      from none p h = absurd h.0
      from (some l) p h = live_step-Deaf f arriving p l s h
  move-Deaf f stops s d = rw (stop_step-Deaf f s d) d

  pub run-Deaf :
      (f : ℕ) (ms : List (Move env q)) (s : State env q) → Deaf s → Deaf (run env q f ms s)
  unfolding run
  run-Deaf f [] s d = d
  run-Deaf f (m ∷ ms) s d = run-Deaf f ms _ (move-Deaf f m s d)

  -- A stop() between the two stores, and the thread's way into its loop.
  abbrev pub race : List (Move env q)
  race = reads none ∷ reads none ∷ stops ∷ stops ∷ stops ∷ reads none ∷ reads none ∷ []

  race-spawned :
      (f : ℕ) (l : Live env q) (w : World env.Value)
      → l.session.running ≡ false
      → is_empty l.session.device_id ≡ true
      → l.streaming ≡ none
      → run env q f race (spawned env q l w) ≡ (record {
        live =
            some
              (record l { session = record l.session { running = false; stop_requested = false } });
        reader = Reader.looping;
        stopper = Stopper.outside;
        world = w;
      })
  unfolding run move reader_step live_step stop_step live_stop stream_joined stop_streaming
  race-spawned f l w r i n = ground (arith, r, i, n)

  race-Deaf :
      (f : ℕ) (l : Live env q) (w : World env.Value)
      → l.session.running ≡ false
      → is_empty l.session.device_id ≡ true
      → l.streaming ≡ none
      → Deaf (run env q f race (spawned env q l w))
  race-Deaf f l w r i n = rw (race-spawned f l w r i n) ((refl, i), refl, refl)

  -- A session that does not run, without a device_id and a streaming thread, as the module makes
  -- each, whose stop() runs between the two stores of start(): the stop is over, and the thread goes
  -- on to read all the same; and whatever happens afterwards, short of its end, no stop() has any
  -- effect.
  pub run-race :
      (f : ℕ) (l : Live env q) (w : World env.Value) (arriving : Option env.Object)
      (ms : List (Move env q))
      → l.session.running ≡ false
      → is_empty l.session.device_id ≡ true
      → l.streaming ≡ none
      → let s = run env q f race (spawned env q l w) in
        (s.stopper ≡ Stopper.outside)
        × ((reader_step env q f arriving s).reader ≡ Reader.reading)
        × (stop_step env q f (run env q f ms s) ≡ run env q f ms s)
  unfolding reader_step live_step
  run-race f l w arriving ms r i n =
      let e = race-spawned f l w r i n in
      (rw e refl, rw e refl, stop_step-Deaf f _ (run-Deaf f ms _ (race-Deaf f l w r i n)))
