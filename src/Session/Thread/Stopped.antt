-- ===== src/Session/Thread/Stopped.antt =====
-- A session's thread (src/note_usb_session.cpp) after stop() has stored its request.
use note_usb.Shared.{
  ℕ, zero, suc, ◌≤◌, ◌≡◌, refl, true, Option, none, some, List, [], ◌∷◌, arith, ap, ◌∙◌,
  Option-cases, ◌⊎◌, inl, inr,
}
use note_usb.Platform.{Env, World}
use note_usb.Session.{Session, Ran, returned, threw, crashed, hung}
use note_usb.Session.Messages.{handle_message}
use note_usb.Session.Key.{Advances}
use note_usb.Session.Key.Messages.{Terminates, handle_message-Terminates}
use note_usb.Session.Live.{then_run, Live, discard, stop_streaming}
use note_usb.Streaming.Capture.{stop}
use note_usb.Session.Keeps.{Outcome}
use note_usb.Session.Keeps.Frame.{Frame, handle_message-Frame}
use note_usb.Session.Thread.{
  Reader, Stopper, State, handled, live_step, reader_step, stream_joined, live_stop, stop_step,
  Move, reads, stops, move, run,
}
use note_usb.Streaming.{ReportQueue}

-- The actions that are left when the loop sees the request; 4 in front of the loop.
abbrev pub rank : Reader → ℕ
rank Reader.looping = 2
rank Reader.reading = 3
rank Reader.checking = 2
rank Reader.leaving = 1
rank Reader.ended = 0
rank Reader.died = 0
rank other = 4

module _ (env : Env) (q : ReportQueue) where
  -- The actions of the session's thread in a schedule.
  abbrev pub count_reads : List (Move env q) → ℕ
  count_reads [] = 0
  count_reads (reads arriving ∷ ms) = suc (count_reads ms)
  count_reads (stops ∷ ms) = count_reads ms

  abbrev pub Requested : Option (Live env q) → Type 0
  Requested none = ⊥
  Requested (some l) = l.session.stop_requested ≡ true

module _ (env : Env) (q : ReportQueue) (advances : (v : env.Value) → Advances env v) where
  -- At most `k` actions of the thread are left.
  abbrev AtMostLeft : ℕ → State env q → Type 0
  AtMostLeft k s = Requested env q s.live × (rank s.reader ≤ k)

  SameSession : Live env q → Ran (Live env q) × World env.Value → Type 0
  SameSession l (returned l', w) = l'.session ≡ l.session
  SameSession l other = Unit

  then_run-SameSession :
      {A : Type 0} (l : Live env q) (r : Ran A × World env.Value)
      (next : A → World env.Value → Ran (Live env q) × World env.Value)
      → ((a : A) (w : World env.Value) → SameSession l (next a w))
      → SameSession l (then_run r.0 next r.1)
  unfolding SameSession
  then_run-SameSession l (returned a, w) next h = h a w
  then_run-SameSession l (threw, w) next h = tt
  then_run-SameSession l (crashed, w) next h = tt
  then_run-SameSession l (hung, w) next h = tt

  stop_streaming-SameSession :
      (f : ℕ) (l : Live env q) (w : World env.Value) → SameSession l (stop_streaming env q f l w)
  unfolding stop_streaming SameSession
  stop_streaming-SameSession f l w = elim (Option-cases l.streaming) [
    | inl n ↦ rw (n, stop_streaming) refl
    | inr ((t, queue), e) ↦
        rw (e, stop_streaming)
          (then_run-SameSession l (stop env q f t queue w) _ (λ (t', queue') w'.
            then_run-SameSession l (discard env q f (some (t', queue')) w') _ (λ _ w''. refl)))
  ]

  stream_joined-Requested :
      (k : ℕ) (l : Live env q) (r : Ran (Live env q) × World env.Value) (s : State env q)
      → SameSession l r
      → l.session.stop_requested ≡ true
      → AtMostLeft k (record s { live = some l })
      → AtMostLeft k (stream_joined env q l r.0 r.1 (record s { live = some l }))
  unfolding stream_joined SameSession
  stream_joined-Requested k l (returned l', w) s same e p =
      (ap (λ (t : Session). t.stop_requested) same ∙ e, p.1)
  stream_joined-Requested k l (threw, w) s same e p = (e, omega arith)
  stream_joined-Requested k l (crashed, w) s same e p = (e, omega arith)
  stream_joined-Requested k l (hung, w) s same e p = (e, p.1)

  handled-AtMostLeft :
      (k : ℕ) (l : Live env q) (r : Ran Session × World env.Value) (s : State env q)
      → 2 ≤ k
      → l.session.stop_requested ≡ true
      → Terminates r
      → Outcome (λ s' w. Frame l.session s') (λ w. Unit {0}) l.session r
      → AtMostLeft k (handled env q l r.0 r.1 (record s { live = some l }))
  unfolding handled
  handled-AtMostLeft k l (returned s', w) s h e t p = (p.4 e, h)
  handled-AtMostLeft k l (threw, w) s h e t p = (e, omega (arith, h))
  handled-AtMostLeft k l (crashed, w) s h e t p = (e, omega arith)
  handled-AtMostLeft k l (hung, w) s h e t p = absurd t

  live_step-AtMostLeft :
      (f k : ℕ) (arriving : Option env.Object) (p : Reader) (l : Live env q) (s : State env q)
      → k ≤ 2
      → l.session.stop_requested ≡ true
      → rank p ≤ suc k
      → let s' = record s { live = some l; reader = p } in
        AtMostLeft k (live_step env q f arriving p l s')
  unfolding live_step
  live_step-AtMostLeft f k arriving Reader.testing l s b r h = absurd (omega (arith, h, b))
  live_step-AtMostLeft f k arriving Reader.marking l s b r h = absurd (omega (arith, h, b))
  live_step-AtMostLeft f k arriving Reader.resetting l s b r h = absurd (omega (arith, h, b))
  live_step-AtMostLeft f k arriving Reader.claiming l s b r h = absurd (omega (arith, h, b))
  live_step-AtMostLeft f k none Reader.reading l s b r h = (r, omega (arith, h))
  live_step-AtMostLeft f k (some msg) Reader.reading l s b r h =
      handled-AtMostLeft k l (handle_message env l.session msg s.world)
        (record s { reader = Reader.reading }) (omega (arith, h)) r
        (handle_message-Terminates env advances l.session msg s.world)
        (handle_message-Frame env l.session msg s.world)
  live_step-AtMostLeft f k arriving p l s b r h = ground (arith, r, h)

  reader_step-AtMostLeft :
      (f k : ℕ) (arriving : Option env.Object) (s : State env q)
      → k ≤ 2
      → AtMostLeft (suc k) s
      → AtMostLeft k (reader_step env q f arriving s)
  unfolding reader_step
  reader_step-AtMostLeft f k arriving s b p = from s.live s.reader p
    where
      from :
          (live : Option (Live env q)) (p : Reader)
          → let s' = record s { live = live; reader = p } in
            AtMostLeft (suc k) s' → AtMostLeft k (reader_step env q f arriving s')
      from none p h = absurd h.0
      from (some l) p h = live_step-AtMostLeft f k arriving p l s b h.0 h.1

  stop_step-AtMostLeft :
      (f k : ℕ) (s : State env q) → AtMostLeft k s → AtMostLeft k (stop_step env q f s)
  unfolding stop_step live_stop
  stop_step-AtMostLeft f k s p = from s.live s.stopper p
    where
      from :
          (live : Option (Live env q)) (p : Stopper)
          → let s' = record s { live = live; stopper = p } in
            AtMostLeft k s' → AtMostLeft k (stop_step env q f s')
      from none p h = absurd h.0
      from (some l) Stopper.outside h = ground (arith, h)
      from (some l) Stopper.storing h = (refl, h.1)
      from (some l) Stopper.stuck h = h
      from (some l) Stopper.joining h =
          stream_joined-Requested k l (stop_streaming env q f l s.world)
            (record s { stopper = Stopper.joining }) (stop_streaming-SameSession f l s.world) h.0 h

  run-AtMostLeft :
      (f k : ℕ) (ms : List (Move env q)) (s : State env q)
      → k ≤ 3
      → AtMostLeft k s
      → k ≤ count_reads env q ms
      → rank (run env q f ms s).reader ≡ 0
  unfolding run move
  run-AtMostLeft f k [] s b p h = omega (arith, p, h)
  run-AtMostLeft f zero (reads arriving ∷ ms) s b p h =
      run-AtMostLeft f zero ms _ b
        (reader_step-AtMostLeft f zero arriving s (omega arith) (p.0, omega (arith, p.1)))
        (omega arith)
  run-AtMostLeft f zero (stops ∷ ms) s b p h =
      run-AtMostLeft f zero ms _ b (stop_step-AtMostLeft f zero s p) (omega arith)
  run-AtMostLeft f (suc k) (reads arriving ∷ ms) s b p h =
      run-AtMostLeft f k ms _ (omega (arith, b))
        (reader_step-AtMostLeft f k arriving s (omega (arith, b)) p) (omega (arith, h))
  run-AtMostLeft f (suc k) (stops ∷ ms) s b p h =
      run-AtMostLeft f (suc k) ms _ b (stop_step-AtMostLeft f (suc k) s p) h

  pub run-stopped :
      (f : ℕ) (ms : List (Move env q)) (s : State env q)
      → Requested env q s.live
      → rank s.reader ≤ 3
      → 3 ≤ count_reads env q ms
      → let p = (run env q f ms s).reader in (p ≡ Reader.ended) ⊎ (p ≡ Reader.died)
  run-stopped f ms s r h n =
      rank_zero (run env q f ms s).reader (run-AtMostLeft f 3 ms s (omega arith) (r, h) n)
    where
      rank_zero : (p : Reader) → rank p ≡ 0 → (p ≡ Reader.ended) ⊎ (p ≡ Reader.died)
      rank_zero Reader.ended e = inl refl
      rank_zero Reader.died e = inr refl
      rank_zero p e = absurd (ground (arith, e))
