-- ===== src/Module/Life/Down.antt =====
-- How NoteUSBModule's cleanup, stop and shutdown end (src/module.cpp).
use note_usb.Shared.{ℕ, ◌≡◌, refl, false, Option, none, some, [], arith, Bool-cases, inl, inr}
use note_usb.Protocol.{Error}
use note_usb.Platform.{Env, World, Handle, Act, ◌>>=◌, pure}
use note_usb.Handler.{Handler, stop_discovery}
use note_usb.Handler.Release.{release_all_devices, destroy_handler}
use note_usb.Handler.Handles.{opens, closes, held, Net, Quiet}
use note_usb.Handler.Handles.Released.{release_all_devices-Balanced}
use note_usb.Session.{Ran, returned, threw, crashed, hung}
use note_usb.Streaming.{ReportQueue}
use note_usb.Module.Life.{
  NoteUsbModule, on_handler, discard_handler, clear_sessions, cleanup, stop, release_usb, shutdown,
}
use note_usb.Module.Life.Sessions.{
  Returns, then_run-Returns, AllIdle, clear_sessions-Returns, if_holds,
}

-- How many claimed devices of a module's handler hold `x`.
abbrev pub held_by : Handle → Option Handler → ℕ
held_by x none = 0
held_by x (some h) = held x h

module _ (env : Env) (q : ReportQueue) (x : Handle) where
  destroy_handler-Net :
      (h : Handler) (w : World env.Value) → Net x w (destroy_handler env h w).1 0 (held x h)
  unfolding destroy_handler opens closes
  destroy_handler-Net h w =
      let p = release_all_devices-Balanced env x h w in
      elim (Bool-cases (release_all_devices env h w).0.ctx) [
        | inl e ↦ simp e (omega (arith, p.0, p.1))
        | inr e ↦ simp e (omega (arith, p.0, p.1))
      ]

  -- The destructor of a handler closes what its table holds.
  discard_handler-Net :
      (o : Option Handler) (w : World env.Value)
      → Net x w (discard_handler env q o w).1 0 (held_by x o)
  unfolding discard_handler
  discard_handler-Net none w = omega arith
  discard_handler-Net (some h) w = destroy_handler-Net h w

  -- What a call on the handler does to a module.
  abbrev OnHandler :
      NoteUsbModule env q → World env.Value → NoteUsbModule env q × World env.Value → Type 0
  OnHandler m w (m', w') =
      (m'.sessions ≡ m.sessions) × Net x w w' (held_by x m'.handler) (held_by x m.handler)

  -- What holds without a handler, and behind the call on one, holds of `on_handler`.
  pub on_handler-holds :
      (P : NoteUsbModule env q × World env.Value → Type 0) (call : Handler → Act env.Value Handler)
      (m : NoteUsbModule env q) (w : World env.Value)
      → (m.handler ≡ none → P (m, w))
      → ((h : Handler)
          → m.handler ≡ some h
          → P (record m { handler = some (call h w).0 }, (call h w).1))
      → P (on_handler env q call m w)
  on_handler-holds P call m w n s = cases m.handler refl
    where
      cases :
          (o : Option Handler)
          → m.handler ≡ o
          → P (
              (elim o as (λ _. Act env.Value (NoteUsbModule env q)) [
                | none ↦ pure m
                | some h ↦ do h' ← call h; pure (record m { handler = some h' })
              ])
                w)
      cases none e = n e
      cases (some h) e = s h e

  released_all :
      (m : NoteUsbModule env q) (w : World env.Value)
      → let r = on_handler env q (release_all_devices env) m w in
        OnHandler m w r × (held_by x r.0.handler ≡ 0)
  released_all m w =
      on_handler-holds (λ r. OnHandler m w r × (held_by x r.0.handler ≡ 0))
        (release_all_devices env) m w (λ e. ((refl, omega arith), rw e refl))
        (λ h e. let p = release_all_devices-Balanced env x h w in ((refl, rw e p.0), p.1))

  stopped_discovery :
      (m : NoteUsbModule env q) (w : World env.Value)
      → OnHandler m w (on_handler env q (stop_discovery env) m w)
  stopped_discovery m w =
      on_handler-holds (OnHandler m w) (stop_discovery env) m w (λ e. (refl, omega arith))
        (λ h e. (refl, unfold stop_discovery held in rw e (omega arith)))

  -- A module that `cleanup` or `stop` leaves.
  abbrev pub Released :
      NoteUsbModule env q → World env.Value → NoteUsbModule env q → World env.Value → Type 0
  Released m w m' w' =
      (m'.sessions ≡ []) × ((held_by x m'.handler ≡ 0) × Net x w w' 0 (held_by x m.handler))

  cleanup-Returns :
      (f : ℕ) (m : NoteUsbModule env q) (w : World env.Value)
      → AllIdle env q m.sessions
      → Returns (Released m w) (cleanup env q f m w)
  unfolding cleanup
  cleanup-Returns f m w a =
      let r = on_handler env q (release_all_devices env) m w in
      let p = released_all m w in
      then_run-Returns (λ _ w'. Quiet x r.1 w') (Released m w)
        (clear_sessions env q f r.0.sessions r.1) _
        (clear_sessions-Returns env q x f r.0.sessions r.1 (rw p.0.0 a))
        (λ _ w' k. (refl, (p.1, omega (arith, p.0.1, p.1, k.0, k.1))))

  abbrev Halted :
      NoteUsbModule env q → World env.Value → Error × NoteUsbModule env q → World env.Value → Type 0
  Halted m w (e, m') w' =
      (m'.running ≡ false)
      × (AllIdle env q m'.sessions × Net x w w' (held_by x m'.handler) (held_by x m.handler))

  stop_running-Returns :
      (f : ℕ) (m : NoteUsbModule env q) (w : World env.Value)
      → AllIdle env q m.sessions
      → let r = on_handler env q (stop_discovery env) m w in
        Returns (Released m w) (cleanup env q f r.0 r.1)
  stop_running-Returns f m w a =
      let r = on_handler env q (stop_discovery env) m w in
      let p = stopped_discovery m w in
      widened r.0 r.1 p.1 (cleanup env q f r.0 r.1) (cleanup-Returns f r.0 r.1 (rw p.0 a))
    where
      widened :
          (m1 : NoteUsbModule env q) (w1 : World env.Value)
          → Net x w w1 (held_by x m1.handler) (held_by x m.handler)
          → (c : Ran (NoteUsbModule env q) × World env.Value) → Returns (Released m1 w1) c
          → Returns (Released m w) c
      widened m1 w1 n (returned m', w') p = (p.0, (p.1.0, omega (arith, n, p.1.1)))
      widened m1 w1 n (threw, w') p = p
      widened m1 w1 n (crashed, w') p = p
      widened m1 w1 n (hung, w') p = p

  stop-Returns :
      (f : ℕ) (m : NoteUsbModule env q) (w : World env.Value)
      → AllIdle env q m.sessions
      → Returns (Halted m w) (stop env q f m w)
  unfolding stop
  stop-Returns f m w a =
      let r = on_handler env q (stop_discovery env) m w in
      if_holds (Returns (Halted m w)) m.running
        (λ e.
          then_run-Returns (Released m w) (Halted m w) (cleanup env q f r.0 r.1) _
            (stop_running-Returns f m w a)
            (λ m' w' p. (refl, (rw p.0 tt, omega (arith, p.1.0, p.1.1)))))
        (λ e. (e, (a, omega arith)))

  -- Nothing is left of a module but its settings: it does not run and has no session, no handler, no
  -- libusb context. Since `w`, `x` was closed as often as the module's table of claimed devices held it.
  abbrev pub Down :
      NoteUsbModule env q → World env.Value → NoteUsbModule env q → World env.Value → Type 0
  Down m w m' w' =
      ((m'.running ≡ false) × (m'.sessions ≡ []))
      × (((m'.handler ≡ none) × (m'.has_usb_ctx ≡ false)) × Net x w w' 0 (held_by x m.handler))

  release_usb-Net :
      (m : NoteUsbModule env q) (w : World env.Value)
      → Net x w (release_usb env q m w).1 0 (held_by x m.handler)
  unfolding release_usb opens closes
  release_usb-Net m w = elim (Bool-cases m.has_usb_ctx) [
    | inl e ↦ simp e (discard_handler-Net m.handler w)
    | inr e ↦ simp e (discard_handler-Net m.handler w)
  ]

  pub shutdown-Returns :
      (f : ℕ) (m : NoteUsbModule env q) (w : World env.Value)
      → AllIdle env q m.sessions
      → Returns (Down m w) (shutdown env q f m w)
  unfolding shutdown
  shutdown-Returns f m w a =
      then_run-Returns (Halted m w) (Down m w) (stop env q f m w) _ (stop-Returns f m w a)
        (λ (e, m') w' p.
          then_run-Returns (λ _ w''. Quiet x w' w'') (Down m w)
            (clear_sessions env q f m'.sessions w') _
            (clear_sessions-Returns env q x f m'.sessions w' p.1.0)
            (λ _ w'' k. (
              (p.0, unfold release_usb in refl),
              (
                unfold release_usb in (refl, refl),
                omega (arith, p.1.1, k.0, k.1, release_usb-Net (record m' { sessions = [] }) w''),
              ),
            )))
