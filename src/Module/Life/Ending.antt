-- ===== src/Module/Life/Ending.antt =====
-- What the calls on a NoteUSBModule (src/module.cpp) that make and end sessions keep of its state.
use note_usb.Shared.{
  ℕ, ◌≡◌, refl, ap, ◌∙◌, false, Option, none, some, List, [], ℤ, int_key, is_empty,
}
use mathlib.Core.Path.{subst}
use note_usb.Shared.Map.{Map, lookup, has, erase, modify}
use note_usb.Shared.Map.Laws.{Unique, modify-Unique, insert-Unique, erase-Unique}
use note_usb.Protocol.{Error}
use note_usb.Platform.{Env, World, both_branches}
use note_usb.Handler.{stop_discovery}
use note_usb.Handler.Release.{release_all_devices}
use note_usb.Handler.Handles.{Quiet}
use note_usb.Handler.Invariant.Methods.{stop_discovery-Inv, release_all_devices-Inv}
use note_usb.Session.{Session, Ran, returned, threw, crashed, hung}
use note_usb.Session.Live.{
  then_run, Live, new_session, create_session, start_session, stop_session, destroy_session,
}
use note_usb.Session.Live.Laws.{NoStream, start_session-NoStream}
use note_usb.Streaming.{ReportQueue}
use note_usb.Module.Life.{
  NoteUsbModule, on_handler, clear_sessions, cleanup, stop, shutdown, release_usb,
}
use note_usb.Module.Life.Clients.{handle_client, session_thread, cleanup_client}
use note_usb.Module.Life.Sessions.{
  AllIdle, Returns, then_run-Returns, if_holds, lookup-AllIdle, modify-AllIdle, insert-AllIdle,
  erase-AllIdle, clear_sessions-Returns, stop_session-Returns, destroy_session-Returns,
}
use note_usb.Module.Life.Sound.{Sound, rehandled, on_handler-Sound}

module _ (env : Env) (q : ReportQueue) where
  -- The sessions of a module are others.
  with_sessions :
      (m : NoteUsbModule env q) (sessions' : Map ℤ (Live env q))
      → AllIdle env q sessions'
      → Unique sessions'
      → Sound env q m
      → Sound env q (record m { sessions = sessions' })
  with_sessions m sessions' a u v = record { idle = a; unique = u; in_order = v.in_order }

  pub handle_client-Sound :
      (m : NoteUsbModule env q) (fd pid : ℤ) (this : ℕ) (w : World env.Value)
      → Sound env q m
      → Sound env q (handle_client env q m fd pid this w).0.1
  unfolding handle_client create_session
  handle_client-Sound m fd pid this w v =
      both_branches (λ (r : (Error × NoteUsbModule env q) × World env.Value). Sound env q r.0.1)
        (has pid m.sessions) _ _ w v
        (with_sessions m _
          (insert-AllIdle env q m.sessions pid
            (record { session = new_session fd pid []; streaming = none }) refl v.idle)
          (insert-Unique pid _ m.sessions v.unique) v)

  -- The thread of a new session: if it returns, the module is as sound as before.
  pub session_thread-Sound :
      (f : ℕ) (m m' : NoteUsbModule env q) (fd pid : ℤ) (l : Live env q)
      (arriving : List env.Object) (w w' : World env.Value)
      → lookup pid m.sessions ≡ some l
      → l.session ≡ new_session fd pid []
      → session_thread env q f m pid l arriving w ≡ (returned m', w')
      → Sound env q m
      → Sound env q m'
  unfolding session_thread
  session_thread-Sound f m m' fd pid l arriving w w' e n r v = subst SoundIf r (
      ended (start_session env q f l arriving w) (
        start_session-NoStream env q f l arriving w
          (ap (λ (s : Session). is_empty s.device_id) n ∙ (unfold new_session in refl))
          (lookup-AllIdle env q m.sessions pid l v.idle e)))
    where
      SoundIf : Ran (NoteUsbModule env q) × World env.Value → Type 0
      SoundIf (returned m1, w1) = Sound env q m1
      SoundIf (threw, w1) = Unit
      SoundIf (crashed, w1) = Unit
      SoundIf (hung, w1) = Unit

      ended :
          (t : Ran (Live env q) × World env.Value)
          → NoStream env q t.0
          → SoundIf (
              then_run t.0
                (λ l' w1. (returned (record m { sessions = modify pid (λ _. l') m.sessions }), w1))
                t.1)
      ended (returned l', w1) s =
          with_sessions m _ (modify-AllIdle env q m.sessions pid l' s v.idle)
            (modify-Unique pid (λ _. l') m.sessions v.unique) v
      ended (threw, w1) s = tt
      ended (crashed, w1) s = tt
      ended (hung, w1) s = tt

  -- A client is gone: the call returns.
  pub cleanup_client-Returns :
      (f : ℕ) (m : NoteUsbModule env q) (pid : ℤ) (w : World env.Value)
      → Sound env q m
      → Returns (λ m' _. Sound env q m') (cleanup_client env q f m pid w)
  unfolding cleanup_client
  cleanup_client-Returns f m pid w v = cases (lookup pid m.sessions) refl
    where
      cases :
          (o : Option (Live env q))
          → lookup pid m.sessions ≡ o
          → Returns
              (λ m' _. Sound env q m')
              (elim o as (λ _. Ran (NoteUsbModule env q) × World env.Value) [
                | none ↦ (returned m, w)
                | some l ↦
                    let stopped = stop_session env q f l w in
                    then_run stopped.0
                      (λ l' w'.
                        let gone = destroy_session env q f l' w' in
                        then_run gone.0
                          (λ _ w''. (returned (record m { sessions = erase pid m.sessions }), w''))
                          gone.1)
                      stopped.1
              ])
      cases none e = v
      cases (some l) e =
          then_run-Returns _ (λ m' _. Sound env q m') (stop_session env q f l w) _
            (stop_session-Returns env q f l w (lookup-AllIdle env q m.sessions pid l v.idle e))
            (λ l' w' p.
              then_run-Returns (λ _ w''. Quiet 0 w' w'') (λ m' _. Sound env q m')
                (destroy_session env q f l' w') _ (destroy_session-Returns env q 0 f l' w' p.0)
                (λ _ w'' k.
                  with_sessions m _ (erase-AllIdle env q m.sessions pid v.idle)
                    (erase-Unique pid m.sessions v.unique) v))

  pub cleanup-Sound :
      (f : ℕ) (m : NoteUsbModule env q) (w : World env.Value)
      → Sound env q m
      → Returns (λ m' _. Sound env q m') (cleanup env q f m w)
  unfolding cleanup
  cleanup-Sound f m w v =
      let r = on_handler env q (release_all_devices env) m w in
      let k =
        on_handler-Sound env q (release_all_devices env) m w
          (λ h i. release_all_devices-Inv env h w) v in
      then_run-Returns (λ _ w'. Quiet 0 r.1 w') (λ m' _. Sound env q m')
        (clear_sessions env q f r.0.sessions r.1) _
        (clear_sessions-Returns env q 0 f r.0.sessions r.1 k.idle)
        (λ _ w' _. with_sessions r.0 [] tt tt k)

  pub stop-Sound :
      (f : ℕ) (m : NoteUsbModule env q) (w : World env.Value)
      → Sound env q m
      → Returns (λ r _. Sound env q r.1) (stop env q f m w)
  unfolding stop
  stop-Sound f m w v =
      let r = on_handler env q (stop_discovery env) m w in
      let k = on_handler-Sound env q (stop_discovery env) m w (λ h. stop_discovery-Inv env h w) v in
      if_holds (Returns (λ r _. Sound env q r.1)) m.running
        (λ e.
          then_run-Returns (λ m' _. Sound env q m') (λ t _. Sound env q t.1)
            (cleanup env q f r.0 r.1) _ (cleanup-Sound f r.0 r.1 k)
            (λ m' w' s. rehandled env q m' (record m' { running = false }) refl s.in_order s))
        (λ e. v)

  pub shutdown-Sound :
      (f : ℕ) (m : NoteUsbModule env q) (w : World env.Value)
      → Sound env q m
      → Returns (λ m' _. Sound env q m') (shutdown env q f m w)
  unfolding shutdown release_usb
  shutdown-Sound f m w v =
      then_run-Returns (λ r _. Sound env q r.1) (λ m' _. Sound env q m') (stop env q f m w) _
        (stop-Sound f m w v)
        (λ (e, m') w' s.
          then_run-Returns (λ _ w''. Quiet 0 w' w'') (λ m' _. Sound env q m')
            (clear_sessions env q f m'.sessions w') _
            (clear_sessions-Returns env q 0 f m'.sessions w' s.idle)
            (λ _ w'' _. record { idle = tt; unique = tt; in_order = tt }))
