-- ===== src/Module/Life/Reachable.antt =====
-- The states that a NoteUSBModule reaches (src/module.cpp). Its methods have no mutex: that the daemon
-- calls them one after the other is the reading of the model. A session's thread is one step.
use note_usb.Shared.{ℕ, ◌≡◌, Bool, some, List, [], ℤ, int_key}
use note_usb.Shared.Map.{lookup}
use note_usb.Protocol.{Error, Message}
use note_usb.Platform.{Env, World}
use note_usb.Session.{returned}
use note_usb.Session.Live.{Live, new_session}
use note_usb.Streaming.{ReportQueue}
use note_usb.Module.Life.{
  Config, NoteUsbModule, new_module, init, set_ownership_registry, run_registered, start, cleanup,
  stop, shutdown,
}
use note_usb.Module.Life.Clients.{manage, handle_client, session_thread, cleanup_client}
use note_usb.Module.Life.Down.{Down}
use note_usb.Module.Life.Sound.{Sound}

module _ (env : Env) (q : ReportQueue) where
  -- By any sequence of calls, each in any world. A thread runs on a session as it was made.
  pub data Reaches : NoteUsbModule env q → Type 0 where
    constructed : Reaches (new_module env q)
    initialised :
        (m : NoteUsbModule env q) (c : Config) (w : World env.Value)
        → Reaches m
        → Reaches (init env q m c w).0.1
    given_registry :
        (m : NoteUsbModule env q) (registry : Bool) (w : World env.Value)
        → Reaches m
        → Reaches (set_ownership_registry env q m registry w).0
    started :
        (m : NoteUsbModule env q) (w : World env.Value) → Reaches m → Reaches (start env q m w).0.1
    dispatched :
        (m : NoteUsbModule env q) (type : Message) (w : World env.Value)
        → Reaches m
        → Reaches (run_registered env q m type w).0
    managed :
        (m : NoteUsbModule env q) (msg : env.Object) (fd pid : ℤ) (w : World env.Value)
        → Reaches m
        → Reaches (manage env q m msg fd pid w).0.1
    connected :
        (m : NoteUsbModule env q) (fd pid : ℤ) (this : ℕ) (w : World env.Value)
        → Reaches m
        → Reaches (handle_client env q m fd pid this w).0.1
    served :
        (f : ℕ) (m m' : NoteUsbModule env q) (fd pid : ℤ) (l : Live env q)
        (arriving : List env.Object) (w w' : World env.Value)
        → Reaches m
        → lookup pid m.sessions ≡ some l
        → l.session ≡ new_session fd pid []
        → session_thread env q f m pid l arriving w ≡ (returned m', w')
        → Reaches m'
    disconnected :
        (f : ℕ) (m m' : NoteUsbModule env q) (pid : ℤ) (w w' : World env.Value)
        → Reaches m
        → cleanup_client env q f m pid w ≡ (returned m', w')
        → Reaches m'
    cleaned :
        (f : ℕ) (m m' : NoteUsbModule env q) (w w' : World env.Value)
        → Reaches m
        → cleanup env q f m w ≡ (returned m', w')
        → Reaches m'
    halted :
        (f : ℕ) (m m' : NoteUsbModule env q) (e : Error) (w w' : World env.Value)
        → Reaches m
        → stop env q f m w ≡ (returned (e, m'), w')
        → Reaches m'
    shut_down :
        (f : ℕ) (m m' : NoteUsbModule env q) (w w' : World env.Value)
        → Reaches m
        → shutdown env q f m w ≡ (returned m', w')
        → Reaches m'
