-- ===== src/Module/Life/Twice.antt =====
-- Calls on a NoteUSBModule (src/module.cpp) that are made twice.
use note_usb.Shared.{ℕ, ◌≡◌, refl, true, ◌++◌, ℤ, int_key, codes}
use note_usb.Shared.Map.{has}
use note_usb.Shared.Map.Laws.{lookup-insert, beq_refl}
use note_usb.Registry.Print.{to_string}
use note_usb.Protocol.{Code, Error}
use note_usb.Platform.{Env, World, each_branch}
use note_usb.Handler.{error_of}
use note_usb.Streaming.{ReportQueue}
use note_usb.Module.Life.{NoteUsbModule}
use note_usb.Module.Life.Clients.{handle_client}

module _ (env : Env) (q : ReportQueue) where
  handle_client-has :
      (m : NoteUsbModule env q) (fd pid : ℤ) (this : ℕ) (w : World env.Value)
      → has pid (handle_client env q m fd pid this w).0.1.sessions ≡ true
  unfolding handle_client
  handle_client-has m fd pid this w =
      each_branch
        (λ (r : (Error × NoteUsbModule env q) × World env.Value). has pid r.0.1.sessions ≡ true)
        (has pid m.sessions) _ _ w (λ e. e) (λ e. rw (lookup-insert, beq_refl pid) refl)

  client_refused :
      (m : NoteUsbModule env q) (fd pid : ℤ) (this : ℕ) (w : World env.Value)
      → has pid m.sessions ≡ true
      → handle_client env q m fd pid this w ≡ (
        (
          error_of Code.already_initialized
              (codes "Session already exists for pid=" ++ to_string pid),
          m,
        ),
        w,
      )
  unfolding handle_client
  client_refused m fd pid this w e = simp e refl

  -- A second device socket of one client is refused, whatever its descriptor, and changes nothing:
  -- neither the module's sessions nor SessionManager's, and no thread is started.
  pub handle_client-handle_client :
      (m : NoteUsbModule env q) (fd fd' pid : ℤ) (this this' : ℕ) (w w' : World env.Value)
      → let m' = (handle_client env q m fd pid this w).0.1 in
        handle_client env q m' fd' pid this' w' ≡ (
          (
            error_of Code.already_initialized
                (codes "Session already exists for pid=" ++ to_string pid),
            m',
          ),
          w',
        )
  handle_client-handle_client m fd fd' pid this this' w w' =
      client_refused (handle_client env q m fd pid this w).0.1 fd' pid this' w'
        (handle_client-has m fd pid this w)
