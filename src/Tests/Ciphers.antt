-- ===== src/Tests/Ciphers.antt =====
-- A run of a HIDStreamingThread with encryption, and one with a single transfer.
use note_usb.Shared.{◌≡◌, ◌≤◌, ◌+◌, refl, arith, true, some, [], ◌∷◌, Text, codes, pos, length}
use note_usb.Platform.{Env}
use note_usb.Session.{Session}
use note_usb.Streaming.{Stream}
use note_usb.Streaming.Capture.{completed, on_transfer, push_report, report}
use note_usb.Streaming.System.{
  System, idle, written, rekey, watching, called, looping, holding, enter, act, take, send, Steps,
  here, next, launched,
}
use note_usb.Streaming.System.Effect.{accepted}
use note_usb.Streaming.System.Single.{submissions, callbacks, Steps-Single}
use note_usb.Streaming.System.Secret.{offered, IsEncrypted, All, Encrypts, Steps-Secret}
use note_usb.Streaming.{write_report}
use note_usb.Tests.{mouse, empty_world}
use note_usb.Tests.Reports.{list_queue, stream}
use note_usb.Tests.Clients.{client}

-- A provider whose ciphertexts begin with a mark.
abbrev marking : Env
marking = record mouse { encrypt = λ h id t. some (255 ∷ t) }

abbrev IsMarked : Text → Type 0
IsMarked c = (t : Text) × (c ≡ 255 ∷ t)

marking-Encrypts : Encrypts marking IsMarked
marking-Encrypts = record { gives = λ h id t. (255 ∷ t, (refl, (t, refl))) }

abbrev keyed : Session
keyed = record client { encryption_enabled = true; encryption_key = 1 ∷ [] }

abbrev new_key : Session
new_key = record keyed { encryption_key = 2 ∷ [] }

abbrev secret_stream : Stream
secret_stream = record stream { session = some keyed }

abbrev held : System marking list_queue
held = record (launched marking list_queue secret_stream empty_world) {
  capture = called completed (codes "key");
}

abbrev accepted_key : System marking list_queue
accepted_key = record {
  stream =
      (on_transfer marking list_queue secret_stream [] completed (codes "key") empty_world).0.0;
  queue = (on_transfer marking list_queue secret_stream [] completed (codes "key") empty_world).0.1;
  capture = watching;
  process = looping;
  stopping = idle;
  world = (on_transfer marking list_queue secret_stream [] completed (codes "key") empty_world).1;
}

abbrev taken_key : System marking list_queue
taken_key = record accepted_key { queue = []; process = holding (codes "key") }

-- The session's thread takes another key, and the report is written.
abbrev rekeyed : System marking list_queue
rekeyed = record taken_key { stream = record taken_key.stream { session = some new_key } }

abbrev sent_key : System marking list_queue
sent_key = record rekeyed {
  world = (write_report marking rekeyed.stream (codes "key") rekeyed.world).1;
  process = written (write_report marking rekeyed.stream (codes "key") rekeyed.world).0;
}

unfoldable key_steps :
    Steps marking list_queue IsEncrypted
      (launched marking list_queue secret_stream empty_world)
      sent_key
unfolding launched on_transfer push_report
key_steps =
    next
      (next
        (next
          (next (next here (enter completed (codes "key") refl refl))
            (act completed (codes "key") refl refl))
          (take (report (codes "key")) [] refl refl))
        (rekey (some new_key) (refl, refl)))
      (send (codes "key") refl)

Steps-Secret_example : All IsMarked (offered (pos 4) sent_key.world.history)
unfolding offered
Steps-Secret_example =
    Steps-Secret marking list_queue IsMarked marking-Encrypts (pos 4) secret_stream empty_world
      (refl, refl) tt key_steps

Steps-Single_example :
    length (accepted sent_key.world.history) ≤ length (accepted empty_world.history) + 1
unfolding callbacks submissions key_steps
Steps-Single_example =
    Steps-Single marking list_queue IsEncrypted secret_stream empty_world key_steps (omega arith)
