-- ===== src/Tests/Lives.antt =====
-- Runs of a session from its construction to its end.
use note_usb.Shared.{refl, none, some, [], ◌∷◌, codes, pos}
use note_usb.Handler.Handles.{Quiet}
use note_usb.Session.Live.{Live, new_session, start_session, destroy_session}
use note_usb.Session.Live.Laws.{NoStream, start_session-NoStream, destroy_session-Quiet}
use note_usb.Tests.{mouse, fields, empty_world}
use note_usb.Tests.Clients.{client}
use note_usb.Tests.Reports.{list_queue, key_down, stream}

-- A new session, as the module makes it.
abbrev fresh : Live mouse list_queue
fresh = record { session = new_session (pos 4) (pos 400) []; streaming = none }

start_session-NoStream_example :
    NoStream mouse list_queue
      (start_session mouse list_queue 9 fresh
        (fields (codes "claim") (codes "1:3") ∷ [])
        empty_world).0
unfolding new_session
start_session-NoStream_example =
    start_session-NoStream mouse list_queue 9 fresh (fields (codes "claim") (codes "1:3") ∷ [])
      empty_world refl refl

-- A session that holds a device and has a streaming thread.
abbrev holder : Live mouse list_queue
holder = record { session = client; streaming = some (stream, key_down ∷ []) }

destroy_session-Quiet_example :
    Quiet 6 empty_world (destroy_session mouse list_queue 4 holder empty_world).1
destroy_session-Quiet_example = destroy_session-Quiet mouse list_queue 6 4 holder empty_world
