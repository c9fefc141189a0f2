-- ===== src/Tests/Modules.antt =====
-- Runs of the module with the mouse: from its construction over a claim and a client to its end.
use note_usb.Shared.{[], Text, int_key, Text, refl, true, none, some, codes, pos}
use note_usb.Shared.Map.{lookup, modify}
use note_usb.Platform.{World}
use note_usb.Session.Live.{Live, new_session}
use note_usb.Module.Life.{Config, NoteUsbModule, new_module, init, start}
use note_usb.Module.Life.Clients.{manage, handle_client, cleanup_client}
use note_usb.Module.Life.Clients.Leaving.{Left, cleanup_client-handle_client}
use note_usb.Module.Life.Sessions.{Returns}
use note_usb.Module.Life.Sound.{Sound}
use note_usb.Module.Life.Down.{Down}
use note_usb.Tests.{mouse, fields, empty_world}
use note_usb.Tests.Reports.{list_queue}

abbrev plain_config : Config
plain_config = record { settings = none; monitor_enabled = some true }

abbrev booted : NoteUsbModule mouse list_queue
booted = (init mouse list_queue (new_module mouse list_queue) plain_config empty_world).0.1

abbrev running_module : NoteUsbModule mouse list_queue
running_module = (start mouse list_queue booted empty_world).0.1

abbrev holding_module : NoteUsbModule mouse list_queue
holding_module =
    (manage mouse list_queue running_module (fields (codes "claim") (codes "1:3")) (pos 4) (pos 400)
      empty_world).0.1

abbrev serving_module : NoteUsbModule mouse list_queue
serving_module = (handle_client mouse list_queue holding_module (pos 5) (pos 400) 1 empty_world).0.1

-- What the client's thread makes of its session: it runs, and a stop was requested.
abbrev running : Live mouse list_queue
running = record {
  session = record (new_session (pos 5) (pos 400) []) { running = true; stop_requested = true };
  streaming = none;
}

-- The module and the world with the client.
abbrev joined : NoteUsbModule mouse list_queue
joined =
    (handle_client mouse list_queue (new_module mouse list_queue) (pos 5) (pos 400) 1
      empty_world).0.1

abbrev joined_world : World Text
joined_world =
    (handle_client mouse list_queue (new_module mouse list_queue) (pos 5) (pos 400) 1 empty_world).1

cleanup_client-handle_client_example :
    Returns
      (Left mouse list_queue
        (new_module mouse list_queue)
        empty_world
        (pos 5)
        (pos 400)
        1
        (pos 400)
        (pos 5))
      (cleanup_client mouse list_queue 3
        (record joined { sessions = modify (pos 400) (λ _. running) joined.sessions })
        (pos 400)
        joined_world)
unfolding new_module new_session lookup
cleanup_client-handle_client_example =
    cleanup_client-handle_client mouse list_queue 3 (new_module mouse list_queue) (pos 5) (pos 400)
      1 running (pos 400) (pos 5) empty_world joined_world refl refl refl refl
