-- ===== src/Tests/Threads.antt =====
-- Runs of a session on its thread, with threads that stop and destroy it.
use note_usb.Shared.{
  ◌≡◌, refl, arith, false, true, none, some, List, [], ◌∷◌, ◌+◌, codes, pos, int_eq, if◌then◌else◌,
}
use note_usb.Shared.Map.{lookup}
use note_usb.Protocol.Shape.{all_well_formed, WellFormed}
use note_usb.Session.Live.{Live, new_session}
use note_usb.Session.Keeps.{Outcome}
use note_usb.Session.Keeps.Owned.{Owned, Closed, read_socket-Owned}
use note_usb.Session.Keeps.Typed.{read_socket-WellFormed}
use note_usb.Session.Handles.{session_holds}
use note_usb.Session.Lifecycle.{read_socket}
use note_usb.Session.Keeps.Provider.{AsksIfReturned, read_socket-AsksIfReturned}
use note_usb.Session.Thread.{
  Reader, Stopper, State, Move, reads, stops, run, spawned, reader_step, stop_step, erase_session,
}
use note_usb.Session.Thread.Lost.{race, run-race}
use note_usb.Session.Thread.Dangling.{is_dangling, stopping, waiting, erase_session-run}
use note_usb.Module.Hotplug.{left, hotplug_callback_detached}
use note_usb.Module.Hotplug.Delivery.{broadcasts, listeners}
use note_usb.Module.Hotplug.Arriving.{detached-handle_client}
use note_usb.Module.Life.{new_module}
use note_usb.Module.Life.Clients.{handle_client}
use note_usb.Tests.{mouse, fields, Fields, empty_world}
use note_usb.Tests.Reports.{list_queue}
use note_usb.Tests.Clients.{client, keyed, keyed-Advances}

abbrev claim_mouse : Fields
claim_mouse = fields (codes "claim") (codes "1:3")

read_socket-Owned_example :
    Outcome
      (Owned 6 (session_holds 6 client) empty_world)
      (Closed 6 (session_holds 6 client) empty_world)
      client
      (read_socket mouse client (claim_mouse ∷ claim_mouse ∷ []) empty_world)
read_socket-Owned_example =
    read_socket-Owned mouse 6 client (claim_mouse ∷ claim_mouse ∷ []) empty_world

read_socket-WellFormed_example :
    WellFormed (read_socket mouse client (claim_mouse ∷ claim_mouse ∷ []) empty_world).1
unfolding all_well_formed
read_socket-WellFormed_example =
    read_socket-WellFormed mouse client (claim_mouse ∷ claim_mouse ∷ []) empty_world refl

-- A session as handle_client makes it.
abbrev fresh : Live mouse list_queue
fresh = record { session = new_session (pos 4) (pos 400) []; streaming = none }

read_socket-AsksIfReturned_example : AsksIfReturned mouse (codes "unknown") (codes "key") (
    read_socket mouse fresh.session
      (fields (codes "other") (codes "1:3") ∷ claim_mouse ∷ [])
      empty_world)
unfolding new_session
read_socket-AsksIfReturned_example =
    read_socket-AsksIfReturned mouse fresh.session
      (fields (codes "other") (codes "1:3") ∷ claim_mouse ∷ []) (codes "key") empty_world refl

-- The thread waits in its read, and stop() has stored its request.
abbrev asked : State keyed list_queue
asked = record {
  live = some (record { session = record client { stop_requested = true }; streaming = none });
  reader = Reader.reading;
  stopper = Stopper.joining;
  world = empty_world;
}

abbrev with_message : List (Move keyed list_queue)
with_message = reads (some claim_mouse) ∷ stops ∷ reads none ∷ reads none ∷ []

abbrev three_reads : List (Move mouse list_queue)
three_reads = reads (some claim_mouse) ∷ stops ∷ reads none ∷ reads none ∷ []

run-race_example :
    let s =
      run mouse list_queue 3 (race mouse list_queue) (spawned mouse list_queue fresh empty_world) in
    (s.stopper ≡ Stopper.outside)
    × ((reader_step mouse list_queue 3 none s).reader ≡ Reader.reading)
    × (stop_step mouse list_queue 3 (run mouse list_queue 3 three_reads s)
        ≡ run mouse list_queue 3 three_reads s)
unfolding new_session
run-race_example = run-race mouse list_queue 3 fresh empty_world none three_reads refl refl refl

-- A session as handle_client makes it, whose thread runs.
abbrev running : Live keyed list_queue
running = record {
  session = record (new_session (pos 4) (pos 400) []) { running = true };
  streaming = none;
}

erase_session-run_example :
    let s =
      run keyed list_queue 3
        (stopping keyed list_queue)
        (waiting keyed list_queue running empty_world) in
    (is_dangling (reader_step keyed list_queue 3 none (erase_session keyed list_queue 3 s)).reader
      ≡ true)
    × (is_dangling
          (reader_step keyed list_queue 3 none
            (erase_session keyed list_queue 3 (run keyed list_queue 3 with_message s))).reader
        ≡ false)
unfolding new_session
erase_session-run_example =
    erase_session-run keyed list_queue 3 running empty_world with_message none keyed-Advances refl
      refl refl (omega arith)

detached-handle_client_example :
    let w' =
      (handle_client mouse list_queue
        (new_module mouse list_queue)
        (pos 5)
        (pos 400)
        1
        empty_world).1 in
    broadcasts (pos 400) (hotplug_callback_detached mouse 3 left w').1.history
    ≡ (if int_eq (pos 400) (pos 400) then 1 else 0)
      + listeners (pos 400) empty_world.sessions
      + broadcasts (pos 400) empty_world.history
unfolding new_module lookup
detached-handle_client_example =
    detached-handle_client mouse list_queue (new_module mouse list_queue) (pos 5) (pos 400) 1 3
      (pos 400) empty_world refl refl
