-- ===== src/Tests/Streams.antt =====
-- Runs of a HIDStreamingThread with both its threads, with a list as the queue.
use note_usb.Shared.{◌≡◌, ◌≢◌, refl, arith, none, List, [], ◌∷◌, codes, pos, ℕ, zero, suc}
use note_usb.Platform.{Env, undelivered}
use note_usb.Session.{crashed}
use note_usb.Streaming.{Stream, Report, process_hid_report, settle, count_sent, write_report}
use note_usb.Streaming.Capture.{
  new_stream, start, completed, on_transfer, push_report, request_stop, destroy_stream, report,
}
use note_usb.Streaming.Order.{IsUnencrypted, NoSentinel, packets}
use note_usb.Streaming.System.{
  System, idle, joining, written, watching, called, looping, holding, ended, enter, act, take,
  Steps, here, next, launched,
}
use note_usb.Streaming.System.Effect.{accepted}
use note_usb.Streaming.System.Moves.{Conserved}
use note_usb.Streaming.System.Conserved.{Steps-Conserved}
use note_usb.Streaming.System.Stuck.{failed_send-ended, full_stop-ended}
use note_usb.Streaming.Start.{Launched, start-Launched}
use note_usb.Streaming.Stop.{destroy_stream-crashed}
use note_usb.Tests.{mouse, empty_world}
use note_usb.Tests.Reports.{list_queue, list_fifo, key_down, stream}

-- The states of a run: a report arrives, is queued, is taken, and is sent.
abbrev arrived : System mouse list_queue
arrived = record (launched mouse list_queue stream empty_world) {
  capture = called completed (codes "key");
}

abbrev queued : System mouse list_queue
queued = record {
  stream = (on_transfer mouse list_queue stream [] completed (codes "key") empty_world).0.0;
  queue = (on_transfer mouse list_queue stream [] completed (codes "key") empty_world).0.1;
  capture = watching;
  process = looping;
  stopping = idle;
  world = (on_transfer mouse list_queue stream [] completed (codes "key") empty_world).1;
}

abbrev taken : System mouse list_queue
taken = record queued { queue = []; process = holding (codes "key") }

sent_key : Steps mouse list_queue IsUnencrypted (launched mouse list_queue stream empty_world) taken
unfolding launched on_transfer push_report
sent_key =
    next
      (next (next here (enter completed (codes "key") refl refl))
        (act completed (codes "key") refl refl))
      (take (report (codes "key")) [] refl refl)

Steps-Conserved_example : Conserved mouse list_queue list_fifo (pos 4) (codes "1:3") taken
unfolding packets accepted
Steps-Conserved_example =
    Steps-Conserved mouse list_queue list_fifo stream empty_world tt (λ h. refl) refl refl sent_key

-- A client that is gone.
abbrev gone_client : Env
gone_client = record mouse { write_packet = λ h fd. undelivered }

-- Its write has failed.
abbrev refused : System gone_client list_queue
refused = record {
  stream = stream;
  queue = key_down ∷ [];
  capture = watching;
  process = written undelivered;
  stopping = idle;
  world = (write_report gone_client stream (codes "key") empty_world).1;
}

abbrev failed : System gone_client list_queue
failed = record refused {
  stream = count_sent gone_client (settle gone_client undelivered stream);
  process = looping;
}

failed_send-ended_example : looping ≢ ended
failed_send-ended_example =
    failed_send-ended gone_client list_queue list_fifo IsUnencrypted refused {t = failed} refl
      (refl, tt) tt (λ m. absurd (ground (arith, m))) here

destroy_stream-crashed_example :
    let (s', w') = process_hid_report gone_client stream (codes "key") empty_world in
    (destroy_stream gone_client list_queue 9 s' [] w').0 ≡ crashed
destroy_stream-crashed_example =
    destroy_stream-crashed gone_client list_queue list_fifo 9 stream [] (codes "key") empty_world tt
      refl refl

-- A queue that the process thread does not empty.
unfoldable backlog : ℕ → List Report
backlog zero = []
backlog (suc n) = key_down ∷ backlog n

backlog-NoSentinel : (n : ℕ) → NoSentinel (backlog n)
unfolding backlog
backlog-NoSentinel zero = tt
backlog-NoSentinel (suc n) = (refl, backlog-NoSentinel n)

abbrev waiting : System mouse list_queue
waiting = record {
  stream = stream;
  queue = backlog 256;
  capture = watching;
  process = looping;
  stopping = idle;
  world = empty_world;
}

abbrev asked : System mouse list_queue
asked = record {
  stream = (request_stop mouse list_queue stream (backlog 256) empty_world).0.0;
  queue = (request_stop mouse list_queue stream (backlog 256) empty_world).0.1;
  capture = watching;
  process = looping;
  stopping = joining;
  world = (request_stop mouse list_queue stream (backlog 256) empty_world).1;
}

full_stop-ended_example : looping ≢ ended
unfolding backlog
full_stop-ended_example =
    full_stop-ended mouse list_queue list_fifo IsUnencrypted waiting {t = asked} tt
      (backlog-NoSentinel 256) refl tt here

-- A stream as the constructor makes it.
abbrev unstarted : Stream
unstarted = new_stream (codes "1:3") (pos 4) none

start-Launched_example : Launched mouse empty_world 0 (start mouse unstarted empty_world)
unfolding new_stream
start-Launched_example = start-Launched mouse unstarted empty_world (refl, (refl, refl))
