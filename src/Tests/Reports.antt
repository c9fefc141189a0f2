-- ===== src/Tests/Reports.antt =====
-- A run of the process thread, with a list as the queue.
use note_usb.Shared.{
  ◌<◌, ◌≡◌, ltb, length, ◌++◌, if◌then◌else◌, refl, ap, arith, true, false, Option, none, some,
  List, [], ◌∷◌, codes, pos,
}
use note_usb.Streaming.{Report, ReportQueue, Stream, process_loop}
use note_usb.Streaming.Capture.{sentinel}
use note_usb.Streaming.Order.{
  Fifo, Delivered, packets, packet_of, sent_after, process_loop-Delivered,
}
use note_usb.Tests.{mouse, empty_world}

abbrev pub pop : List Report → Option (Report × List Report)
pop [] = none
pop (r ∷ rs) = some (r, rs)

abbrev pub list_queue : ReportQueue
list_queue = record {
  Queue = List Report;
  created = [];
  try_push = λ r queue. if ltb (length queue) 256 then some (queue ++ r ∷ []) else none;
  try_pop = pop;
}

pub list_push_last :
    (queue queue' : List Report) (r : Report)
    → list_queue.try_push r queue ≡ some queue'
    → queue' ≡ queue ++ r ∷ []
list_push_last queue queue' r e = ground (arith, e)

pub list_push_room :
    (queue : List Report) (r : Report)
    → length queue < 256
    → (queue' : List Report) × (list_queue.try_push r queue ≡ some queue')
list_push_room queue r h = (queue ++ r ∷ [], ground (arith, h))

abbrev pub list_fifo : Fifo list_queue
list_fifo = record {
  contents = λ queue. queue;
  capacity = 256;
  created_empty = refl;
  push_last = list_push_last;
  push_room = list_push_room;
  pop_first = λ queue r rs e. (rs, (ap pop e, refl));
  pop_empty = λ queue e. ap pop e;
}

abbrev pub key_down : Report
key_down = record { content = 0 ∷ 0 ∷ 4 ∷ []; is_sentinel = false }

abbrev pub stream : Stream
stream = record {
  client_fd = pos 4;
  device_id = codes "1:3";
  running = true;
  stop_requested = false;
  session = none;
  has_transfer = true;
  joinable = true;
  events_read = 0;
  events_sent = 0;
  events_dropped = 0;
}

process_loop-Delivered_example :
    Delivered mouse list_queue list_fifo
      (pos 4)
      (sent_after
        (packet_of mouse (codes "1:3"))
        (key_down ∷ key_down ∷ [])
        (packets (pos 4) empty_world.history))
      (process_loop mouse list_queue 4 stream (key_down ∷ key_down ∷ sentinel ∷ []) empty_world)
process_loop-Delivered_example =
    process_loop-Delivered mouse list_queue list_fifo 4 stream (key_down ∷ key_down ∷ sentinel ∷ [])
      (key_down ∷ key_down ∷ []) sentinel empty_world tt (λ h. refl) (refl, (refl, tt)) refl refl
      (omega arith)
