-- ===== src/Streaming/System.antt =====
-- The threads of a HIDStreamingThread that was started, interleaved in any order: the capture thread
-- with its callbacks, the process thread, a caller of `stop`, and the thread of the session, which
-- may enable and disable encryption meanwhile. Each operation of the queue, each write to the client,
-- and each store to `running_` is a step of its own. The test of `running_` and the rest of a callback
-- are two steps, and so are the exchange of `stop` or of notify_device_lost and the push behind it.
-- `resubmit`, its test of `running_` included, is one.
pub mod Effect
pub mod Pending
pub mod Moves
pub mod Conserved
pub mod Stuck
pub mod Single
pub mod Secret
use note_usb.Shared.{◌≡◌, Bool, true, false, Option, none, some, Text, is_empty, if◌then◌else◌}
use note_usb.Platform.{Env, World, Delivery}
use note_usb.Session.{Session}
use note_usb.Streaming.{Report, ReportQueue, Stream, settle, count_sent, write_report}
use note_usb.Streaming.Capture.{
  TransferStatus, completed, no_device, other_status, sentinel, push_or_keep, on_transfer,
  mark_stop, wake_threads, finish_stop,
}

-- Where the capture thread stands: in its loop, in a callback behind the guard, in
-- notify_device_lost between its exchange and its push, or behind the loop.
pub data CapturePc : Type 0 where
  watching : CapturePc
  called : TransferStatus → Text → CapturePc
  losing : CapturePc
  gone : CapturePc

-- Where the process thread stands: in its first loop, with a report in hand, behind the write of
-- one; in the draining loop, there with a report in hand, behind the write of one; or at its end.
pub data ProcessPc : Type 0 where
  looping : ProcessPc
  holding : Text → ProcessPc
  written : Delivery → ProcessPc
  draining : ProcessPc
  drain_holding : Text → ProcessPc
  drain_written : Delivery → ProcessPc
  ended : ProcessPc

-- Where a caller of `stop` stands: outside, between the exchange and the push, or in the joins.
pub data StopPc : Type 0 where
  idle : StopPc
  marked : StopPc
  joining : StopPc

-- `LIBUSB_TRANSFER_NO_DEVICE`
abbrev pub is_lost : TransferStatus → Bool
is_lost completed = false
is_lost no_device = true
is_lost other_status = false

-- `if (!event.is_sentinel && !event.data.empty())`
abbrev pub drain_next : Report → ProcessPc
drain_next r =
    if r.is_sentinel
    then draining
    else if is_empty r.content
    then draining
    else drain_holding r.content

module _ (env : Env) (q : ReportQueue) where
  pub record System : Type 0 where
    pub stream : Stream
    pub queue : q.Queue
    pub capture : CapturePc
    pub process : ProcessPc
    pub stopping : StopPc
    pub world : World env.Value

  -- `Allowed` is what the session's thread may make of the session.
  pub data Step (Allowed : Option Session → Type 0) (s : System) : System → Type 0 where
    enter :
        (status : TransferStatus) (buffer : Text)
        → s.capture ≡ watching
        → s.stream.running ≡ true
        → Step Allowed s (record s { capture = called status buffer })
    act :
        (status : TransferStatus) (buffer : Text)
        → s.capture ≡ called status buffer
        → is_lost status ≡ false
        → Step Allowed s (record s {
          stream = (on_transfer env q s.stream s.queue status buffer s.world).0.0;
          queue = (on_transfer env q s.stream s.queue status buffer s.world).0.1;
          world = (on_transfer env q s.stream s.queue status buffer s.world).1;
          capture = watching;
        })
    lose :
        (buffer : Text)
        → s.capture ≡ called no_device buffer
        → Step Allowed s (record s {
          stream = record s.stream { running = false };
          capture = if s.stream.running then losing else watching;
        })
    push_lost :
        s.capture ≡ losing
        → Step Allowed s
            (record s { queue = push_or_keep env q sentinel s.queue; capture = watching })
    leave :
        s.capture ≡ watching
        → s.stream.running ≡ false
        → Step Allowed s (record s { capture = gone })
    take :
        (r : Report) (queue' : q.Queue)
        → s.process ≡ looping
        → q.try_pop s.queue ≡ some (r, queue')
        → Step Allowed s (record s {
          queue = queue';
          process = if r.is_sentinel then draining else holding r.content;
        })
    send :
        (content : Text)
        → s.process ≡ holding content
        → Step Allowed s (record s {
          world = (write_report env s.stream content s.world).1;
          process = written (write_report env s.stream content s.world).0;
        })
    settles :
        (result : Delivery)
        → s.process ≡ written result
        → Step Allowed s
            (record s { stream = count_sent env (settle env result s.stream); process = looping })
    drain_take :
        (r : Report) (queue' : q.Queue)
        → s.process ≡ draining
        → q.try_pop s.queue ≡ some (r, queue')
        → Step Allowed s (record s { queue = queue'; process = drain_next r })
    drain_send :
        (content : Text)
        → s.process ≡ drain_holding content
        → Step Allowed s (record s {
          world = (write_report env s.stream content s.world).1;
          process = drain_written (write_report env s.stream content s.world).0;
        })
    drain_settles :
        (result : Delivery)
        → s.process ≡ drain_written result
        → Step Allowed s
            (record s { stream = count_sent env (settle env result s.stream); process = draining })
    finish :
        s.process ≡ draining
        → q.try_pop s.queue ≡ none
        → Step Allowed s (record s { process = ended })
    ask_stop :
        s.stopping ≡ idle
        → s.stream.running ≡ true
        → Step Allowed s (record s { stream = mark_stop env q s.stream; stopping = marked })
    wake :
        s.stopping ≡ marked
        → Step Allowed s (record s {
          queue = (wake_threads env q s.stream s.queue s.world).0;
          world = (wake_threads env q s.stream s.queue s.world).1;
          stopping = joining;
        })
    end_stop :
        s.stopping ≡ joining
        → s.capture ≡ gone
        → s.process ≡ ended
        → Step Allowed s (record s {
          stream = (finish_stop env q s.stream s.world).0;
          world = (finish_stop env q s.stream s.world).1;
          stopping = idle;
        })
    rekey :
        (session : Option Session)
        → Allowed session
        → Step Allowed s (record s { stream = record s.stream { session = session } })

  pub data Steps (Allowed : Option Session → Type 0) (s : System) : System → Type 0 where
    here : Steps Allowed s s
    next : {t u : System} → Steps Allowed s t → Step Allowed t u → Steps Allowed s u

  -- Behind `start`, with both threads running.
  unfoldable pub launched : Stream → World env.Value → System
  launched s w = record {
    stream = s;
    queue = q.created;
    capture = watching;
    process = looping;
    stopping = idle;
    world = w;
  }
