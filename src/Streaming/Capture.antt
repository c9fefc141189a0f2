-- ===== src/Streaming/Capture.antt =====
-- HIDStreamingThread's capture side (src/hid_streaming_thread.cpp): start and stop, the callback of
-- a transfer, and the destructor.
use note_usb.Shared.{
  ℕ, ◌+◌, ◌%◌, ◌^◌, Bool, true, false, Option, none, some, [], Text, is_empty, ℤ, if◌then◌else◌,
}
use note_usb.Platform.{
  Env, Answer, ok, fail, Act, ◌>>=◌, ◌>>◌, pure, note, ask, query, accepted_report,
  allocated_transfer, submitted_transfer, cancelled_transfer, freed_transfer,
}
use note_usb.Session.{Session, Ran, returned, threw, crashed, hung}
use note_usb.Streaming.{Report, ReportQueue, Stream, process_loop}

-- `xfer->status`; every other state is treated alike.
pub data TransferStatus : Type 0 where
  completed : TransferStatus
  no_device : TransferStatus
  other_status : TransferStatus

-- `HIDReportEvent::sentinel()`
abbrev pub sentinel : Report
sentinel = record { content = []; is_sentinel = true }

abbrev pub report : Text → Report
report buffer = record { content = buffer; is_sentinel = false }

abbrev pub tick : ℕ → ℕ
tick n = (n + 1) % 2 ^ 64

-- The constructor; `set_session` follows it.
unfoldable pub new_stream : Text → ℤ → Option Session → Stream
new_stream id fd session = record {
  client_fd = fd;
  device_id = id;
  running = false;
  stop_requested = false;
  session = session;
  has_transfer = false;
  joinable = false;
  events_read = 0;
  events_sent = 0;
  events_dropped = 0;
}

module _ (env : Env) where
  abbrev V : Type 0
  V = env.Value

  -- The end of `start`: the threads run, or the transfer is freed.
  unfoldable pub submitted : Stream → Answer (Unit {0}) → Act V Stream
  submitted s (ok _) = pure (record s { has_transfer = true; joinable = true })
  submitted s (fail rc) = do
    note freed_transfer
    pure (record s { has_transfer = false; running = false })

  -- `start` behind the allocation of the transfer.
  unfoldable pub start_transfer : Stream → Bool → Act V Stream
  unfolding submitted
  start_transfer s false = pure (record s { has_transfer = false; running = false })
  start_transfer s true = do
    buffer ← query env.alloc_buffer
    if buffer
        then (do result ← ask env.submit_transfer (λ r. submitted_transfer r); submitted s result)
        else (do note freed_transfer; pure (record s { has_transfer = false; running = false }))

  unfoldable pub start : Stream → Act V Stream
  unfolding start_transfer
  start s = if s.running then pure s else (do
    allocated ← ask env.alloc_transfer (λ b. allocated_transfer b)
    start_transfer (record s { running = true; stop_requested = false }) allocated)

  module _ (q : ReportQueue) where
    -- `(void)try_push(…)`: a full queue stays as it is.
    unfoldable pub push_or_keep : Report → q.Queue → q.Queue
    push_or_keep r queue = elim (q.try_push r queue) [ none ↦ queue | some queue' ↦ queue' ]

    unfoldable pub notify_device_lost : Stream → q.Queue → Stream × q.Queue
    unfolding push_or_keep
    notify_device_lost s queue =
        if s.running
        then (record s { running = false }, push_or_keep sentinel queue)
        else (s, queue)

    -- The branch of a report. The counters are `uint64_t`.
    unfoldable pub push_report : Stream → q.Queue → Text → Act V (Stream × q.Queue)
    push_report s queue buffer = elim (q.try_push (report buffer) queue) [
      | none ↦ pure (record s { events_dropped = tick s.events_dropped }, queue)
      | some queue' ↦ do
        note (accepted_report buffer)
        pure (record s { events_read = tick s.events_read }, queue')
    ]

    unfoldable pub resubmit : Stream → q.Queue → Act V (Stream × q.Queue)
    resubmit s queue =
        if s.running
        then (do
          result ← ask env.submit_transfer (λ r. submitted_transfer r)
          pure
              (elim result [ ok _ ↦ (s, queue) | fail rc ↦ (record s { running = false }, queue) ]))
        else pure (s, queue)

    -- The callback behind its guard. `buffer` holds `actual_length` bytes.
    unfoldable pub on_transfer : Stream → q.Queue → TransferStatus → Text → Act V (Stream × q.Queue)
    unfolding push_report notify_device_lost resubmit
    on_transfer s queue completed buffer =
        if is_empty buffer then resubmit s queue else push_report s queue buffer
    on_transfer s queue no_device buffer = pure (notify_device_lost s queue)
    on_transfer s queue other_status buffer = resubmit s queue

    unfoldable pub transfer_callback :
        Stream → q.Queue → TransferStatus → Text → Act V (Stream × q.Queue)
    unfolding on_transfer
    transfer_callback s queue status buffer =
        if s.running then on_transfer s queue status buffer else pure (s, queue)

    -- The exchange and the store of `stop`.
    unfoldable pub mark_stop : Stream → Stream
    mark_stop s = record s { running = false; stop_requested = true }

    -- `stop` behind them, up to the joins: the sentinel, and the transfer, if there is one.
    unfoldable pub wake_threads : Stream → q.Queue → Act V q.Queue
    unfolding push_or_keep
    wake_threads s queue = do
      let queue' = push_or_keep sentinel queue
      (if s.has_transfer then note cancelled_transfer else pure tt)
      pure queue'

    -- `stop` behind its test, up to the joins.
    unfoldable pub request_stop : Stream → q.Queue → Act V (Stream × q.Queue)
    unfolding mark_stop wake_threads
    request_stop s queue = do queue' ← wake_threads s queue; pure (mark_stop s, queue')

    -- `stop` behind the joins.
    unfoldable pub finish_stop : Stream → Act V Stream
    finish_stop s = do
      (if s.has_transfer then note freed_transfer else pure tt)
      pure (record s { has_transfer = false; joinable = false })

    -- What the joins wait for: the process thread runs on what is in the queue.
    unfoldable pub joined : Ran (Stream × q.Queue) → Act V (Ran (Stream × q.Queue))
    unfolding finish_stop
    joined (returned (s, queue)) = do s' ← finish_stop s; pure (returned (s', queue))
    joined threw = pure threw
    joined crashed = pure crashed
    joined hung = pure hung

    -- `stop` where the process thread is scheduled in the join, and the capture thread calls no
    -- callback any more. `f` is the fuel of the process loop.
    unfoldable pub stop : ℕ → Stream → q.Queue → Act V (Ran (Stream × q.Queue))
    unfolding request_stop process_loop joined
    stop f s queue =
        if s.running
        then (do r ← request_stop s queue; ended ← process_loop env q f r.0 r.1; joined ended)
        else pure (returned (s, queue))

    -- The end of the destructor: a `std::thread` that is joinable ends the program.
    unfoldable pub destroyed : Ran (Stream × q.Queue) → Ran (Unit {0})
    destroyed (returned (s, queue)) = if s.joinable then crashed else returned tt
    destroyed threw = threw
    destroyed crashed = crashed
    destroyed hung = hung

    unfoldable pub destroy_stream : ℕ → Stream → q.Queue → Act V (Ran (Unit {0}))
    unfolding stop destroyed
    destroy_stream f s queue = do r ← stop f s queue; pure (destroyed r)
