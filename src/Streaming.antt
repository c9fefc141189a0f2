-- ===== src/Streaming.antt =====
-- HIDStreamingThread (include/note_usb/hid_streaming_thread.h, src/hid_streaming_thread.cpp): its
-- state and its process thread, which takes reports out of the queue and sends them to the client.
-- dro::SPSCQueue is a third-party header; its operations are a parameter. The time stamp of a
-- report is never read and is left out.
pub mod Order
pub mod Capture
pub mod System
pub mod Start
pub mod Stop
use note_usb.Shared.{
  ℕ, zero, suc, ◌+◌, ◌%◌, ◌^◌, Bool, true, false, Option, none, some, List, [], ◌∷◌, Text, is_empty,
  ℤ, if◌then◌else◌,
}
use note_usb.Protocol.{Field, Entry, Response, scalar, bytes, text}
use note_usb.Platform.{
  Env, Act, ◌>>=◌, pure, ask, streamed, Delivery, delivered, would_block, undelivered,
}
use note_usb.Session.{Session, Ran, returned, threw, crashed, hung}
use note_usb.Session.Cipher.{encrypt_data}

-- `HIDReportEvent`
pub record Report : Type 0 where
  pub content : Text
  pub is_sentinel : Bool

-- `dro::SPSCQueue<HIDReportEvent>`: a new one, `try_push` (`none` if it gives false) and `try_pop`.
pub record ReportQueue : Type 1 where
  pub Queue : Type 0
  pub created : Queue
  pub try_push : Report → Queue → Option Queue
  pub try_pop : Queue → Option (Report × Queue)

-- `session` is what `session_` points to, as it is at the moment: the session's own thread changes
-- it while the stream runs.
pub record Stream : Type 0 where
  pub client_fd : ℤ
  pub device_id : Text
  pub running : Bool
  pub stop_requested : Bool
  pub session : Option Session
  -- `xfer_` is not null; the two threads are joinable
  pub has_transfer : Bool
  pub joinable : Bool
  pub events_read : ℕ
  pub events_sent : ℕ
  pub events_dropped : ℕ

module _ (env : Env) where
  abbrev V : Type 0
  V = env.Value

  unfoldable pub payload_of : Text → List Text
  payload_of [] = []
  payload_of (b ∷ rest) = (b ∷ []) ∷ payload_of rest

  unfoldable pub report_event : Text → Text → Response V
  unfolding payload_of
  report_event id report =
      (Field.device_id, scalar (text id)) ∷ (Field.payload, bytes (payload_of report)) ∷ []

  -- The call of `::write`.
  unfoldable pub write_to_client : Stream → Text → Act V Delivery
  write_to_client s packet =
      ask (λ h. env.write_packet h s.client_fd) (λ r. streamed s.client_fd packet r)

  -- What follows it; `errno` that is neither EAGAIN nor EWOULDBLOCK ends the stream.
  unfoldable pub settle : Delivery → Stream → Stream
  settle delivered s = s
  settle would_block s = s
  settle undelivered s = record s { running = false }

  unfoldable pub send_to_client : Stream → Text → Act V Stream
  unfolding write_to_client settle
  send_to_client s packet = do result ← write_to_client s packet; pure (settle result s)

  -- A packet that cannot be encrypted goes out as it is.
  abbrev encrypted_or : Text → Option Text → Text
  encrypted_or packet none = packet
  encrypted_or packet (some encrypted) = encrypted

  unfoldable pub protect : Option Session → Text → Act V Text
  unfolding encrypt_data
  protect none packet = pure packet
  protect (some session) packet =
      if session.encryption_enabled
      then (do encrypted ← encrypt_data env session packet; pure (encrypted_or packet encrypted))
      else pure packet

  -- The counter is a `uint64_t`.
  abbrev pub count_sent : Stream → Stream
  count_sent s = record s { events_sent = (s.events_sent + 1) % 2 ^ 64 }

  unfoldable pub process_hid_report : Stream → Text → Act V Stream
  unfolding report_event send_to_client protect
  process_hid_report s report = do
    packet ← protect s.session (env.serialize (report_event s.device_id report))
    s' ← send_to_client s packet
    pure (count_sent s')

  -- `process_hid_report` up to the call of `::write`.
  unfoldable pub write_report : Stream → Text → Act V Delivery
  unfolding report_event write_to_client protect
  write_report s report = do
    packet ← protect s.session (env.serialize (report_event s.device_id report))
    write_to_client s packet

  module _ (q : ReportQueue) where
    -- One report of the draining loop.
    unfoldable pub drain_one : Stream → Report → Act V Stream
    unfolding process_hid_report
    drain_one s r =
        if r.is_sentinel
        then pure s
        else if is_empty r.content
        then pure s
        else process_hid_report s r.content

    -- The draining loop, over what is in the queue. Without fuel it would go on.
    unfoldable pub drain : ℕ → Stream → q.Queue → Act V (Ran (Stream × q.Queue))
    unfolding drain_one
    drain zero s queue = pure hung
    drain (suc f) s queue = elim (q.try_pop queue) [
      | none ↦ pure (returned (s, queue))
      | some (r, queue') ↦ do s' ← drain_one s r; drain f s' queue'
    ]

    -- The loop up to a sentinel, over what is in the queue; on an empty queue it waits.
    unfoldable pub process_loop : ℕ → Stream → q.Queue → Act V (Ran (Stream × q.Queue))
    unfolding drain
    process_loop zero s queue = pure hung
    process_loop (suc f) s queue = elim (q.try_pop queue) [
      | none ↦ pure hung
      | some (r, queue') ↦
          if r.is_sentinel
          then drain f s queue'
          else (do s' ← process_hid_report s r.content; process_loop f s' queue')
    ]
