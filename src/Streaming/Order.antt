-- ===== src/Streaming/Order.antt =====
-- The packets that process_loop (src/hid_streaming_thread.cpp) writes, and their order.
use note_usb.Shared.{
  ℕ, zero, suc, ◌+◌, ◌<◌, ◌≡◌, refl, sym, true, false, Option, none, some, List, [], ◌∷◌, ◌++◌,
  arith, Text, ℤ, int_eq, int_eq_iff, if◌then◌else◌, length, is_empty, ◌⊎◌,
}
use mathlib.Core.Path.{subst}
use note_usb.Platform.{Env, World, History, streamed, delivered}
use note_usb.Session.{Session, Ran, returned, threw, crashed, hung}
use note_usb.Session.Cipher.{encrypt_data}
use note_usb.Streaming.{
  Report, ReportQueue, Stream, report_event, write_to_client, settle, send_to_client, protect,
  process_hid_report, write_report, drain, process_loop,
}

-- What the documentation of the queue says: a new queue is empty; `try_push` puts a report at the
-- end, and fails only on a full queue; `try_pop` takes out the oldest report, and fails only on an
-- empty queue.
pub record Fifo (q : ReportQueue) : Type 0 where
  pub contents : q.Queue → List Report
  pub capacity : ℕ
  pub created_empty : contents q.created ≡ []
  pub push_last :
      (queue queue' : q.Queue) (r : Report)
      → q.try_push r queue ≡ some queue'
      → contents queue' ≡ contents queue ++ r ∷ []
  pub push_room :
      (queue : q.Queue) (r : Report)
      → length (contents queue) < capacity
      → (queue' : q.Queue) × (q.try_push r queue ≡ some queue')
  pub pop_first :
      (queue : q.Queue) (r : Report) (rs : List Report)
      → contents queue ≡ r ∷ rs
      → (queue' : q.Queue) × ((q.try_pop queue ≡ some (r, queue')) × (contents queue' ≡ rs))
  pub pop_empty : (queue : q.Queue) → contents queue ≡ [] → q.try_pop queue ≡ none

-- The packets that the socket `fd` took, newest first. What `::write` refuses is lost.
unfoldable pub packets : {V : Type 0} → ℤ → History V → List Text
packets fd [] = []
packets fd (streamed to packet delivered ∷ h) =
    if int_eq to fd then packet ∷ packets fd h else packets fd h
packets fd (e ∷ h) = packets fd h

-- The packets of some reports, in their order, on top of older ones.
unfoldable pub sent_after : (Text → Text) → List Report → List Text → List Text
sent_after packet [] old = old
sent_after packet (r ∷ rs) old = sent_after packet rs (packet r.content ∷ old)

abbrev pub NoSentinel : List Report → Type 0
NoSentinel [] = Unit
NoSentinel (r ∷ rs) = (r.is_sentinel ≡ false) × NoSentinel rs

-- The stream does not encrypt: it has no session, or encryption is not enabled, or the key is empty.
abbrev pub IsUnencrypted : Option Session → Type 0
IsUnencrypted none = Unit
IsUnencrypted (some session) =
    (session.encryption_enabled ≡ false) ⊎ (is_empty session.encryption_key ≡ true)

-- The socket `fd` takes every packet.
abbrev pub TakesAll : Env → ℤ → Type 0
TakesAll env fd = (h : History env.Value) → env.write_packet h fd ≡ delivered

module _ (env : Env) where
  abbrev pub packet_of : Text → Text → Text
  packet_of id content = env.serialize (report_event env id content)

  -- Without encryption, a report is one packet, and the stream keeps its socket and its device.
  abbrev pub Processed : Text → Stream → World env.Value → Stream × World env.Value → Type 0
  Processed content s w (s', w') =
      (packets s.client_fd w'.history
        ≡ packet_of s.device_id content ∷ packets s.client_fd w.history)
      × ((s'.client_fd ≡ s.client_fd) × ((s'.device_id ≡ s.device_id) × (s'.session ≡ s.session)))

  send_to_client_keeps :
      (s : Stream) (packet : Text) (w : World env.Value)
      → let s' = (send_to_client env s packet w).0 in
        (s'.client_fd ≡ s.client_fd) × ((s'.device_id ≡ s.device_id) × (s'.session ≡ s.session))
  unfolding send_to_client write_to_client settle
  send_to_client_keeps s packet w = ground arith

  send_to_client-packets :
      (s : Stream) (packet : Text) (w : World env.Value)
      → TakesAll env s.client_fd
      → packets s.client_fd (send_to_client env s packet w).1.history
        ≡ packet ∷ packets s.client_fd w.history
  unfolding send_to_client write_to_client settle packets
  send_to_client-packets s packet w a =
      rw (a w.history) (ground (arith, int_eq_iff s.client_fd s.client_fd))

  pub protect_plain :
      (session : Option Session) (packet : Text) (w : World env.Value)
      → IsUnencrypted session
      → protect env session packet w ≡ (packet, w)
  unfolding protect encrypt_data
  protect_plain none packet w e = refl
  protect_plain (some session) packet w e = ground (arith, e)

  pub process_hid_report-Processed :
      (s : Stream) (content : Text) (w : World env.Value)
      → IsUnencrypted s.session
      → TakesAll env s.client_fd
      → Processed content s w (process_hid_report env s content w)
  unfolding process_hid_report
  process_hid_report-Processed s content w e a =
      let packet = packet_of s.device_id content in
      let k = send_to_client_keeps s packet w in
      rw (protect_plain s.session packet w e)
        (send_to_client-packets s packet w a, (k.0, (k.1.0, k.1.1)))

  -- The same of the write alone.
  pub write_report-packets :
      (s : Stream) (content : Text) (w : World env.Value)
      → IsUnencrypted s.session
      → TakesAll env s.client_fd
      → packets s.client_fd (write_report env s content w).1.history
        ≡ packet_of s.device_id content ∷ packets s.client_fd w.history
  unfolding write_report send_to_client
  write_report-packets s content w e a =
      let packet = packet_of s.device_id content in
      rw (protect_plain s.session packet w e) (send_to_client-packets s packet w a)

  module _ (q : ReportQueue) (fifo : Fifo q) where
    -- The loop has returned with an empty queue, and the client has the packets on top of `old`.
    abbrev pub Delivered : ℤ → List Text → Ran (Stream × q.Queue) × World env.Value → Type 0
    Delivered fd sent (returned (s, queue), w) =
        (fifo.contents queue ≡ []) × (packets fd w.history ≡ sent)
    Delivered fd sent (threw, w) = ⊥
    Delivered fd sent (crashed, w) = ⊥
    Delivered fd sent (hung, w) = ⊥

    drain-Delivered :
        (f : ℕ) (s : Stream) (queue : q.Queue) (w : World env.Value)
        → 0 < f
        → fifo.contents queue ≡ []
        → Delivered s.client_fd (packets s.client_fd w.history) (drain env q f s queue w)
    unfolding drain
    drain-Delivered zero s queue w p c = absurd (omega arith)
    drain-Delivered (suc f) s queue w p c = rw (Delivered, drain, fifo.pop_empty queue c) (c, refl)

    -- One round over a report.
    process_loop_round :
        (f : ℕ) (s : Stream) (queue queue' : q.Queue) (r : Report) (w : World env.Value)
        → q.try_pop queue ≡ some (r, queue')
        → r.is_sentinel ≡ false
        → let (s1, w1) = process_hid_report env s r.content w in
          process_loop env q (suc f) s queue w ≡ process_loop env q f s1 queue' w1
    unfolding process_loop
    process_loop_round f s queue queue' r w t n = rw (process_loop, t, n) refl

    -- What the round sent comes before the rest.
    round_sent :
        (id : Text) (fd : ℤ) (id' : Text) (fd' : ℤ) (rs : List Report) (old : List Text)
        (w : World env.Value) (result : Ran (Stream × q.Queue) × World env.Value)
        → fd' ≡ fd
        → id' ≡ id
        → packets fd w.history ≡ old
        → Delivered fd' (sent_after (packet_of id') rs (packets fd' w.history)) result
        → Delivered fd (sent_after (packet_of id) rs old) result
    round_sent id fd id' fd' rs old w result a b c d =
        subst (λ o. Delivered fd (sent_after (packet_of id) rs o) result) c
          (subst (λ i. Delivered fd (sent_after (packet_of i) rs (packets fd w.history)) result) b
            (subst (λ x. Delivered x (sent_after (packet_of id') rs (packets x w.history)) result) a
              d))

    -- Without a session, without encryption, or with an empty key, while that does not change, and if
    -- the client's socket takes every packet: if the queue holds some reports and then a sentinel,
    -- and nothing is added, then with a fuel of at least the number of reports and two the process
    -- loop returns with an empty queue, and the socket has taken exactly the packets of these
    -- reports, in their order.
    pub process_loop-Delivered :
        (f : ℕ) (s : Stream) (queue : q.Queue) (reports : List Report) (last : Report)
        (w : World env.Value)
        → IsUnencrypted s.session
        → TakesAll env s.client_fd
        → NoSentinel reports
        → last.is_sentinel ≡ true
        → fifo.contents queue ≡ reports ++ last ∷ []
        → length reports + 1 < f
        → Delivered s.client_fd
            (sent_after (packet_of s.device_id) reports (packets s.client_fd w.history))
            (process_loop env q f s queue w)
    unfolding process_loop sent_after
    process_loop-Delivered zero s queue rs last w e a n l c p = absurd (omega arith)
    process_loop-Delivered (suc f) s queue [] last w e a n l c p =
        let (queue', t) = fifo.pop_first queue last [] c in
        rw (Delivered, process_loop, t.0, l) (drain-Delivered f s queue' w (omega (arith, p)) t.1)
    process_loop-Delivered (suc f) s queue (r ∷ rs) last w e a n l c p =
        let (queue', t) = fifo.pop_first queue r (rs ++ last ∷ []) c in
        let h = process_hid_report-Processed s r.content w e a in
        let (s1, w1) = process_hid_report env s r.content w in
        subst
          (Delivered s.client_fd
            (sent_after (packet_of s.device_id) (r ∷ rs) (packets s.client_fd w.history)))
          (sym (process_loop_round f s queue queue' r w t.0 n.0))
          (round_sent s.device_id s.client_fd s1.device_id s1.client_fd rs _ w1 _ h.1.0 h.1.1.0 h.0
            (process_loop-Delivered f s1 queue' rs last w1 (rw h.1.1.1 e) (rw h.1.0 a) n.1 l t.1
              (omega (arith, p))))
