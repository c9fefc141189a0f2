-- ===== src/Streaming/Stop.antt =====
-- How `stop` and the destructor of a HIDStreamingThread end (src/hid_streaming_thread.cpp).
use note_usb.Shared.{
  ℕ, ◌+◌, ◌<◌, ◌≡◌, refl, sym, ap, ◌∙◌, true, false, some, List, [], arith, Text, ℤ, length,
  Bool-cases, inl, inr,
}
use mathlib.Core.Path.{subst}
use note_usb.Platform.{Env, World, undelivered}
use note_usb.Session.{Ran, returned, threw, crashed, hung}
use note_usb.Streaming.{ReportQueue, Stream, process_hid_report, send_to_client, process_loop}
use note_usb.Streaming.Capture.{
  sentinel, push_or_keep, request_stop, finish_stop, joined, stop, destroyed, destroy_stream,
}
use note_usb.Streaming.Order.{
  Fifo, IsUnencrypted, TakesAll, protect_plain, NoSentinel, packets, packet_of, sent_after,
  Delivered, process_loop-Delivered,
}
use note_usb.Streaming.System.Effect.{finish_stop_keeps, request_stop-Effect}

module _ (env : Env) (q : ReportQueue) (fifo : Fifo q) where
  -- `stop` has returned: the queue is empty, the client has these packets, the threads are joined and
  -- the transfer is freed.
  abbrev pub Stopped : ℤ → List Text → Ran (Stream × q.Queue) × World env.Value → Type 0
  Stopped fd sent (returned (s, queue), w) =
      (fifo.contents queue ≡ [])
      × ((packets fd w.history ≡ sent) × ((s.joinable ≡ false) × (s.has_transfer ≡ false)))
  Stopped fd sent (threw, w) = ⊥
  Stopped fd sent (crashed, w) = ⊥
  Stopped fd sent (hung, w) = ⊥

  joined-Stopped :
      (fd : ℤ) (sent : List Text) (r : Ran (Stream × q.Queue) × World env.Value)
      → Delivered env q fifo fd sent r
      → Stopped fd sent (joined env q r.0 r.1)
  unfolding joined
  joined-Stopped fd sent (returned (s, queue), w) (c, p) = (
    c,
    (
      (finish_stop_keeps env q fifo fd s w).1.0 ∙ p,
      (unfold finish_stop in refl, unfold finish_stop in refl),
    ),
  )
  joined-Stopped fd sent (threw, w) d = d
  joined-Stopped fd sent (crashed, w) d = d
  joined-Stopped fd sent (hung, w) d = d

  requested :
      (s : Stream) (queue queue' : q.Queue) (w : World env.Value)
      → q.try_push sentinel queue ≡ some queue'
      → (request_stop env q s queue w).0.1 ≡ queue'
  unfolding request_stop push_or_keep
  requested s queue queue' w e = rw (e, push_or_keep) refl

  stop_running :
      (f : ℕ) (s : Stream) (queue : q.Queue) (w : World env.Value)
      → s.running ≡ true
      → let x = request_stop env q s queue w in
        let r = process_loop env q f x.0.0 x.0.1 x.1 in
        stop env q f s queue w ≡ joined env q r.0 r.1
  unfolding stop
  stop_running f s queue w r = elim (Bool-cases s.running) [
    | inl e ↦ simp e refl
    | inr e ↦ absurd (ground (arith, r, e))
  ]

  stopping-Delivered :
      (f : ℕ) (s : Stream) (queue : q.Queue) (w : World env.Value)
      → IsUnencrypted s.session
      → TakesAll env s.client_fd
      → NoSentinel (fifo.contents queue)
      → length (fifo.contents queue) < fifo.capacity
      → length (fifo.contents queue) + 1 < f
      → let x = request_stop env q s queue w in
        Delivered env q fifo s.client_fd
          (sent_after
            (packet_of env s.device_id)
            (fifo.contents queue)
            (packets s.client_fd w.history))
          (process_loop env q f x.0.0 x.0.1 x.1)
  stopping-Delivered f s queue w n a m c l =
      let x = request_stop env q s queue w in
      let (queue', e) = fifo.push_room queue sentinel c in
      let k = request_stop-Effect env q fifo s.client_fd s queue w in
      subst
        (λ old.
          Delivered env q fifo s.client_fd
            (sent_after (packet_of env s.device_id) (fifo.contents queue) old)
            (process_loop env q f x.0.0 x.0.1 x.1))
        k.1.0
        (unfold request_stop in
          process_loop-Delivered env q fifo f x.0.0 x.0.1 (fifo.contents queue) sentinel x.1 n a m
            refl
            (ap fifo.contents (requested s queue queue' w e)
              ∙ fifo.push_last queue queue' sentinel e)
            l)

  pub stop-Stopped :
      (f : ℕ) (s : Stream) (queue : q.Queue) (w : World env.Value)
      → s.running ≡ true
      → IsUnencrypted s.session
      → TakesAll env s.client_fd
      → NoSentinel (fifo.contents queue)
      → length (fifo.contents queue) < fifo.capacity
      → length (fifo.contents queue) + 1 < f
      → Stopped s.client_fd
          (sent_after
            (packet_of env s.device_id)
            (fifo.contents queue)
            (packets s.client_fd w.history))
          (stop env q f s queue w)
  stop-Stopped f s queue w r n a m c l =
      let x = request_stop env q s queue w in
      subst
        (Stopped s.client_fd (
          sent_after (packet_of env s.device_id) (fifo.contents queue)
            (packets s.client_fd w.history)))
        (sym (stop_running f s queue w r))
        (joined-Stopped s.client_fd _ (process_loop env q f x.0.0 x.0.1 x.1)
          (stopping-Delivered f s queue w n a m c l))

  -- A stream that was stopped so can be destroyed.
  destroyed-Stopped :
      (fd : ℤ) (sent : List Text) (r : Ran (Stream × q.Queue) × World env.Value)
      → Stopped fd sent r
      → destroyed env q r.0 ≡ returned tt
  unfolding destroyed
  destroyed-Stopped fd sent (returned (s, queue), w) d = rw (d.1.1.0, destroyed) refl
  destroyed-Stopped fd sent (threw, w) d = absurd d
  destroyed-Stopped fd sent (crashed, w) d = absurd d
  destroyed-Stopped fd sent (hung, w) d = absurd d

  -- Under the same conditions, the destructor returns.
  pub destroy_stream-returned :
      (f : ℕ) (s : Stream) (queue : q.Queue) (w : World env.Value)
      → s.running ≡ true
      → IsUnencrypted s.session
      → TakesAll env s.client_fd
      → NoSentinel (fifo.contents queue)
      → length (fifo.contents queue) < fifo.capacity
      → length (fifo.contents queue) + 1 < f
      → (destroy_stream env q f s queue w).0 ≡ returned tt
  unfolding destroy_stream
  destroy_stream-returned f s queue w r n a m c l =
      destroyed-Stopped s.client_fd _ (stop env q f s queue w)
        (stop-Stopped f s queue w r n a m c l)

  abandoned :
      (f : ℕ) (s : Stream) (queue : q.Queue) (w : World env.Value)
      → s.running ≡ false
      → s.joinable ≡ true
      → (destroy_stream env q f s queue w).0 ≡ crashed
  unfolding destroy_stream stop destroyed
  abandoned f s queue w r j = elim (Bool-cases s.running) [
    | inl e ↦ absurd (ground (arith, r, e))
    | inr e ↦ simp (e, j) refl
  ]

  -- Once a write to the client has failed in a stream without encryption whose threads were started, the
  -- destructor ends the program, with any fuel: `stop` returns before it joins them.
  pub destroy_stream-crashed :
      (f : ℕ) (s : Stream) (queue : q.Queue) (content : Text) (w : World env.Value)
      → IsUnencrypted s.session
      → s.joinable ≡ true
      → env.write_packet w.history s.client_fd ≡ undelivered
      → let (s', w') = process_hid_report env s content w in
        (destroy_stream env q f s' queue w').0 ≡ crashed
  destroy_stream-crashed f s queue content w n j e =
      let r = process_hid_report env s content w in
      abandoned f r.0 queue r.1
        (unfold process_hid_report send_to_client in simp (protect_plain env s.session _ w n, e))
        (unfold process_hid_report send_to_client in simp (protect_plain env s.session _ w n, e) j)
