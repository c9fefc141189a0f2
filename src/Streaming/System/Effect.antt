-- ===== src/Streaming/System/Effect.antt =====
-- What the callbacks and `stop` of a HIDStreamingThread do to its queue and its state
-- (src/hid_streaming_thread.cpp).
use note_usb.Shared.{
  ◌≡◌, refl, false, List, [], ◌∷◌, ◌++◌, arith, Text, ℤ, is_empty, Bool-cases, Option-cases, inl,
  inr,
}
use note_usb.Platform.{
  Env, World, Delivery, History, Answer, ok, fail, accepted_report, both_branches,
  submitted_transfer,
}
use note_usb.Streaming.{
  Report, ReportQueue, Stream, settle, write_report, write_to_client, protect, process_hid_report,
  send_to_client, count_sent,
}
use note_usb.Session.Cipher.{encrypt_data}
use note_usb.Streaming.Capture.{
  TransferStatus, completed, no_device, other_status, sentinel, report, push_or_keep,
  notify_device_lost, push_report, resubmit, on_transfer, mark_stop, wake_threads, request_stop,
  finish_stop,
}
use note_usb.Streaming.Order.{Fifo, packets}

-- The reports that the queue accepted, newest first.
unfoldable pub accepted : {V : Type 0} → History V → List Text
accepted [] = []
accepted (accepted_report content ∷ h) = content ∷ accepted h
accepted (e ∷ h) = accepted h

abbrev pub KeepsStream : Stream → Stream → Type 0
KeepsStream s s' =
    (s'.client_fd ≡ s.client_fd)
    × ((s'.device_id ≡ s.device_id)
        × ((s'.session ≡ s.session) × ((s.running ≡ false) → s'.running ≡ false)))

-- A queue and the accepted reports: as they were, or with one report more, or with a sentinel more.
pub data QueueEffect (c : List Report) (a : List Text) (c' : List Report) (a' : List Text)
    : Type 0 where
  same : c' ≡ c → a' ≡ a → QueueEffect c a c' a'
  one_report :
      (content : Text)
      → is_empty content ≡ false
      → c' ≡ c ++ report content ∷ []
      → a' ≡ content ∷ a
      → QueueEffect c a c' a'
  one_sentinel : c' ≡ c ++ sentinel ∷ [] → a' ≡ a → QueueEffect c a c' a'

module _ (env : Env) (q : ReportQueue) (fifo : Fifo q) where
  push_or_keep-QueueEffect :
      (queue : q.Queue) (a : List Text)
      → QueueEffect (fifo.contents queue) a (fifo.contents (push_or_keep env q sentinel queue)) a
  unfolding push_or_keep
  push_or_keep-QueueEffect queue a = elim (Option-cases (q.try_push sentinel queue)) [
    | inl e ↦ rw (e, push_or_keep) (same refl refl)
    | inr (queue', e) ↦
        rw (e, push_or_keep) (one_sentinel (fifo.push_last queue queue' sentinel e) refl)
  ]

  -- What a callback may do.
  abbrev pub Effect :
      ℤ → Stream → q.Queue → World env.Value → (Stream × q.Queue) × World env.Value → Type 0
  Effect fd s queue w ((s', queue'), w') =
      KeepsStream s s'
      × ((packets fd w'.history ≡ packets fd w.history)
          × QueueEffect (fifo.contents queue) (accepted w.history) (fifo.contents queue')
              (accepted w'.history))

  push_report-Effect :
      (fd : ℤ) (s : Stream) (queue : q.Queue) (buffer : Text) (w : World env.Value)
      → is_empty buffer ≡ false
      → Effect fd s queue w (push_report env q s queue buffer w)
  unfolding push_report packets accepted
  push_report-Effect fd s queue buffer w b =
      elim (Option-cases (q.try_push (report buffer) queue)) [
        | inl e ↦
            rw (e, Effect, push_report) ((refl, (refl, (refl, λ h. h))), (refl, same refl refl))
        | inr (queue', e) ↦
            rw (e, Effect, push_report)
              (
                (refl, (refl, (refl, λ h. h))),
                (refl, one_report buffer b (fifo.push_last queue queue' (report buffer) e) refl),
              )
      ]

  resubmit-Effect :
      (fd : ℤ) (s : Stream) (queue : q.Queue) (w : World env.Value)
      → Effect fd s queue w (resubmit env q s queue w)
  unfolding resubmit packets accepted
  resubmit-Effect fd s queue w =
      both_branches (Effect fd s queue w) s.running _ _ w (submit (env.submit_transfer w.history))
        (refl_effect)
    where
      refl_effect : Effect fd s queue w ((s, queue), w)
      refl_effect = ((refl, (refl, (refl, λ h. h))), (refl, same refl refl))

      submit :
          (r : Answer (Unit {0}))
          → Effect fd s queue w (
            (elim r as (λ x. Stream × q.Queue) [
              | ok _ ↦ (s, queue)
              | fail rc ↦ (record s { running = false }, queue)
            ]),
            record w { history = submitted_transfer r ∷ w.history },
          )
      submit (ok _) = ((refl, (refl, (refl, λ h. h))), (refl, same refl refl))
      submit (fail rc) = ((refl, (refl, (refl, λ h. refl))), (refl, same refl refl))

  notify_device_lost-Effect :
      (fd : ℤ) (s : Stream) (queue : q.Queue) (w : World env.Value)
      → Effect fd s queue w (notify_device_lost env q s queue, w)
  unfolding notify_device_lost
  notify_device_lost-Effect fd s queue w = elim (Bool-cases s.running) [
    | inl e ↦
        rw (e, Effect, notify_device_lost)
          (
            (refl, (refl, (refl, λ h. refl))),
            (refl, push_or_keep-QueueEffect queue (accepted w.history)),
          )
    | inr e ↦
        rw (e, Effect, notify_device_lost)
          ((refl, (refl, (refl, λ h. refl))), (refl, same refl refl))
  ]

  -- A callback behind its guard.
  pub on_transfer-Effect :
      (fd : ℤ) (s : Stream) (queue : q.Queue) (status : TransferStatus) (buffer : Text)
      (w : World env.Value)
      → Effect fd s queue w (on_transfer env q s queue status buffer w)
  unfolding on_transfer
  on_transfer-Effect fd s queue completed buffer w = elim (Bool-cases (is_empty buffer)) [
    | inl b ↦ rw (b, on_transfer) (resubmit-Effect fd s queue w)
    | inr b ↦ rw (b, on_transfer) (push_report-Effect fd s queue buffer w b)
  ]
  on_transfer-Effect fd s queue no_device buffer w = notify_device_lost-Effect fd s queue w
  on_transfer-Effect fd s queue other_status buffer w = resubmit-Effect fd s queue w

  -- `stop`, up to its joins.
  pub request_stop-Effect :
      (fd : ℤ) (s : Stream) (queue : q.Queue) (w : World env.Value)
      → Effect fd s queue w (request_stop env q s queue w)
  unfolding request_stop mark_stop wake_threads packets accepted
  request_stop-Effect fd s queue w = elim (Bool-cases s.has_transfer) [
    | inl e ↦
        rw (e, Effect, request_stop)
          (
            (refl, (refl, (refl, λ h. refl))),
            (refl, push_or_keep-QueueEffect queue (accepted w.history)),
          )
    | inr e ↦
        rw (e, Effect, request_stop)
          (
            (refl, (refl, (refl, λ h. refl))),
            (refl, push_or_keep-QueueEffect queue (accepted w.history)),
          )
  ]

  -- `stop`, behind its joins.
  pub finish_stop_keeps :
      (fd : ℤ) (s : Stream) (w : World env.Value)
      → let (s', w') = finish_stop env q s w in
        KeepsStream s s'
        × ((packets fd w'.history ≡ packets fd w.history)
            × (accepted w'.history ≡ accepted w.history))
  unfolding finish_stop packets accepted
  finish_stop_keeps fd s w = elim (Bool-cases s.has_transfer) [
    | inl e ↦ rw (e, finish_stop) ((refl, (refl, (refl, λ h. h))), (refl, refl))
    | inr e ↦ rw (e, finish_stop) ((refl, (refl, (refl, λ h. h))), (refl, refl))
  ]

  -- `notify_device_lost`: its exchange, and its push.
  pub lost-Effect :
      (fd : ℤ) (s : Stream) (queue : q.Queue) (w : World env.Value)
      → Effect fd s queue w ((record s { running = false }, queue), w)
        × Effect fd s queue w ((s, push_or_keep env q sentinel queue), w)
  lost-Effect fd s queue w = (
    ((refl, (refl, (refl, λ h. refl))), (refl, same refl refl)),
    ((refl, (refl, (refl, λ h. h))), (refl, push_or_keep-QueueEffect queue (accepted w.history))),
  )

  -- `stop`: its exchange, and what follows it up to the joins.
  pub stop-Effect :
      (fd : ℤ) (s : Stream) (queue : q.Queue) (w : World env.Value)
      → Effect fd s queue w ((mark_stop env q s, queue), w)
        × (let (queue', w') = wake_threads env q s queue w in Effect fd s queue w ((s, queue'), w'))
  unfolding mark_stop wake_threads packets accepted
  stop-Effect fd s queue w = (
    ((refl, (refl, (refl, λ h. refl))), (refl, same refl refl)),
    elim (Bool-cases s.has_transfer) [
      | inl e ↦
          rw (e, Effect, wake_threads)
            (
              (refl, (refl, (refl, λ h. h))),
              (refl, push_or_keep-QueueEffect queue (accepted w.history)),
            )
      | inr e ↦
          rw (e, Effect, wake_threads)
            (
              (refl, (refl, (refl, λ h. h))),
              (refl, push_or_keep-QueueEffect queue (accepted w.history)),
            )
    ],
  )

  -- Behind a write: the socket, the device and the session are as they were, and a stream at rest
  -- stays at rest.
  pub settle_keeps : (s : Stream) (result : Delivery) → KeepsStream s (settle env result s)
  unfolding settle
  settle_keeps s result = ground arith

  -- A write of a report: nothing is accepted.
  pub accepted-write_report :
      (s : Stream) (content : Text) (w : World env.Value)
      → accepted (write_report env s content w).1.history ≡ accepted w.history
  unfolding write_report write_to_client protect encrypt_data accepted
  accepted-write_report s content w = ground arith

  -- The two steps of a report, its write and what follows, make up `process_hid_report`.
  process_hid_report-write_report :
      (s : Stream) (content : Text) (w : World env.Value)
      → let r = write_report env s content w in
        process_hid_report env s content w ≡ (count_sent env (settle env r.0 s), r.1)
  unfolding process_hid_report write_report send_to_client
  process_hid_report-write_report s content w = refl
