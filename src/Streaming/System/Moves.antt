-- ===== src/Streaming/System/Moves.antt =====
-- What each move of a HIDStreamingThread's threads does to the reports on their way: a callback, a
-- report that is taken, a packet that is sent, the end of `stop`.
use note_usb.Shared.{
  ◌≡◌, refl, sym, ap, ◌∙◌, false, Option, some, List, [], ◌∷◌, ◌++◌, arith, Text, ℤ, is_empty,
  if◌then◌else◌, Bool-cases, inl, inr,
}
use mathlib.Core.Path.{subst}
use mathlib.Core.List.{append_assoc}
use note_usb.Platform.{Env, World, Delivery}
use note_usb.Session.{Session}
use note_usb.Streaming.{Report, ReportQueue, Stream, settle, count_sent, write_report}
use note_usb.Streaming.Capture.{sentinel, report, finish_stop}
use note_usb.Streaming.Order.{
  Fifo, IsUnencrypted, packets, packet_of, TakesAll, write_report-packets,
}
use note_usb.Streaming.System.Effect.{
  accepted, QueueEffect, same, one_report, one_sentinel, Effect, finish_stop_keeps, settle_keeps,
  accepted-write_report,
}
use note_usb.Streaming.System.Pending.{
  reports_in, in_hand, arriving_as, packets_of, AllFilled, AllFilled-append, reports_in-report,
  reports_in-sentinel, arriving_as-append,
}
use note_usb.Streaming.System.{
  CapturePc, StopPc, idle, ProcessPc, looping, holding, draining, drain_next, System,
}

module _ (env : Env) (q : ReportQueue) (fifo : Fifo q) where
  -- `try_pop` gives the first of the contents.
  pub pop_first_lem :
      (queue queue' : q.Queue) (r : Report)
      → q.try_pop queue ≡ some (r, queue')
      → fifo.contents queue ≡ r ∷ fifo.contents queue'
  pop_first_lem queue queue' r e = first (fifo.contents queue) refl
    where
      first :
          (rs : List Report)
          → fifo.contents queue ≡ rs
          → fifo.contents queue ≡ r ∷ fifo.contents queue'
      first [] c = absurd (ground (arith, e, fifo.pop_empty queue c))
      first (x ∷ rs) c =
          let (queue'', t) = fifo.pop_first queue x rs c in ground (arith, c, e, t.0, t.1)

  abbrev pub pending : System env q → List Text
  pending s = in_hand s.process ++ reports_in (fifo.contents s.queue)

  -- Of the stream of device `id` for the client `fd`, without encryption: the socket has taken one
  -- packet for each report that the queue accepted, but for those that are pending, in the order in
  -- which they came.
  pub record Conserved (fd : ℤ) (id : Text) (s : System env q) : Type 0 where
    pub same_fd : s.stream.client_fd ≡ fd
    pub same_id : s.stream.device_id ≡ id
    pub plain : IsUnencrypted s.stream.session
    pub filled : AllFilled (fifo.contents s.queue)
    pub balance :
        arriving_as (packet_of env id) (pending s) (packets fd s.world.history)
        ≡ packets_of (packet_of env id) (accepted s.world.history)

  -- The balance after a change of the queue.
  abbrev Balance : (Text → Text) → List Text → List Report → List Text → List Text → Type 0
  Balance packet hand c sent a =
      arriving_as packet (hand ++ reports_in c) sent ≡ packets_of packet a

  QueueEffect-Balance :
      (packet : Text → Text) (hand : List Text) (c c' : List Report) (a a' sent : List Text)
      → QueueEffect c a c' a'
      → AllFilled c
      → Balance packet hand c sent a
      → AllFilled c' × Balance packet hand c' sent a'
  unfolding packets_of
  QueueEffect-Balance packet hand c c' a a' sent (same e f) l b = rw (e, f) (l, b)
  QueueEffect-Balance packet hand c c' a a' sent (one_report content n e f) l b =
      rw (e, f)
        (
          AllFilled-append c (report content) l (λ h. n),
          ap (λ (ts : List Text). arriving_as packet ts sent)
                (ap (λ (ts : List Text). hand ++ ts) (reports_in-report c content)
                  ∙ sym (append_assoc hand (reports_in c) (content ∷ [])))
              ∙ arriving_as-append packet (hand ++ reports_in c) content sent
              ∙ ap (◌∷◌ (packet content)) b,
        )
  QueueEffect-Balance packet hand c c' a a' sent (one_sentinel e f) l b =
      rw (e, f)
        (
          AllFilled-append c sentinel l (λ h. absurd (ground (arith, h))),
          rw (reports_in-sentinel c) b,
        )

  module _ (fd : ℤ) (id : Text) where
    -- A callback, or a request to stop.
    pub Effect-Conserved :
        (s : System env q) (s' : Stream) (queue' : q.Queue) (w' : World env.Value)
        (capture' : CapturePc) (stopping' : StopPc)
        → Conserved fd id s
        → Effect env q fifo fd s.stream s.queue s.world ((s', queue'), w')
        → Conserved fd id (record s {
          stream = s';
          queue = queue';
          world = w';
          capture = capture';
          stopping = stopping';
        })
    Effect-Conserved s s' queue' w' capture' stopping' v (k, (p, f)) =
        let t =
          QueueEffect-Balance (packet_of env id) (in_hand s.process) (fifo.contents s.queue)
            (fifo.contents queue') (accepted s.world.history) (accepted w'.history)
            (packets fd s.world.history) f v.filled v.balance in
        record {
          same_fd = k.0 ∙ v.same_fd;
          same_id = k.1.0 ∙ v.same_id;
          plain = rw k.1.1.0 v.plain;
          filled = t.0;
          balance = rw p t.1;
        }

    -- The queue is taken from, with the same texts pending.
    pub popped-Conserved :
        (s : System env q) (queue' : q.Queue) (process' : ProcessPc)
        → Conserved fd id s
        → AllFilled (fifo.contents queue')
        → in_hand process' ++ reports_in (fifo.contents queue') ≡ pending s
        → Conserved fd id (record s { queue = queue'; process = process' })
    popped-Conserved s queue' process' v l e = record {
      same_fd = v.same_fd;
      same_id = v.same_id;
      plain = v.plain;
      filled = l;
      balance = rw e v.balance;
    }

    -- The report in hand is written.
    pub sent-Conserved :
        (s : System env q) (content : Text) (process' : ProcessPc)
        → TakesAll env fd
        → Conserved fd id s
        → in_hand s.process ≡ content ∷ []
        → in_hand process' ≡ []
        → Conserved fd id
            (record s { world = (write_report env s.stream content s.world).1; process = process' })
    sent-Conserved s content process' t v h n = record {
      same_fd = v.same_fd;
      same_id = v.same_id;
      plain = v.plain;
      filled = v.filled;
      balance =
          sent_balance (write_report env s.stream content s.world).1
            (write_report-packets env s.stream content s.world v.plain (rw v.same_fd t))
            (accepted-write_report env q fifo s.stream content s.world);
    }
      where
        sent_balance :
            (w' : World env.Value)
            → packets s.stream.client_fd w'.history
              ≡ packet_of env s.stream.device_id content
                ∷ packets s.stream.client_fd s.world.history
            → accepted w'.history ≡ accepted s.world.history
            → Balance
                (packet_of env id)
                (in_hand process')
                (fifo.contents s.queue)
                (packets fd w'.history)
                (accepted w'.history)
        sent_balance w' p a =
            let byfd : packets fd w'.history
                ≡ packet_of env s.stream.device_id content ∷ packets fd s.world.history =
              subst
                (λ f.
                  packets f w'.history
                  ≡ packet_of env s.stream.device_id content ∷ packets f s.world.history)
                v.same_fd p in
            let byid : packets fd w'.history
                ≡ packet_of env id content ∷ packets fd s.world.history =
              subst
                (λ d. packets fd w'.history ≡ packet_of env d content ∷ packets fd s.world.history)
                v.same_id byfd in
            rw (n, byid, a)
              (unfold arriving_as in
                subst
                  (λ (hand : List Text).
                    Balance (packet_of env id) hand (fifo.contents s.queue)
                      (packets fd s.world.history) (accepted s.world.history))
                  h v.balance)

    -- What follows the write.
    pub settled-Conserved :
        (s : System env q) (result : Delivery) (process' : ProcessPc)
        → Conserved fd id s
        → in_hand s.process ≡ []
        → in_hand process' ≡ []
        → Conserved fd id
            (record s { stream = count_sent env (settle env result s.stream); process = process' })
    settled-Conserved s result process' v h n =
        let k = settle_keeps env q fifo s.stream result in
        record {
          same_fd = k.0 ∙ v.same_fd;
          same_id = k.1.0 ∙ v.same_id;
          plain = rw k.1.1.0 v.plain;
          filled = v.filled;
          balance = rw n (rw h at v.balance);
        }

  pub taken_pending :
      (r : Report) (rs : List Report)
      → in_hand (if r.is_sentinel then draining else holding r.content) ++ reports_in rs
        ≡ in_hand looping ++ reports_in (r ∷ rs)
  unfolding in_hand reports_in
  taken_pending r rs = elim (Bool-cases r.is_sentinel) [ inl e ↦ simp e | inr e ↦ simp e ]

  pub drained_pending :
      (r : Report) (rs : List Report)
      → ((r.is_sentinel ≡ false) → is_empty r.content ≡ false)
      → in_hand (drain_next r) ++ reports_in rs ≡ in_hand draining ++ reports_in (r ∷ rs)
  unfolding in_hand reports_in
  drained_pending r rs f = elim (Bool-cases r.is_sentinel) [
    | inl e ↦ simp e
    | inr e ↦ simp (e, f e)
  ]

  pub repositioned :
      (fd : ℤ) (id : Text) (s : System env q) (capture' : CapturePc)
      → Conserved fd id s
      → Conserved fd id (record s { capture = capture' })
  repositioned fd id s capture' v = record {
    same_fd = v.same_fd;
    same_id = v.same_id;
    plain = v.plain;
    filled = v.filled;
    balance = v.balance;
  }

  -- The session's thread changes the session, to one that does not encrypt.
  pub rekeyed-Conserved :
      (fd : ℤ) (id : Text) (s : System env q) (session : Option Session)
      → IsUnencrypted session
      → Conserved fd id s
      → Conserved fd id (record s { stream = record s.stream { session = session } })
  rekeyed-Conserved fd id s session n v = record {
    same_fd = v.same_fd;
    same_id = v.same_id;
    plain = n;
    filled = v.filled;
    balance = v.balance;
  }

  pub stopped-Conserved :
      (fd : ℤ) (id : Text) (s : System env q)
      → Conserved fd id s
      → let (stream', world') = finish_stop env q s.stream s.world in
        Conserved fd id (record s { stream = stream'; world = world'; stopping = idle })
  stopped-Conserved fd id s v =
      let k = finish_stop_keeps env q fifo fd s.stream s.world in
      record {
        same_fd = k.0.0 ∙ v.same_fd;
        same_id = k.0.1.0 ∙ v.same_id;
        plain = rw k.0.1.1.0 v.plain;
        filled = v.filled;
        balance = rw (k.1.0, k.1.1) v.balance;
      }
