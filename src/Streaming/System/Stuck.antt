-- ===== src/Streaming/System/Stuck.antt =====
-- The states of a HIDStreamingThread whose process thread has no way out
-- (src/hid_streaming_thread.cpp).
use note_usb.Shared.{
  ◌≡◌, ◌≢◌, refl, false, Option, none, if◌then◌else◌, List, [], ◌∷◌, ◌++◌, arith, Text, is_empty,
  Bool-cases, Option-cases, inl, inr,
}
use mathlib.Core.Path.{subst}
use note_usb.Platform.{Env, World, undelivered}
use note_usb.Session.{Session}
use note_usb.Streaming.{Report, ReportQueue, Stream, settle, count_sent}
use note_usb.Streaming.Capture.{
  TransferStatus, completed, no_device, other_status, sentinel, report, push_or_keep,
  notify_device_lost, push_report, resubmit, on_transfer, mark_stop, wake_threads, request_stop,
}
use note_usb.Streaming.Order.{Fifo, NoSentinel}
use note_usb.Streaming.System.Effect.{on_transfer-Effect, settle_keeps}
use note_usb.Streaming.System.Moves.{pop_first_lem}
use note_usb.Streaming.System.{
  CapturePc, watching, losing, lose, push_lost, written, drain_written, settles, drain_settles,
  marked, joining, wake, rekey, ProcessPc, looping, holding, draining, drain_holding, ended, System,
  Step, enter, act, leave, take, send, drain_take, drain_send, finish, ask_stop, end_stop, Steps,
  here, next,
}

-- The process thread is in its first loop.
abbrev pub InLoop : ProcessPc → Type 0
InLoop looping = Unit
InLoop (holding content) = Unit
InLoop (written result) = Unit
InLoop draining = ⊥
InLoop (drain_holding content) = ⊥
InLoop (drain_written result) = ⊥
InLoop ended = ⊥

NoSentinel-append :
    (rs : List Report) (content : Text) → NoSentinel rs → NoSentinel (rs ++ report content ∷ [])
NoSentinel-append [] content n = (refl, tt)
NoSentinel-append (r ∷ rs) content n = (n.0, NoSentinel-append rs content n.1)

-- The capture thread is not about to push a sentinel.
abbrev pub IsCalm : CapturePc → Type 0
IsCalm losing = ⊥
IsCalm other = Unit

module _ (env : Env) (q : ReportQueue) (fifo : Fifo q) (Allowed : Option Session → Type 0) where
  -- `running_` is false, no sentinel is on its way, and the process thread waits for one.
  pub record Stuck (s : System env q) : Type 0 where
    pub stopped : s.stream.running ≡ false
    pub unmarked : NoSentinel (fifo.contents s.queue)
    pub in_loop : InLoop s.process
    pub calm : IsCalm s.capture
    pub unasked : s.stopping ≢ marked

  push_report_unmarked :
      (s : Stream) (queue : q.Queue) (buffer : Text) (w : World env.Value)
      → NoSentinel (fifo.contents queue)
      → NoSentinel (fifo.contents (push_report env q s queue buffer w).0.1)
  unfolding push_report
  push_report_unmarked s queue buffer w n = elim (Option-cases (q.try_push (report buffer) queue)) [
    | inl e ↦ rw (e, push_report) n
    | inr (queue', e) ↦
        rw (e, push_report, fifo.push_last queue queue' (report buffer) e)
          (NoSentinel-append (fifo.contents queue) buffer n)
  ]

  kept_full :
      (queue : q.Queue)
      → q.try_push sentinel queue ≡ none
      → push_or_keep env q sentinel queue ≡ queue
  unfolding push_or_keep
  kept_full queue f = rw (f, push_or_keep) refl

  -- Once `running_` is false, a callback puts no sentinel into the queue.
  on_transfer_unmarked :
      (s : Stream) (queue : q.Queue) (status : TransferStatus) (buffer : Text) (w : World env.Value)
      → s.running ≡ false
      → NoSentinel (fifo.contents queue)
      → NoSentinel (fifo.contents (on_transfer env q s queue status buffer w).0.1)
  unfolding on_transfer resubmit notify_device_lost
  on_transfer_unmarked s queue completed buffer w h n = elim (Bool-cases (is_empty buffer)) [
    | inl b ↦ simp (b, h) n
    | inr b ↦ simp b (push_report_unmarked s queue buffer w n)
  ]
  on_transfer_unmarked s queue no_device buffer w h n = simp h n
  on_transfer_unmarked s queue other_status buffer w h n = simp h n

  -- A callback that reports the device as lost finds `running_` false.
  lose-IsCalm :
      (s : System env q) → Stuck s → IsCalm (if s.stream.running then losing else watching)
  lose-IsCalm s k = rw k.stopped tt

  Step-Stuck : {s t : System env q} → Step env q Allowed s t → Stuck s → Stuck t
  Step-Stuck {s} (enter status buffer _ r) k = absurd (ground (arith, r, k.stopped))
  Step-Stuck {s} (act status buffer _ _) k = record {
    stopped =
        let d =
          on_transfer-Effect env q fifo s.stream.client_fd s.stream s.queue status buffer s.world in
        d.0.1.1.1 k.stopped;
    unmarked = on_transfer_unmarked s.stream s.queue status buffer s.world k.stopped k.unmarked;
    calm = tt;
    in_loop = k.in_loop;
    unasked = k.unasked;
  }
  Step-Stuck {s} (lose buffer _) k = record {
    stopped = refl;
    calm = lose-IsCalm s k;
    unmarked = k.unmarked;
    in_loop = k.in_loop;
    unasked = k.unasked;
  }
  Step-Stuck {s} (push_lost p) k = absurd (subst IsCalm p k.calm)
  Step-Stuck {s} (leave _ _) k = record {
    calm = tt;
    stopped = k.stopped;
    unmarked = k.unmarked;
    in_loop = k.in_loop;
    unasked = k.unasked;
  }
  Step-Stuck {s} (take r queue' p e) k =
      let n = subst NoSentinel (pop_first_lem env q fifo s.queue queue' r e) k.unmarked in
      record {
        unmarked = n.1;
        in_loop = rw n.0 tt;
        stopped = k.stopped;
        calm = k.calm;
        unasked = k.unasked;
      }
  Step-Stuck {s} (send content p) k = record {
    in_loop = tt;
    stopped = k.stopped;
    unmarked = k.unmarked;
    calm = k.calm;
    unasked = k.unasked;
  }
  Step-Stuck {s} (settles result p) k = record {
    stopped = (settle_keeps env q fifo s.stream result).1.1.1 k.stopped;
    in_loop = tt;
    unmarked = k.unmarked;
    calm = k.calm;
    unasked = k.unasked;
  }
  Step-Stuck {s} (drain_take r queue' p e) k = absurd (subst InLoop p k.in_loop)
  Step-Stuck {s} (drain_send content p) k = absurd (subst InLoop p k.in_loop)
  Step-Stuck {s} (drain_settles result p) k = absurd (subst InLoop p k.in_loop)
  Step-Stuck {s} (finish p e) k = absurd (subst InLoop p k.in_loop)
  Step-Stuck {s} (ask_stop _ r) k = absurd (ground (arith, r, k.stopped))
  Step-Stuck {s} (wake p) k = absurd (k.unasked p)
  Step-Stuck {s} (end_stop _ _ p) k = absurd (subst InLoop p k.in_loop)
  Step-Stuck {s} (rekey session _) k = record {
    stopped = k.stopped;
    unmarked = k.unmarked;
    in_loop = k.in_loop;
    calm = k.calm;
    unasked = k.unasked;
  }

  -- From a stuck state only stuck states are reached: the process thread never leaves its first loop,
  -- so that `stop` does not return.
  Steps-Stuck : {s t : System env q} → Stuck s → Steps env q Allowed s t → Stuck t
  Steps-Stuck k here = k
  Steps-Stuck k (next steps step) = Step-Stuck step (Steps-Stuck k steps)

  -- A write of the process thread's first loop has failed, no sentinel is in the queue, and no other thread is about to
  -- push one: it is in neither notify_device_lost nor `stop`, between its exchange and its push. Once
  -- the process thread has stored `running_`, it never ends, whatever the other threads do.
  pub failed_send-ended :
      (s : System env q) {t : System env q}
      → s.process ≡ written undelivered
      → NoSentinel (fifo.contents s.queue)
      → IsCalm s.capture
      → s.stopping ≢ marked
      → Steps env q Allowed
          (record s {
            stream = count_sent env (settle env undelivered s.stream);
            process = looping;
          })
          t
      → t.process ≢ ended
  failed_send-ended s p n c m steps e = subst InLoop e (Steps-Stuck stuck steps).in_loop
    where
      stuck : Stuck (record s {
        stream = count_sent env (settle env undelivered s.stream);
        process = looping;
      })
      stuck = record {
        stopped = unfold settle in refl;
        unmarked = n;
        in_loop = tt;
        calm = c;
        unasked = m;
      }

  -- If `stop`, behind its exchange, finds the queue full, without a sentinel, the process thread in its
  -- first loop, and no callback in notify_device_lost between its exchange and its push, then the
  -- process thread never ends, whatever the other threads do: `stop` does not return.
  pub full_stop-ended :
      (s : System env q) {t : System env q}
      → InLoop s.process
      → NoSentinel (fifo.contents s.queue)
      → q.try_push sentinel s.queue ≡ none
      → IsCalm s.capture
      → Steps env q Allowed
          (record s {
            stream = (request_stop env q s.stream s.queue s.world).0.0;
            queue = (request_stop env q s.stream s.queue s.world).0.1;
            world = (request_stop env q s.stream s.queue s.world).1;
            stopping = joining;
          })
          t
      → t.process ≢ ended
  full_stop-ended s i n f c steps e = subst InLoop e (Steps-Stuck stuck steps).in_loop
    where
      stuck : Stuck (record s {
        stream = (request_stop env q s.stream s.queue s.world).0.0;
        queue = (request_stop env q s.stream s.queue s.world).0.1;
        world = (request_stop env q s.stream s.queue s.world).1;
        stopping = joining;
      })
      stuck = record {
        stopped = unfold request_stop mark_stop in refl;
        unmarked = unfold request_stop wake_threads in rw (kept_full s.queue f) n;
        in_loop = i;
        calm = c;
        unasked = λ m. absurd (ground (arith, m));
      }
