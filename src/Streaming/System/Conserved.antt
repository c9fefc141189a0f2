-- ===== src/Streaming/System/Conserved.antt =====
-- The reports on their way through a HIDStreamingThread: what was accepted, what is pending, what
-- the client's socket took.
use note_usb.Shared.{◌≡◌, refl, false, [], Text, ℤ, if◌then◌else◌}
use mathlib.Core.Path.{subst}
use note_usb.Platform.{Env, World}
use note_usb.Streaming.{ReportQueue, Stream, write_report}
use note_usb.Streaming.Capture.{sentinel, push_or_keep, on_transfer, mark_stop, wake_threads}
use note_usb.Streaming.Order.{Fifo, IsUnencrypted, TakesAll, packets}
use note_usb.Streaming.System.Effect.{accepted, on_transfer-Effect, lost-Effect, stop-Effect}
use note_usb.Streaming.System.Pending.{reports_in, in_hand, arriving_as, packets_of, AllFilled}
use note_usb.Streaming.System.{
  watching, called, losing, gone, written, drain_written, marked, joining, lose, push_lost, settles,
  drain_settles, wake, rekey, looping, holding, draining, ended, drain_next, System, Step, enter,
  act, leave, take, send, drain_take, drain_send, finish, ask_stop, end_stop, Steps, here, next,
  launched,
}
use note_usb.Streaming.System.Moves.{
  pop_first_lem, Conserved, Effect-Conserved, popped-Conserved, sent-Conserved, settled-Conserved,
  rekeyed-Conserved, taken_pending, drained_pending, repositioned, stopped-Conserved,
}

module _ (env : Env) (q : ReportQueue) (fifo : Fifo q) where
  -- Each step conserves the reports.
  Step-Conserved :
      (fd : ℤ) (id : Text) {s t : System env q}
      → TakesAll env fd
      → Step env q IsUnencrypted s t
      → Conserved env q fifo fd id s
      → Conserved env q fifo fd id t
  Step-Conserved fd id {s} takes (enter status buffer _ _) v =
      repositioned env q fifo fd id s (called status buffer) v
  Step-Conserved fd id {s} takes (act status buffer _ _) v =
      let r = on_transfer env q s.stream s.queue status buffer s.world in
      Effect-Conserved env q fifo fd id s r.0.0 r.0.1 r.1 watching s.stopping v
        (on_transfer-Effect env q fifo fd s.stream s.queue status buffer s.world)
  Step-Conserved fd id {s} takes (lose buffer _) v =
      Effect-Conserved env q fifo fd id s (record s.stream { running = false }) s.queue s.world
        (if s.stream.running then losing else watching) s.stopping v
        (lost-Effect env q fifo fd s.stream s.queue s.world).0
  Step-Conserved fd id {s} takes (push_lost _) v =
      Effect-Conserved env q fifo fd id s s.stream (push_or_keep env q sentinel s.queue) s.world
        watching s.stopping v (lost-Effect env q fifo fd s.stream s.queue s.world).1
  Step-Conserved fd id {s} takes (leave _ _) v = repositioned env q fifo fd id s gone v
  Step-Conserved fd id {s} takes (take r queue' p e) v =
      let c = pop_first_lem env q fifo s.queue queue' r e in
      popped-Conserved env q fifo fd id s queue'
        (if r.is_sentinel then draining else holding r.content) v (subst AllFilled c v.filled).1
        (rw (p, c) (taken_pending env q fifo r (fifo.contents queue')))
  Step-Conserved fd id {s} takes (send content p) v =
      sent-Conserved env q fifo fd id s content
        (written (write_report env s.stream content s.world).0) takes v
        (unfold in_hand in rw p refl) (unfold in_hand in refl)
  Step-Conserved fd id {s} takes (settles result p) v =
      settled-Conserved env q fifo fd id s result looping v (unfold in_hand in rw p refl)
        (unfold in_hand in refl)
  Step-Conserved fd id {s} takes (drain_take r queue' p e) v =
      let c = pop_first_lem env q fifo s.queue queue' r e in
      popped-Conserved env q fifo fd id s queue' (drain_next r) v (subst AllFilled c v.filled).1 (
        rw (p, c)
          (drained_pending env q fifo r (fifo.contents queue') (subst AllFilled c v.filled).0))
  Step-Conserved fd id {s} takes (drain_send content p) v =
      sent-Conserved env q fifo fd id s content
        (drain_written (write_report env s.stream content s.world).0) takes v
        (unfold in_hand in rw p refl) (unfold in_hand in refl)
  Step-Conserved fd id {s} takes (drain_settles result p) v =
      settled-Conserved env q fifo fd id s result draining v (unfold in_hand in rw p refl)
        (unfold in_hand in refl)
  Step-Conserved fd id {s} takes (finish p e) v =
      popped-Conserved env q fifo fd id s s.queue ended v v.filled (unfold in_hand in rw p refl)
  Step-Conserved fd id {s} takes (ask_stop _ _) v =
      Effect-Conserved env q fifo fd id s (mark_stop env q s.stream) s.queue s.world s.capture
        marked v (stop-Effect env q fifo fd s.stream s.queue s.world).0
  Step-Conserved fd id {s} takes (wake _) v =
      let (queue', w') = wake_threads env q s.stream s.queue s.world in
      Effect-Conserved env q fifo fd id s s.stream queue' w' s.capture joining v
        (stop-Effect env q fifo fd s.stream s.queue s.world).1
  Step-Conserved fd id {s} takes (end_stop _ _ _) v = stopped-Conserved env q fifo fd id s v
  Step-Conserved fd id {s} takes (rekey session n) v =
      rekeyed-Conserved env q fifo fd id s session n v

  -- While the threads of a stream without encryption run in any order, the session's thread enables
  -- no encryption, and the client's socket takes every packet, from a start with nothing accepted
  -- and nothing taken by the socket: the accepted reports, in their order, are those whose packets
  -- the socket has taken, once each, followed by those that are pending.
  pub Steps-Conserved :
      (s : Stream) (w : World env.Value) {t : System env q}
      → IsUnencrypted s.session
      → TakesAll env s.client_fd
      → packets s.client_fd w.history ≡ []
      → accepted w.history ≡ []
      → Steps env q IsUnencrypted (launched env q s w) t
      → Conserved env q fifo s.client_fd s.device_id t
  Steps-Conserved s w n k p a (here) = start_conserved
    where
      start_conserved : Conserved env q fifo s.client_fd s.device_id (launched env q s w)
      start_conserved =
          unfold launched in
          record {
            same_fd = refl;
            same_id = refl;
            plain = n;
            filled = rw fifo.created_empty tt;
            balance =
                unfold in_hand reports_in arriving_as packets_of in
                rw (fifo.created_empty, p, a) refl;
          }
  Steps-Conserved s w n k p a (next steps step) =
      Step-Conserved s.client_fd s.device_id k step (Steps-Conserved s w n k p a steps)
