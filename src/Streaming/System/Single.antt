-- ===== src/Streaming/System/Single.antt =====
-- The transfer of a HIDStreamingThread (src/hid_streaming_thread.cpp): a completed one is not submitted
-- again.
use note_usb.Shared.{
  Bool, Option, if◌then◌else◌, ℕ, suc, ◌+◌, ◌≤◌, ◌≡◌, ap, [], ◌∷◌, arith, Text, length,
}
use note_usb.Platform.{Env, World, History, ok, submitted_transfer}
use note_usb.Session.{Session}
use note_usb.Streaming.{ReportQueue, Stream, write_report, write_to_client, protect}
use note_usb.Session.Cipher.{encrypt_data}
use note_usb.Streaming.Capture.{TransferStatus, on_transfer, wake_threads, finish_stop}
use note_usb.Streaming.System.{
  CapturePc, watching, losing, lose, push_lost, settles, drain_settles, wake, rekey, called, System,
  Step, enter, act, leave, take, send, drain_take, drain_send, finish, ask_stop, end_stop, Steps,
  here, next, launched,
}
use note_usb.Streaming.System.Effect.{accepted}

-- The transfers that were submitted.
unfoldable pub submissions : {V : Type 0} → History V → ℕ
submissions [] = 0
submissions (submitted_transfer (ok _) ∷ h) = suc (submissions h)
submissions (e ∷ h) = submissions h

module _ (env : Env) (q : ReportQueue) (Allowed : Option Session → Type 0) where
  -- The callbacks of a run.
  unfoldable pub callbacks : {s t : System env q} → Steps env q Allowed s t → ℕ
  callbacks (here) = 0
  callbacks (next steps (enter status buffer p r)) = suc (callbacks steps)
  callbacks (next steps step) = callbacks steps

  -- Submissions and accepted reports.
  abbrev spent : World env.Value → ℕ
  spent w = submissions w.history + length (accepted w.history)

  on_transfer-spent :
      (s : Stream) (queue : q.Queue) (status : TransferStatus) (buffer : Text) (w : World env.Value)
      → spent (on_transfer env q s queue status buffer w).1 ≤ spent w + 1
  unfolding on_transfer submissions accepted
  on_transfer-spent s queue status buffer w = ground arith

  sent-spent :
      (s : Stream) (content : Text) (w : World env.Value)
      → spent (write_report env s content w).1 ≡ spent w
  unfolding write_report write_to_client protect encrypt_data accepted submissions
  sent-spent s content w = ground arith

  stopped-spent :
      (s : Stream) (queue : q.Queue) (w : World env.Value)
      → (spent (wake_threads env q s queue w).1 ≡ spent w)
        × (spent (finish_stop env q s w).1 ≡ spent w)
  unfolding wake_threads finish_stop accepted submissions
  stopped-spent s queue w = ground arith

  abbrev entered : CapturePc → ℕ
  entered (called status buffer) = 1
  entered other = 0

  entered_lost : (b : Bool) → entered (if b then losing else watching) ≡ 0
  entered_lost b = ground arith

  abbrev Spent : ℕ → ℕ → System env q → Type 0
  Spent base n t = spent t.world + entered t.capture ≤ base + n

  Step-Spent :
      {s t : System env q} (base : ℕ) (steps : Steps env q Allowed s t) {u : System env q}
      (step : Step env q Allowed t u)
      → Spent base (callbacks steps) t
      → Spent base (callbacks (next steps step)) u
  unfolding callbacks
  Step-Spent {t} base steps (enter status buffer p r) h = omega (arith, h, ap entered p)
  Step-Spent {t} base steps (act status buffer p l) h =
      omega (arith, h, ap entered p, on_transfer-spent t.stream t.queue status buffer t.world)
  Step-Spent {t} base steps (lose buffer p) h =
      omega (arith, h, ap entered p, entered_lost t.stream.running)
  Step-Spent {t} base steps (push_lost p) h = omega (arith, h)
  Step-Spent base steps (leave p r) h = omega (arith, h)
  Step-Spent base steps (take r queue' p e) h = h
  Step-Spent {t} base steps (send content p) h =
      omega (arith, h, sent-spent t.stream content t.world)
  Step-Spent base steps (settles result p) h = h
  Step-Spent base steps (drain_take r queue' p e) h = h
  Step-Spent {t} base steps (drain_send content p) h =
      omega (arith, h, sent-spent t.stream content t.world)
  Step-Spent base steps (drain_settles result p) h = h
  Step-Spent base steps (finish p e) h = h
  Step-Spent base steps (ask_stop p r) h = h
  Step-Spent base steps (rekey session e) h = h
  Step-Spent {t} base steps (wake p) h =
      omega (arith, h, (stopped-spent t.stream t.queue t.world).0)
  Step-Spent {t} base steps (end_stop p c e) h =
      omega (arith, h, (stopped-spent t.stream t.queue t.world).1)

  Steps-Spent :
      (s : Stream) (w : World env.Value) {t : System env q}
      (steps : Steps env q Allowed (launched env q s w) t)
      → Spent (spent w) (callbacks steps) t
  unfolding callbacks
  Steps-Spent s w (here) = unfold launched in omega arith
  Steps-Spent s w (next steps step) = Step-Spent (spent w) steps step (Steps-Spent s w steps)

  -- In every interleaving of the threads of a stream that was started with one transfer submitted:
  -- if libusb calls the callback at most once for each transfer that was submitted, then the queue
  -- accepts at most one report in the whole life of the stream.
  pub Steps-Single :
      (s : Stream) (w : World env.Value) {t : System env q}
      (steps : Steps env q Allowed (launched env q s w) t)
      → callbacks steps + submissions w.history ≤ submissions t.world.history + 1
      → length (accepted t.world.history) ≤ length (accepted w.history) + 1
  Steps-Single s w steps h = omega (arith, h, Steps-Spent s w steps)
