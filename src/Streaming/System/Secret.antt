-- ===== src/Streaming/System/Secret.antt =====
-- What a stream with encryption hands to `::write` (src/hid_streaming_thread.cpp), while the threads
-- run in any order and the session's thread changes the session.
use note_usb.Shared.{
  ◌≡◌, true, false, Option, none, some, List, [], ◌∷◌, arith, Text, ℤ, int_eq, is_empty, codes,
  if◌then◌else◌,
}
use note_usb.Platform.{Env, World, Delivery, History, streamed}
use note_usb.Session.{Session}
use note_usb.Session.Cipher.{encrypt_data}
use note_usb.Streaming.{
  ReportQueue, Stream, settle, count_sent, write_report, write_to_client, protect, report_event,
}
use note_usb.Streaming.Capture.{TransferStatus, on_transfer, wake_threads, mark_stop, finish_stop}
use note_usb.Streaming.System.{
  System, Step, enter, act, lose, push_lost, leave, take, send, settles, drain_take, drain_send,
  drain_settles, finish, ask_stop, wake, end_stop, rekey, Steps, here, next, launched,
}

-- The packets that were handed to `::write` for `fd`, newest first, whatever it answered.
unfoldable pub offered : {V : Type 0} → ℤ → History V → List Text
offered fd [] = []
offered fd (streamed to packet result ∷ h) =
    if int_eq to fd then packet ∷ offered fd h else offered fd h
offered fd (e ∷ h) = offered fd h

-- The stream encrypts: it has a session with encryption enabled and a key that is not empty.
abbrev pub IsEncrypted : Option Session → Type 0
IsEncrypted none = ⊥
IsEncrypted (some session) =
    (session.encryption_enabled ≡ true) × (is_empty session.encryption_key ≡ false)

-- Every packet is what the encryption gives.
abbrev pub All : (Text → Type 0) → List Text → Type 0
All P [] = Unit
All P (x ∷ xs) = P x × All P xs

-- The provider never fails, and what it gives is a ciphertext.
pub record Encrypts (env : Env) (IsCipher : Text → Type 0) : Type 0 where
  pub gives :
      (h : History env.Value) (id packet : Text)
      → (c : Text) × ((env.encrypt h id packet ≡ some c) × IsCipher c)

module _ (env : Env) (q : ReportQueue) (IsCipher : Text → Type 0) (works : Encrypts env IsCipher)
    (fd : ℤ) where
  abbrev Encrypting : Stream → World env.Value → Type 0
  Encrypting s w = IsEncrypted s.session × All IsCipher (offered fd w.history)

  protect_cipher :
      (session : Option Session) (packet : Text) (w : World env.Value)
      → IsEncrypted session
      → (c : Text) × (IsCipher c × (protect env session packet w ≡ (c, w)))
  unfolding protect encrypt_data
  protect_cipher none packet w e = absurd e
  protect_cipher (some session) packet w e =
      let id = if is_empty session.device_id then codes "unknown" else session.device_id in
      let (c, g) = works.gives w.history id packet in (c, (g.1, ground (arith, e.0, e.1, g.0)))

  written-Encrypting :
      (s : Stream) (packet : Text) (w : World env.Value)
      → IsCipher packet
      → Encrypting s w
      → Encrypting s (write_to_client env s packet w).1
  unfolding write_to_client offered
  written-Encrypting s packet w c h = ground (arith, c, h)

  sent-Encrypting :
      (s : Stream) (content : Text) (w : World env.Value)
      → Encrypting s w
      → Encrypting s (write_report env s content w).1
  unfolding write_report
  sent-Encrypting s content w h =
      let packet = env.serialize (report_event env s.device_id content) in
      let (c, p) = protect_cipher s.session packet w h.0 in rw p.1 (written-Encrypting s c w p.0 h)

  settled-Encrypting :
      (s : Stream) (result : Delivery) (w : World env.Value)
      → Encrypting s w
      → Encrypting (count_sent env (settle env result s)) w
  unfolding settle
  settled-Encrypting s result w h = ground (arith, h)

  on_transfer-Encrypting :
      (s : Stream) (queue : q.Queue) (status : TransferStatus) (buffer : Text) (w : World env.Value)
      → Encrypting s w
      → let r = on_transfer env q s queue status buffer w in Encrypting r.0.0 r.1
  unfolding on_transfer offered
  on_transfer-Encrypting s queue status buffer w h = ground (arith, h)

  stopped-Encrypting :
      (s : Stream) (queue : q.Queue) (w : World env.Value)
      → Encrypting s w
      → Encrypting s (wake_threads env q s queue w).1
        × (let r = finish_stop env q s w in Encrypting r.0 r.1)
  unfolding wake_threads finish_stop offered
  stopped-Encrypting s queue w h = ground (arith, h)

  Step-Encrypting :
      {s t : System env q}
      → Step env q IsEncrypted s t
      → Encrypting s.stream s.world
      → Encrypting t.stream t.world
  Step-Encrypting (enter status buffer p r) h = h
  Step-Encrypting {s} (act status buffer p l) h =
      on_transfer-Encrypting s.stream s.queue status buffer s.world h
  Step-Encrypting (lose buffer p) h = h
  Step-Encrypting (push_lost p) h = h
  Step-Encrypting (leave p r) h = h
  Step-Encrypting (take r queue' p i) h = h
  Step-Encrypting {s} (send content p) h = sent-Encrypting s.stream content s.world h
  Step-Encrypting {s} (settles result p) h = settled-Encrypting s.stream result s.world h
  Step-Encrypting (drain_take r queue' p i) h = h
  Step-Encrypting {s} (drain_send content p) h = sent-Encrypting s.stream content s.world h
  Step-Encrypting {s} (drain_settles result p) h = settled-Encrypting s.stream result s.world h
  Step-Encrypting (finish p i) h = h
  Step-Encrypting (ask_stop p r) h = unfold mark_stop in h
  Step-Encrypting {s} (wake p) h = (stopped-Encrypting s.stream s.queue s.world h).0
  Step-Encrypting {s} (end_stop p c i) h = (stopped-Encrypting s.stream s.queue s.world h).1
  Step-Encrypting (rekey session e) h = (e, h.1)

  -- While the threads of a stream run in any order, and the session's thread changes keys but keeps
  -- encryption enabled with a key that is not empty, as it is from the start of the stream: if the
  -- provider never fails and gives ciphertexts, and only ciphertexts were handed to `::write` for the
  -- descriptor `fd` before, then no packet in plain text ever is.
  pub Steps-Secret :
      (s : Stream) (w : World env.Value) {t : System env q}
      → IsEncrypted s.session
      → All IsCipher (offered fd w.history)
      → Steps env q IsEncrypted (launched env q s w) t
      → All IsCipher (offered fd t.world.history)
  Steps-Secret s w i a steps = (secret steps).1
    where
      secret :
          {t : System env q}
          → Steps env q IsEncrypted (launched env q s w) t
          → Encrypting t.stream t.world
      secret (here) = unfold launched in (i, a)
      secret (next steps step) = Step-Encrypting step (secret steps)
