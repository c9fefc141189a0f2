-- ===== src/Handler/Replies.antt =====
-- What DeviceHandler answers on the management socket, and when.
use note_usb.Shared.{
  ◌≡◌, ◌≢◌, refl, ap, ◌∙◌, Bool, false, none, some, List, [], ◌∷◌, arith, Text, text_key, ℤ, int_eq,
  int_eq_iff, is_negative, if◌then◌else◌, inl, inr, Option-cases,
}
use note_usb.Shared.Map.{lookup}
use note_usb.Protocol.{Code, Error, Field, Message, Response}
use note_usb.Platform.{Env, World, History, Handle, wrote, registered_owner}
use note_usb.Registry.{add_device}
use note_usb.Usb.{Descriptor}
use note_usb.Handler.{Handler, success, write_to_fd, error_response, send_error_response}
use note_usb.Handler.Claim.{
  Acquired, taken, refused, acquire, store_claim, claimed_response, register_owner, accept_claim,
  refuse_claim, finish_claim, claim_available, claim_id, claim_device,
}

-- The messages that were written to `fd`, newest first.
unfoldable pub replies : {V : Type 0} → ℤ → History V → List (Response V)
replies fd [] = []
replies fd (wrote fd' msg ∷ h) = if int_eq fd' fd then msg ∷ replies fd h else replies fd h
replies fd (e ∷ h) = replies fd h

-- The newest events: the reply, and before it the registration of the owner, if there is a registry.
abbrev pub AnnouncedLast : {V : Type 0} → Handler → Text → ℤ → Response V → History V → Type 0
AnnouncedLast {V} h id fd msg new =
    (before : History V) × (new
      ≡ wrote fd msg
        ∷ (if h.has_ownership_registry then registered_owner id h.module_name ∷ before else before))

module _ (env : Env) (h : Handler) (fd pid : ℤ) (w : World env.Value) where
  -- How a claim ends, and what the client hears of it.
  pub data ClaimOutcome (r : (Error × Handler) × World env.Value) : Type 0 where
    refusal :
        (id : Text) (e : Error)
        → e.code ≢ Code.daemon_success
        → r.0 ≡ (e, h)
        → replies fd r.1.history
          ≡ error_response env Message.item_claimed id e.code e.message ∷ replies fd w.history
        → r.1.file ≡ w.file
        → ClaimOutcome r
    grant :
        (id : Text) (d : Descriptor) (x : Handle) (detached : Bool)
        → lookup id h.available ≡ some d
        → lookup id h.claimed ≡ none
        → r.0 ≡ (success, store_claim env h id x d.interface_number detached pid)
        → replies fd r.1.history ≡ claimed_response env h id ∷ replies fd w.history
        → AnnouncedLast h id fd (claimed_response env h id) r.1.history
        → ClaimOutcome r

module _ (env : Env) where
  acquire-Silent :
      (fd : ℤ) (id : Text) (interface : ℤ) (w : World env.Value)
      → let w' = (acquire env id interface w).1 in
        (replies fd w'.history ≡ replies fd w.history) × (w'.file ≡ w.file)
  unfolding acquire replies
  acquire-Silent fd id interface w = ground arith

  add_device-Silent :
      (fd : ℤ) (id : Text) (interface : ℤ) (driver : Bool) (w : World env.Value)
      → replies fd (add_device env id interface driver w).1.history ≡ replies fd w.history
  unfolding add_device replies
  add_device-Silent fd id interface driver w = ground arith

  refusal-code :
      (id : Text) (interface : ℤ) (w : World env.Value) (e : Error)
      → (acquire env id interface w).0 ≡ refused e
      → e.code ≢ Code.daemon_success
  unfolding acquire
  refusal-code id interface w e h = ground arith

  write_to_fd_lem :
      (fd : ℤ) (msg : Response env.Value) (w : World env.Value)
      → is_negative fd ≡ false
      → write_to_fd env fd msg w ≡ (tt, record w { history = wrote fd msg ∷ w.history })
  unfolding write_to_fd
  write_to_fd_lem fd msg w n = rw n

  pub replies-wrote :
      (fd : ℤ) (msg : Response env.Value) (old : History env.Value)
      → replies fd (wrote fd msg ∷ old) ≡ msg ∷ replies fd old
  unfolding replies
  replies-wrote fd msg old = rw ((int_eq_iff fd fd).1 refl)

  refuse_claim-outcome :
      (h : Handler) (fd pid : ℤ) (w0 w : World env.Value) (id : Text) (e : Error)
      → is_negative fd ≡ false
      → e.code ≢ Code.daemon_success
      → replies fd w.history ≡ replies fd w0.history
      → w.file ≡ w0.file
      → ClaimOutcome env h fd pid w0 (refuse_claim env h id e fd w)
  unfolding refuse_claim send_error_response
  refuse_claim-outcome h fd pid w0 w id e n c s f =
      refusal id e c refl
        (ap (λ r. replies fd r.1.history) (write_to_fd_lem fd msg w n)
          ∙ replies-wrote fd msg _
          ∙ ap (◌∷◌ msg) s)
        (ap (λ r. r.1.file) (write_to_fd_lem fd msg w n) ∙ f)
    where
      msg : Response env.Value
      msg = error_response env Message.item_claimed id e.code e.message

  accept_claim-outcome :
      (h : Handler) (id : Text) (d : Descriptor) (x : Handle) (detached : Bool) (fd pid : ℤ)
      (w0 w : World env.Value)
      → is_negative fd ≡ false
      → lookup id h.available ≡ some d
      → lookup id h.claimed ≡ none
      → replies fd w.history ≡ replies fd w0.history
      → ClaimOutcome env h fd pid w0 (accept_claim env h id x d.interface_number detached fd pid w)
  unfolding accept_claim
  accept_claim-outcome h id d x detached fd pid w0 w n f g s =
      grant id d x detached f g refl
        (ap (λ r. replies fd r.1.history) sent
          ∙ replies-wrote fd msg _
          ∙ ap (◌∷◌ msg) (registered ∙ s))
        (w1.history, ap (λ r. r.1.history) sent ∙ ap (◌∷◌ (wrote fd msg)) announced)
    where
      msg : Response env.Value
      msg = claimed_response env h id

      w1 : World env.Value
      w1 = (add_device env id d.interface_number detached w).1

      w2 : World env.Value
      w2 = (register_owner env h id w1).1

      sent : write_to_fd env fd msg w2 ≡ (tt, record w2 { history = wrote fd msg ∷ w2.history })
      sent = write_to_fd_lem fd msg w2 n

      announced : w2.history ≡ (
          if h.has_ownership_registry
          then registered_owner id h.module_name ∷ w1.history
          else w1.history)
      announced = unfold register_owner in ground arith

      registered : replies fd w2.history ≡ replies fd w.history
      registered =
          unfold register_owner replies in
          ground (arith, add_device-Silent fd id d.interface_number detached w)

  finish_claim-outcome :
      (h : Handler) (id : Text) (d : Descriptor) (fd pid : ℤ) (w0 : World env.Value) (a : Acquired)
      (w : World env.Value)
      → is_negative fd ≡ false
      → lookup id h.available ≡ some d
      → lookup id h.claimed ≡ none
      → ((e : Error) → a ≡ refused e → e.code ≢ Code.daemon_success)
      → (replies fd w.history ≡ replies fd w0.history) × (w.file ≡ w0.file)
      → ClaimOutcome env h fd pid w0 (finish_claim env h id d.interface_number fd pid a w)
  unfolding finish_claim
  finish_claim-outcome h id d fd pid w0 (refused e) w n f g c s =
      refuse_claim-outcome h fd pid w0 w id e n (c e refl) s.0 s.1
  finish_claim-outcome h id d fd pid w0 (taken x detached) w n f g c s =
      accept_claim-outcome h id d x detached fd pid w0 w n f g s.0

  claim_available-outcome :
      (h : Handler) (id : Text) (d : Descriptor) (fd pid : ℤ) (w : World env.Value)
      → is_negative fd ≡ false
      → lookup id h.available ≡ some d
      → ClaimOutcome env h fd pid w (claim_available env h id d.interface_number fd pid w)
  unfolding claim_available
  claim_available-outcome h id d fd pid w n f = elim (Option-cases (lookup id h.claimed)) [
    | inr (i, e) ↦
        rw (e, claim_available) (refuse_claim-outcome h fd pid w w id _ n (λ p. cc) refl refl)
    | inl e ↦
        let m = acquire env id d.interface_number w in
        rw (e, claim_available)
          (finish_claim-outcome h id d fd pid w m.0 m.1 n f e (refusal-code id d.interface_number w)
            (acquire-Silent fd id d.interface_number w))
  ]

  claim_id-outcome :
      (h : Handler) (id : Text) (fd pid : ℤ) (w : World env.Value)
      → is_negative fd ≡ false
      → ClaimOutcome env h fd pid w (claim_id env h id fd pid w)
  unfolding claim_id
  claim_id-outcome h id fd pid w n = elim (Option-cases (lookup id h.available)) [
    | inl e ↦ rw (e, claim_id) (refuse_claim-outcome h fd pid w w id _ n (λ p. cc) refl refl)
    | inr (d, e) ↦ rw (e, claim_id) (claim_available-outcome h id d fd pid w n e)
  ]

  -- A claim with a valid descriptor ends in one of two ways. Refused: it returns an error, the
  -- handler and the registry file are as before, and the one message written is that error.
  -- Granted: the device was known and not claimed, both tables record the handle and the owner,
  -- and the one message written is ITEM_CLAIMED, directly behind the registration of the owner
  -- where there is a registry.
  pub claim_device-ClaimOutcome :
      (h : Handler) (msg : env.Object) (fd pid : ℤ) (w : World env.Value)
      → is_negative fd ≡ false
      → ClaimOutcome env h fd pid w (claim_device env h msg fd pid w)
  unfolding claim_device
  claim_device-ClaimOutcome h msg fd pid w n = elim (Option-cases (env.get msg Field.device_id)) [
    | inl e ↦ rw (e, claim_device) (refuse_claim-outcome h fd pid w w [] _ n (λ p. cc) refl refl)
    | inr (v, e) ↦ rw (e, claim_device) (claim_id-outcome h (env.as_string v) fd pid w n)
  ]
