-- ===== src/Handler/Handles.antt =====
-- The handles that DeviceHandler (src/device_handler.cpp) opens and closes, against those in
-- `claimed_devices_`.
pub mod Released
use note_usb.Shared.{
  ℕ, suc, ◌+◌, ◌≡◌, refl, Bool, true, false, Option, none, some, List, [], ◌∷◌, ◌++◌, codes, arith,
  Text, ℤ, ◌==◌, if◌then◌else◌, text_key, inl, inr, Bool-cases, Option-cases,
}
use note_usb.Shared.Map.{Map, lookup, has}
use note_usb.Shared.Map.Laws.{Unique}
use note_usb.Shared.Map.Count.{total, total-insert, total-erase}
use note_usb.Protocol.{Code, Error, Field, Message, Response}
use note_usb.Platform.{Env, World, Event, History, Handle, Answer, ok, fail, opened, closed}
use note_usb.Registry.{add_device, remove_device, remove_all}
use note_usb.Handler.{
  DeviceInfo, Handler, write_to_fd, error_response, send_error_response, discover_devices,
  send_device_list,
}
use note_usb.Handler.Claim.{
  Acquired, taken, refused, detach_driver, take_interface, open_device, acquire, store_claim,
  register_owner, accept_claim, refuse_claim, finish_claim, claim_available, claim_id, claim_device,
}
use note_usb.Handler.Release.{
  close_device, give_back, forget_claim, unregister_owner, release_claimed, release_id,
  release_device, released_response, release_entry, release_loop, release_all_devices,
}

-- How often `libusb_open` has given `x`.
unfoldable pub opens : {V : Type 0} → Handle → History V → ℕ
opens x [] = 0
opens x (opened dev (ok y) ∷ h) = (if x == y then 1 else 0) + opens x h
opens x (e ∷ h) = opens x h

-- How often `libusb_close` was called on `x`.
unfoldable pub closes : {V : Type 0} → Handle → History V → ℕ
closes x [] = 0
closes x (closed y ∷ h) = (if x == y then 1 else 0) + closes x h
closes x (e ∷ h) = closes x h

abbrev pub holds_handle : Handle → Option Handle → ℕ
holds_handle x none = 0
holds_handle x (some y) = if x == y then 1 else 0

abbrev pub holds : Handle → DeviceInfo → ℕ
holds x info = holds_handle x info.handle

-- How many claimed devices hold `x`.
unfoldable pub held : Handle → Handler → ℕ
held x h = total (holds x) h.claimed

abbrev gained : Handle → Acquired → ℕ
gained x (taken y detached) = if x == y then 1 else 0
gained x (refused e) = 0

-- Between the two worlds `x` was opened `n` times more often than it was closed, as far as the
-- two counts say, and `k` times less often.
abbrev pub Net : {V : Type 0} → Handle → World V → World V → ℕ → ℕ → Type 0
Net x w w' n k =
    opens x w'.history + closes x w.history + k ≡ opens x w.history + closes x w'.history + n

abbrev pub Quiet : {V : Type 0} → Handle → World V → World V → Type 0
Quiet x w w' = (opens x w'.history ≡ opens x w.history) × (closes x w'.history ≡ closes x w.history)

-- Every handle that the handler opens is in `claimed_devices_` or closed again: what the calls
-- of one method open and close is what its table of claimed devices gains and loses.
abbrev pub Balanced : {V : Type 0} → Handle → Handler → World V → Handler → World V → Type 0
Balanced x h w h' w' = Net x w w' (held x h') (held x h)

module _ (env : Env) where
  acquire-Net :
      (x : Handle) (id : Text) (interface : ℤ) (w : World env.Value)
      → Net x w (acquire env id interface w).1 (gained x (acquire env id interface w).0) 0
  unfolding acquire opens closes
  acquire-Net x id interface w = ground arith

  add_device-Quiet :
      (x : Handle) (id : Text) (interface : ℤ) (driver : Bool) (w : World env.Value)
      → Quiet x w (add_device env id interface driver w).1
  unfolding add_device opens closes
  add_device-Quiet x id interface driver w = ground arith

  pub remove_device-Quiet :
      (x : Handle) (id : Text) (w : World env.Value) → Quiet x w (remove_device env id w).1
  unfolding remove_device opens closes
  remove_device-Quiet x id w = ground arith

  pub remove_all-Quiet : (x : Handle) (w : World env.Value) → Quiet x w (remove_all env w).1
  unfolding remove_all opens closes
  remove_all-Quiet x w = ground arith

  refuse_claim-Quiet :
      (x : Handle) (h : Handler) (id : Text) (e : Error) (fd : ℤ) (w : World env.Value)
      → Quiet x w (refuse_claim env h id e fd w).1
  unfolding refuse_claim opens closes
  refuse_claim-Quiet x h id e fd w = ground arith

  refuse_claim-handler :
      (h : Handler) (id : Text) (e : Error) (fd : ℤ) (w : World env.Value)
      → (refuse_claim env h id e fd w).0.1 ≡ h
  unfolding refuse_claim
  refuse_claim-handler h id e fd w = refl

  refuse_claim-Balanced :
      (x : Handle) (h : Handler) (id : Text) (e : Error) (fd : ℤ) (w : World env.Value)
      → let r = refuse_claim env h id e fd w in Balanced x h w r.0.1 r.1
  refuse_claim-Balanced x h id e fd w =
      ground (arith, refuse_claim-Quiet x h id e fd w, refuse_claim-handler h id e fd w)

  accept_claim-Balanced :
      (x : Handle) (h : Handler) (id : Text) (y : Handle) (interface : ℤ) (detached : Bool)
      (fd pid : ℤ) (w : World env.Value)
      → lookup id h.claimed ≡ none
      → let r = accept_claim env h id y interface detached fd pid w in
        Net x w r.1 0 0 × (held x r.0.1 ≡ held x h + (if x == y then 1 else 0))
  unfolding accept_claim opens closes held
  accept_claim-Balanced x h id y interface detached fd pid w new = ground (
    arith,
    add_device-Quiet x id interface detached w,
    total-insert (holds x) id
        (record {
          device_id = id;
          handle = some y;
          interface_number = interface;
          kernel_driver_attached = detached;
          capabilities = env.mode_mask;
          owner_pid = pid;
        })
        h.claimed new,
  )

  finish_claim-Balanced :
      (x : Handle) (h : Handler) (id : Text) (interface fd pid : ℤ) (a : Acquired)
      (w : World env.Value)
      → lookup id h.claimed ≡ none
      → let r = finish_claim env h id interface fd pid a w in
        Net x w r.1 0 0 × (held x r.0.1 ≡ held x h + gained x a)
  unfolding finish_claim
  finish_claim-Balanced x h id interface fd pid (refused e) w new =
      ground (arith, refuse_claim-Quiet x h id e fd w, refuse_claim-handler h id e fd w)
  finish_claim-Balanced x h id interface fd pid (taken y detached) w new =
      accept_claim-Balanced x h id y interface detached fd pid w new

  claim_available-Balanced :
      (x : Handle) (h : Handler) (id : Text) (interface fd pid : ℤ) (w : World env.Value)
      → let r = claim_available env h id interface fd pid w in Balanced x h w r.0.1 r.1
  unfolding claim_available
  claim_available-Balanced x h id interface fd pid w = elim (Option-cases (lookup id h.claimed)) [
    | inr (i, e) ↦ rw (e, claim_available) (refuse_claim-Balanced x h id _ fd w)
    | inl e ↦
        let m = acquire env id interface w in
        rw (e, claim_available)
          (omega (
            arith,
            acquire-Net x id interface w,
            finish_claim-Balanced x h id interface fd pid m.0 m.1 e,
          ))
  ]

  claim_id-Balanced :
      (x : Handle) (h : Handler) (id : Text) (fd pid : ℤ) (w : World env.Value)
      → let r = claim_id env h id fd pid w in Balanced x h w r.0.1 r.1
  unfolding claim_id
  claim_id-Balanced x h id fd pid w = elim (Option-cases (lookup id h.available)) [
    | inl e ↦ rw (e, claim_id) (refuse_claim-Balanced x h id _ fd w)
    | inr (d, e) ↦ rw (e, claim_id) (claim_available-Balanced x h id d.interface_number fd pid w)
  ]

  -- For every handle `x`: a claim, granted or refused, opens `x` more often than it closes it by
  -- exactly what `claimed_devices_` gains. No handle stays open that is not in the table.
  pub claim_device-Balanced :
      (x : Handle) (h : Handler) (msg : env.Object) (fd pid : ℤ) (w : World env.Value)
      → let r = claim_device env h msg fd pid w in Balanced x h w r.0.1 r.1
  unfolding claim_device
  claim_device-Balanced x h msg fd pid w = elim (Option-cases (env.get msg Field.device_id)) [
    | inl e ↦ rw (e, claim_device) (refuse_claim-Balanced x h [] _ fd w)
    | inr (v, e) ↦ rw (e, claim_device) (claim_id-Balanced x h (env.as_string v) fd pid w)
  ]
