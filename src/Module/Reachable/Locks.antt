-- ===== src/Module/Reachable/Locks.antt =====
-- The requests of the management socket (src/module.cpp) on the locks of the device handler.
use mathlib.Core.Option
use note_usb.Shared.{
  text_key, ◌≡◌, refl, ap, ◌∙◌, true, false, Option, none, some, ◌∷◌, arith, Text, codes, ℤ,
  is_negative, text_eq_iff,
}
use note_usb.Shared.Map.{lookup}
use note_usb.Protocol.{Code, Error, Field, Message}
use note_usb.Platform.{Env, World, Act, pure, both_branches}
use note_usb.Registry.{remove_device}
use note_usb.Handler.{DeviceInfo, Handler, success, error_of, write_to_fd}
use note_usb.Handler.Release.{
  released_response, forget_claim, release_claimed, release_id, release_device, give_back,
  unregister_owner,
}
use note_usb.Handler.Owners.{
  owner_of, OwnerStep, kept, claim_device-OwnerStep, release_device-OwnerStep,
  send_device_list-claimed, forget_claim-owner_of,
}
use note_usb.Handler.Replies.{replies, replies-wrote}
use note_usb.Module.{
  command_of, request_discovery, claim_item, release_item, run_command, handle_management_message,
}

module _ (env : Env) where
  -- What one request of `pid` does to a handler that is there.
  abbrev pub Stepped : Handler → ℤ → (Error × Option Handler) × World env.Value → Type 0
  Stepped h pid ((e, none), w') = ⊥
  Stepped h pid ((e, some h'), w') = OwnerStep pid h h'

  listed-OwnerStep :
      (h : Handler) (fd pid : ℤ) (w : World env.Value)
      → Stepped h pid (request_discovery env (some h) fd w)
  unfolding request_discovery
  listed-OwnerStep h fd pid w = kept (λ j.
      ap (λ m. Option.map (λ (i : DeviceInfo). i.owner_pid) (lookup j m))
        (send_device_list-claimed env h fd w))

  -- The device handler is a table of locks: a request of the client `pid` leaves all owners as they
  -- are, or makes the client the owner of one known device that nobody owned, or frees one device that
  -- somebody owned; all other devices keep their owners.
  pub handle_management_message-Stepped :
      (h : Handler) (msg : env.Object) (fd pid : ℤ) (w : World env.Value)
      → Stepped h pid (handle_management_message env (some h) msg fd pid w)
  unfolding handle_management_message run_command claim_item release_item
  handle_management_message-Stepped h msg fd pid w = dispatched (command_of env msg)
    where
      commanded : (cmd : env.Value) → Stepped h pid (run_command env (some h) cmd msg fd pid w)
      commanded cmd =
          both_branches (Stepped h pid) (env.equals cmd Message.request_discovery) _ _ w
            (listed-OwnerStep h fd pid w)
            (both_branches (Stepped h pid) (env.equals cmd Message.claim_item) _ _ w
              (claim_device-OwnerStep env h msg fd pid w)
              (both_branches (Stepped h pid) (env.equals cmd Message.release_item) _ _ w
                (release_device-OwnerStep env h msg fd pid w) (kept (λ j. refl))))

      dispatched :
          (found : Option env.Value)
          → Stepped h pid (
              (elim found as (λ f. Act env.Value (Error × Option Handler)) [
                | none ↦
                    pure
                      (error_of Code.invalid_message (codes "Missing CMD or EVENT field"), some h)
                | some cmd ↦ run_command env (some h) cmd msg fd pid
              ])
                w)
      dispatched none = kept (λ j. refl)
      dispatched (some cmd) = commanded cmd

  remove_device-Silent :
      (fd : ℤ) (id : Text) (w : World env.Value)
      → replies fd (remove_device env id w).1.history ≡ replies fd w.history
  unfolding remove_device replies
  remove_device-Silent fd id w = ground arith

  give_back-Silent :
      (fd : ℤ) (i : DeviceInfo) (w : World env.Value)
      → replies fd (give_back env i.handle i.interface_number i.kernel_driver_attached w).1.history
        ≡ replies fd w.history
  unfolding give_back replies
  give_back-Silent fd i w = ground arith

  unregister_owner-Silent :
      (h : Handler) (fd : ℤ) (id : Text) (w : World env.Value)
      → replies fd (unregister_owner env h id w).1.history ≡ replies fd w.history
  unfolding unregister_owner replies
  unregister_owner-Silent h fd id w = ground arith

  abbrev pub Released :
      Handler → Text → ℤ → World env.Value → (Error × Handler) × World env.Value → Type 0
  Released h id fd w r =
      (r.0 ≡ (success, forget_claim env h id))
      × (owner_of id r.0.1 ≡ none)
      × (replies fd r.1.history ≡ released_response env id ∷ replies fd w.history)

  release_claimed-Released :
      (h : Handler) (id : Text) (i : DeviceInfo) (fd : ℤ) (w : World env.Value)
      → is_negative fd ≡ false
      → Released h id fd w (release_claimed env h id i fd w)
  unfolding release_claimed write_to_fd
  release_claimed-Released h id i fd w n =
      let w1 = (give_back env i.handle i.interface_number i.kernel_driver_attached w).1 in
      let w2 = (remove_device env id w1).1 in
      let w3 = (unregister_owner env h id w2).1 in
      rw n (
        refl,
        ground (arith, forget_claim-owner_of env h id id, text_eq_iff id id),
        replies-wrote env fd (released_response env id) w3.history
            ∙ ap (◌∷◌ (released_response env id)) (
                unregister_owner-Silent h fd id w2
                ∙ remove_device-Silent fd id w1
                ∙ give_back-Silent fd i w),
      )

  released_request :
      (h : Handler) (msg : env.Object) (fd pid : ℤ) (w : World env.Value) (cmd v : env.Value)
      (i : DeviceInfo)
      → command_of env msg ≡ some cmd
      → env.equals cmd Message.request_discovery ≡ false
      → env.equals cmd Message.claim_item ≡ false
      → env.equals cmd Message.release_item ≡ true
      → env.get msg Field.device_id ≡ some v
      → lookup (env.as_string v) h.claimed ≡ some i
      → let r = release_claimed env h (env.as_string v) i fd w in
        handle_management_message env (some h) msg fd pid w ≡ ((r.0.0, some r.0.1), r.1)
  unfolding handle_management_message run_command release_item release_device release_id
  released_request h msg fd pid w cmd v i c a b e f l = ground (arith, c, a, b, e, f, l)

  -- Whichever client asks: a release request for a device that is claimed succeeds, is answered with
  -- ITEM_RELEASED on the descriptor of the client that asked, and leaves the device without an owner.
  pub handle_management_message-released :
      (h : Handler) (msg : env.Object) (fd pid : ℤ) (w : World env.Value) (cmd v : env.Value)
      (i : DeviceInfo)
      → is_negative fd ≡ false
      → command_of env msg ≡ some cmd
      → env.equals cmd Message.request_discovery ≡ false
      → env.equals cmd Message.claim_item ≡ false
      → env.equals cmd Message.release_item ≡ true
      → env.get msg Field.device_id ≡ some v
      → lookup (env.as_string v) h.claimed ≡ some i
      → let id = env.as_string v in
        let r = handle_management_message env (some h) msg fd pid w in
        (r.0 ≡ (success, some (forget_claim env h id)))
        × (owner_of id (forget_claim env h id) ≡ none)
        × (replies fd r.1.history ≡ released_response env id ∷ replies fd w.history)
  handle_management_message-released h msg fd pid w cmd v i n c a b e f l =
      let r = release_claimed-Released h (env.as_string v) i fd w n in
      rw (released_request h msg fd pid w cmd v i c a b e f l)
        (ap (λ (p : Error × Handler). (p.0, some p.1)) r.0, unfold release_claimed in r.1, r.2)
