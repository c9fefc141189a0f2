-- ===== src/Streaming/Start.antt =====
-- How `start` of a HIDStreamingThread ends (src/hid_streaming_thread.cpp), and the transfers that it
-- allocates and frees.
use note_usb.Shared.{
  ℕ, ◌+◌, ◌≡◌, ◌⊎◌, inl, inr, refl, Bool, true, false, [], ◌∷◌, arith, if◌then◌else◌,
}
use note_usb.Platform.{
  Env, World, History, Answer, ok, fail, each_branch, allocated_transfer, freed_transfer,
}
use note_usb.Streaming.{Stream}
use note_usb.Streaming.Capture.{submitted, start_transfer, start}

-- How often `libusb_alloc_transfer` has given a transfer.
unfoldable pub allocations : {V : Type 0} → History V → ℕ
allocations [] = 0
allocations (allocated_transfer b ∷ h) = (if b then 1 else 0) + allocations h
allocations (e ∷ h) = allocations h

-- How often `libusb_free_transfer` was called.
unfoldable pub frees : {V : Type 0} → History V → ℕ
frees [] = 0
frees (freed_transfer ∷ h) = 1 + frees h
frees (e ∷ h) = frees h

-- Between the two worlds `n` more transfers were allocated than freed.
abbrev pub Kept : {V : Type 0} → World V → World V → ℕ → Type 0
Kept w w' n =
    allocations w'.history + frees w.history ≡ allocations w.history + frees w'.history + n

-- Nothing of the stream is there: it does not run, has no threads and no transfer.
abbrev pub Idle : Stream → Type 0
Idle s = (s.running ≡ false) × ((s.joinable ≡ false) × (s.has_transfer ≡ false))

-- It runs, with its threads and a transfer.
abbrev pub Ready : Stream → Type 0
Ready s = (s.running ≡ true) × ((s.joinable ≡ true) × (s.has_transfer ≡ true))

module _ (env : Env) where
  abbrev pub Launched : World env.Value → ℕ → Stream × World env.Value → Type 0
  Launched w n (s', w') = (Ready s' × Kept w w' (n + 1)) ⊎ (Idle s' × Kept w w' n)

  submitted-Launched :
      (s : Stream) (r : Answer (Unit {0})) (w0 w : World env.Value)
      → s.running ≡ true
      → s.joinable ≡ false
      → Kept w0 w 1
      → Launched w0 0 (submitted env s r w)
  unfolding submitted allocations frees
  submitted-Launched s (ok _) w0 w r j k = inl ((r, (refl, refl)), k)
  submitted-Launched s (fail rc) w0 w r j k = inr ((refl, (j, refl)), omega (arith, k))

  start_transfer-Launched :
      (s : Stream) (b : Bool) (w0 w : World env.Value)
      → s.running ≡ true
      → s.joinable ≡ false
      → Kept w0 w (if b then 1 else 0)
      → Launched w0 0 (start_transfer env s b w)
  unfolding start_transfer allocations frees
  start_transfer-Launched s false w0 w r j k = inr ((refl, (j, refl)), k)
  start_transfer-Launched s true w0 w r j k =
      each_branch (Launched w0 0) (env.alloc_buffer w.history) _ _ w
        (λ e. submitted-Launched s (env.submit_transfer w.history) w0 _ r j k)
        (λ e. inr ((refl, (j, refl)), omega (arith, k)))

  -- From an idle stream `start` leaves one that runs, with its threads and one transfer more, or an
  -- idle one, with each transfer freed that it allocated.
  pub start-Launched : (s : Stream) (w : World env.Value) → Idle s → Launched w 0 (start env s w)
  unfolding start allocations frees
  start-Launched s w i =
      each_branch (Launched w 0) s.running _ _ w (λ e. inr (i, omega arith))
        (λ e.
          start_transfer-Launched (record s { running = true; stop_requested = false })
            (env.alloc_transfer w.history) w _ refl i.1.0 (omega arith))
