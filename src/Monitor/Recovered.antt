-- ===== src/Monitor/Recovered.antt =====
-- What the crash monitor (monitor/note_usb_monitor.cpp) does to the devices, and when it ends.
use note_usb.Shared.{
  ℕ, zero, suc, ◌+◌, ◌<◌, ◌≡◌, refl, true, false, List, [], ◌∷◌, ℤ, arith, pos, ◌==◌, int_eq,
  if◌then◌else◌,
}
use mathlib.Core.Path.{subst}
use note_usb.Platform.{Env, World, History, Handle, attached_driver, probed, both_branches}
use note_usb.Registry.Print.{ClaimedDevice}
use note_usb.Handler.Handles.{opens, closes, Net}
use note_usb.Session.{returned}
use note_usb.Monitor.{
  Outside, attach_opened, reattach_listed, reattach_kernel_driver, reattach_loop, recover,
  monitor_main,
}

-- How often `libusb_attach_kernel_driver` was called on `x`.
unfoldable pub attempts : {V : Type 0} → Handle → History V → ℕ
attempts x [] = 0
attempts x (attached_driver y interface r ∷ h) = (if x == y then 1 else 0) + attempts x h
attempts x (e ∷ h) = attempts x h

-- Between the two worlds each opening of `x` has one attempt to attach its driver and one closing.
abbrev pub Tidy : {V : Type 0} → Handle → World V → World V → Type 0
Tidy x w w' =
    Net x w w' 0 0
    × (attempts x w'.history + opens x w.history ≡ attempts x w.history + opens x w'.history)

-- The process is found alive `k` times and then gone.
unfoldable pub watched : {V : Type 0} → ℕ → World V → World V
watched zero w = record w { history = probed false ∷ w.history }
watched (suc k) w = watched k (record w { history = probed true ∷ w.history })

watched-Tidy : {V : Type 0} (x : Handle) (k : ℕ) (w : World V) → Tidy x w (watched k w)
unfolding watched opens closes attempts
watched-Tidy x zero w = omega arith
watched-Tidy x (suc k) w =
    let w1 = record w { history = probed true ∷ w.history } in
    let p = watched-Tidy x k w1 in (p.0, p.1)

module _ (env : Env) (out : Outside env.Value) (x : Handle) where
  reattach_kernel_driver-Tidy :
      (d : ClaimedDevice) (w : World env.Value) → Tidy x w (reattach_kernel_driver env out d w).1
  unfolding reattach_kernel_driver reattach_listed attach_opened opens closes attempts
  reattach_kernel_driver-Tidy d w = ground arith

  reattach_loop-Tidy :
      (pid : ℤ) (ds : List ClaimedDevice) (n k : ℕ) (w : World env.Value)
      → Tidy x w (reattach_loop env out pid ds n k w).1
  unfolding reattach_loop
  reattach_loop-Tidy pid [] n k w = omega arith
  reattach_loop-Tidy pid (d ∷ ds) n k w =
      let r = reattach_kernel_driver env out d w in
      let p = reattach_kernel_driver-Tidy d w in
      both_branches (λ (t : (ℕ × ℕ) × World env.Value). Tidy x w t.1) (int_eq d.pid pid) _ _ w
        (both_branches (λ (t : (ℕ × ℕ) × World env.Value). Tidy x w t.1) r.0 _ _ r.1
          (omega (arith, p, reattach_loop-Tidy pid ds (n + 1) k r.1))
          (omega (arith, p, reattach_loop-Tidy pid ds n (k + 1) r.1)))
        (reattach_loop-Tidy pid ds n k w)

  recover-Tidy :
      (pid : ℤ) (w : World env.Value)
      → ((w : World env.Value) → Tidy x w (out.get_all_devices w).1)
      → ((w : World env.Value) → Tidy x w (out.remove_all_by_pid pid w).1)
      → Tidy x w (recover env out pid w).1
  unfolding recover
  recover-Tidy pid w reads removes =
      let a = out.get_all_devices w in
      let b = reattach_loop env out pid a.0 0 0 a.1 in
      let p = reattach_loop-Tidy pid a.0 0 0 a.1 in omega (arith, reads w, p, removes b.1)

  -- From the round `n` on, up to the round `m`.
  watching :
      (f k n m : ℕ) (pid : ℤ) (w : World env.Value)
      → m ≡ n + k
      → ((i : ℕ) → i < m → out.is_alive i pid ≡ true)
      → out.is_alive m pid ≡ false
      → k < f
      → monitor_main env out f n pid w ≡ (returned (pos 0), (recover env out pid (watched k w)).1)
  unfolding monitor_main watched
  watching zero k n m pid w e a g h = absurd (omega (arith, h))
  watching (suc f) zero n m pid w e a g h =
      let same : m ≡ n = omega (arith, e) in
      simp (subst (λ i. out.is_alive i pid ≡ false) same g) refl
  watching (suc f) (suc k) n m pid w e a g h =
      simp (a n (omega (arith, e)))
        (watching f k (n + 1) m pid _ (omega (arith, e)) a g (omega (arith, h)))

  -- If the process is alive at the first `k` probes and gone at the next, and the other DeviceRegistry
  -- leaves libusb alone: with more fuel than `k`, the monitor ends with 0, behind one recovery, and by
  -- then each opening of a handle had one attempt to attach the kernel driver and one closing.
  pub monitor_main-recover :
      (f k : ℕ) (pid : ℤ) (w : World env.Value)
      → ((w : World env.Value) → Tidy x w (out.get_all_devices w).1)
      → ((w : World env.Value) → Tidy x w (out.remove_all_by_pid pid w).1)
      → ((i : ℕ) → i < k → out.is_alive i pid ≡ true)
      → out.is_alive k pid ≡ false
      → k < f
      → let w' = (recover env out pid (watched k w)).1 in
        (monitor_main env out f 0 pid w ≡ (returned (pos 0), w')) × Tidy x w w'
  monitor_main-recover f k pid w reads removes a g h = (
    watching f k 0 k pid w (omega arith) a g h,
    omega (arith, watched-Tidy x k w, recover-Tidy pid (watched k w) reads removes),
  )
