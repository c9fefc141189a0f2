-- ===== src/Monitor.antt =====
-- The crash monitor (monitor/note_usb_monitor.cpp): a program of its own, which the module starts.
-- It waits for the end of the daemon and gives the claimed devices back to their kernel drivers. Its
-- DeviceRegistry comes from a header of NoteDaemon that is not in the repository.
pub mod Recovered
use note_usb.Shared.{
  ℕ, zero, suc, ◌+◌, Bool, true, false, Option, none, some, List, [], ◌∷◌, Text, ℤ, pos, int_eq,
  is_negative, if◌then◌else◌,
}
use note_usb.Platform.{
  Env, World, Device, Handle, Answer, ok, fail, Act, ◌>>=◌, ◌>>◌, pure, note, ask, listed, opened,
  closed, attached_driver, initialised_usb, exited_usb, probed,
}
use note_usb.Usb.{find_usb_device}
use note_usb.Registry.Print.{ClaimedDevice}
use note_usb.Session.{Ran, returned, hung}

-- What the monitor calls: the other DeviceRegistry, the answer of the `n`th `kill(pid, 0)`, `atoi`,
-- and libusb's constant `LIBUSB_ERROR_NOT_FOUND`.
pub record Outside (V : Type 0) : Type 0 where
  pub get_all_devices : Act V (List ClaimedDevice)
  pub remove_all_by_pid : ℤ → Act V (Unit {0})
  pub is_alive : ℕ → ℤ → Bool
  pub atoi : Text → ℤ
  pub not_found : ℤ

module _ (env : Env) (out : Outside env.Value) where
  abbrev V : Type 0
  V = env.Value

  -- `rc == LIBUSB_SUCCESS || rc == LIBUSB_ERROR_NOT_FOUND`
  abbrev is_attached : Answer (Unit {0}) → Bool
  is_attached (ok _) = true
  is_attached (fail rc) = int_eq rc out.not_found

  -- Behind `libusb_open`.
  unfoldable pub attach_opened : Answer Handle → ℤ → Act V Bool
  attach_opened (fail rc) interface = do note exited_usb; pure false
  attach_opened (ok x) interface = do
    rc ← ask (λ h. env.attach_driver h x interface) (attached_driver x interface)
    note (closed x)
    note exited_usb
    pure (is_attached rc)

  -- Behind `libusb_get_device_list`.
  unfoldable pub reattach_listed : Answer (List Device) → ClaimedDevice → Act V Bool
  unfolding attach_opened find_usb_device
  reattach_listed (fail rc) d = do note exited_usb; pure false
  reattach_listed (ok devs) d = elim (find_usb_device env d.device_id devs) [
    | none ↦ do note exited_usb; pure false
    | some dev ↦ do
      answer ← ask (λ h. env.open_device h dev) (opened dev)
      attach_opened answer d.interface_number
  ]

  unfoldable pub reattach_kernel_driver : ClaimedDevice → Act V Bool
  unfolding reattach_listed
  reattach_kernel_driver d = do
    started ← ask env.init_ok initialised_usb
    if started
        then (do answer ← ask env.device_list (λ _. listed); reattach_listed answer d)
        else pure false

  -- The loop over the devices, with its counters `reattached` and `failed`.
  unfoldable pub reattach_loop : ℤ → List ClaimedDevice → ℕ → ℕ → Act V (ℕ × ℕ)
  unfolding reattach_kernel_driver
  reattach_loop pid [] reattached failed = pure (reattached, failed)
  reattach_loop pid (d ∷ ds) reattached failed =
      if int_eq d.pid pid
      then (do
        success ← reattach_kernel_driver d
        (if success
            then reattach_loop pid ds (reattached + 1) failed
            else reattach_loop pid ds reattached (failed + 1)))
      else reattach_loop pid ds reattached failed

  -- What is done once the process is gone; the counters go to the log.
  unfoldable pub recover : ℤ → Act V (ℕ × ℕ)
  unfolding reattach_loop
  recover pid = do
    devices ← out.get_all_devices
    counters ← reattach_loop pid devices 0 0
    out.remove_all_by_pid pid
    pure counters

  -- The loop, from its `n`th round; the fuel is the number of rounds.
  unfoldable pub monitor_main : ℕ → ℕ → ℤ → Act V (Ran ℤ)
  unfolding recover
  monitor_main zero n pid = pure hung
  monitor_main (suc f) n pid = do
    alive ← ask (λ _. out.is_alive n pid) probed
    let later = monitor_main f (n + 1) pid
    if alive then later else (recover pid >>= λ counters. pure (returned (pos 0)))

  -- `argv`, behind the program's name.
  unfoldable pub main : ℕ → List Text → Act V (Ran ℤ)
  unfolding monitor_main
  main f (arg ∷ []) =
      let pid = out.atoi arg in
      if is_negative pid
      then pure (returned (pos 1))
      else if int_eq pid (pos 0)
      then pure (returned (pos 1))
      else monitor_main f 0 pid
  main f other = pure (returned (pos 1))
