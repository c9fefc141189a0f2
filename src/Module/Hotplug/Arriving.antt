-- ===== src/Module/Hotplug/Arriving.antt =====
-- A client that arrives (handle_client) and a USB device that leaves or arrives (the hotplug callbacks
-- of src/module.cpp): where the client's notification goes.
use note_usb.Shared.{
  ℕ, ◌+◌, ◌≡◌, refl, ◌∙◌, some, none, [], ◌∷◌, arith, ℤ, int_key, int_eq, if◌then◌else◌,
}
use note_usb.Shared.Map.{lookup, place, emplace}
use note_usb.Platform.{Env, World, Device, SessionEntry, spawned_session}
use note_usb.Manager.{Sessions, new_entry, register_session}
use note_usb.Session.Lifecycle.{register_for_hotplug}
use note_usb.Session.Live.{new_session, create_session}
use note_usb.Streaming.{ReportQueue}
use note_usb.Module.Hotplug.{left, hotplug_callback_detached, send_device_detached}
use note_usb.Module.Hotplug.Delivery.{broadcasts, listeners, broadcast_to_all_counted}
use note_usb.Module.Life.{NoteUsbModule}
use note_usb.Module.Life.Clients.{handle_client}

-- What an entry adds to the listeners of `fd`.
abbrev listens : ℤ → SessionEntry → ℕ
listens fd e = if e.is_active then (if int_eq e.management_fd fd then 1 else 0) else 0

listeners-place :
    (fd k : ℤ) (e : SessionEntry) (m : Sessions)
    → listeners fd (place k e m) ≡ listens fd e + listeners fd m
unfolding listeners place
listeners-place fd k e [] = refl
listeners-place fd k e ((i, e') ∷ m) = ground (arith, listeners-place fd k e m)

module _ (env : Env) (q : ReportQueue) where
  arrived_client :
      (m : NoteUsbModule env q) (fd pid : ℤ) (this : ℕ) (w : World env.Value)
      → lookup pid m.sessions ≡ none
      → lookup fd w.sessions ≡ none
      → (handle_client env q m fd pid this w).1 ≡ record w {
        sessions = place fd (new_entry fd pid (some this)) w.sessions;
        history = spawned_session pid ∷ w.history;
      }
  unfolding handle_client create_session new_session register_for_hotplug register_session emplace
  arrived_client m fd pid this w new free = ground (arith, new, free)

  arrived_listeners :
      (fd pid : ℤ) (this : ℕ) (j : ℤ) (w : World env.Value)
      → listeners j (place fd (new_entry fd pid (some this)) w.sessions)
          + broadcasts j (spawned_session pid ∷ w.history)
        ≡ (if int_eq pid j then 1 else 0) + listeners j w.sessions + broadcasts j w.history
  unfolding broadcasts new_entry
  arrived_listeners fd pid this j w =
      omega (arith, listeners-place j fd (new_entry fd pid (some this)) w.sessions)

  -- A client arrives that is new to the module and whose descriptor is no key of SessionManager; then
  -- a device leaves. The notification is written to each descriptor as often as active sessions had
  -- it before the client came, and once more to the descriptor whose number is the client's pid: not
  -- to the client's own descriptor, unless the two are one number.
  pub detached-handle_client :
      (m : NoteUsbModule env q) (fd pid : ℤ) (this : ℕ) (dev : Device) (j : ℤ) (w : World env.Value)
      → lookup pid m.sessions ≡ none
      → lookup fd w.sessions ≡ none
      → let w' = (handle_client env q m fd pid this w).1 in
        broadcasts j (hotplug_callback_detached env dev left w').1.history
        ≡ (if int_eq pid j then 1 else 0) + listeners j w.sessions + broadcasts j w.history
  unfolding hotplug_callback_detached send_device_detached
  detached-handle_client m fd pid this dev j w new free =
      broadcast_to_all_counted env j _ (handle_client env q m fd pid this w).1
      ∙ rw (arrived_client m fd pid this w new free) (arrived_listeners fd pid this j w)
