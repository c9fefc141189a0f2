-- ===== src/Module/Hotplug/Registration.antt =====
-- NoteUSBModule::register_hotplug_callbacks (src/module.cpp), which the repository never calls.
use note_usb.Shared.{
  suc, ℕ, ◌+◌, ◌*◌, ◌≤◌, Bool, false, Option, none, some, List, [], ◌∷◌, arith, Text, ℤ, length,
  if◌then◌else◌, inl, inr, Bool-cases,
}
use note_usb.Protocol.{Response}
use note_usb.Platform.{Env, World, History, Device, Act, ◌>>=◌, ◌>>◌, pure, query}
use note_usb.Usb.{Descriptor, get_device_id}
use note_usb.Manager.{Sessions, broadcast_to, broadcast_loop, broadcast_to_all, write_bytes}
use note_usb.Module.Hotplug.{
  HotplugEvent, arrived, left, hotplug_callback_attached, announce, send_device_attached,
  attached_notice,
}
use note_usb.Module.Hotplug.Delivery.{broadcasts, listeners, broadcast_to_all_counted}

-- libusb's hotplug service: whether the platform has it, whether it takes the callback of an event, and
-- the devices for which LIBUSB_HOTPLUG_ENUMERATE calls a callback at once.
pub record HotplugService (V : Type 0) : Type 0 where
  pub has_hotplug : Bool
  pub takes : History V → HotplugEvent → Bool
  pub present : History V → List Device

module _ (env : Env) (service : HotplugService env.Value) where
  abbrev V : Type 0
  V = env.Value

  unfoldable pub enumerate : List Device → Act V (Unit {0})
  unfolding hotplug_callback_attached
  enumerate [] = pure tt
  enumerate (dev ∷ devs) = do hotplug_callback_attached env dev arrived; enumerate devs

  -- Whether the arrivals and whether the departures are then reported. The second registration is made
  -- also if the first has failed.
  unfoldable pub register_hotplug_callbacks : Act V (Bool × Bool)
  unfolding enumerate
  register_hotplug_callbacks =
      if service.has_hotplug
      then (do
        attached ← query (λ h. service.takes h arrived)
        devs ← query service.present
        enumerate (if attached then devs else [])
        detached ← query (λ h. service.takes h left)
        pure (attached, detached))
      else pure (false, false)

  module _ (fd : ℤ) where
    broadcast_loop-listeners :
        (m : Sessions) (msg : Response V) (w : World V)
        → listeners fd (broadcast_loop env m msg w).0 ≤ listeners fd m
    unfolding broadcast_loop listeners broadcast_to write_bytes
    broadcast_loop-listeners [] msg w = omega arith
    broadcast_loop-listeners ((pid, e) ∷ m) msg w =
        ground (arith, broadcast_loop-listeners m msg (broadcast_to env e msg w).1)

    -- At most one notice for each listener, and no new listener.
    abbrev Within : ℕ → World V → World V → Type 0
    Within n w w' =
        (broadcasts fd w'.history ≤ n * listeners fd w.sessions + broadcasts fd w.history)
        × (listeners fd w'.sessions ≤ listeners fd w.sessions)

    broadcast_to_all-Within :
        (msg : Response V) (w : World V) → Within 1 w (broadcast_to_all env msg w).1
    broadcast_to_all-Within msg w = (omega (arith, broadcast_to_all_counted env fd msg w), fewer)
      where
        fewer : listeners fd (broadcast_to_all env msg w).1.sessions ≤ listeners fd w.sessions
        fewer = unfold broadcast_to_all in broadcast_loop-listeners w.sessions msg w

    announce-Within :
        (id : Text) (d : Option Descriptor) (w : World V) → Within 1 w (announce env id d w).1
    unfolding announce send_device_attached
    announce-Within id none w = (omega arith, omega arith)
    announce-Within id (some d) w = broadcast_to_all-Within (attached_notice env id d) w

    attached-Within :
        (dev : Device) (w : World V) → Within 1 w (hotplug_callback_attached env dev arrived w).1
    unfolding hotplug_callback_attached
    attached-Within dev w = announce-Within (get_device_id env dev) _ w

    one_more :
        (n l l' b b' b'' : ℕ) → b' ≤ 1 * l + b → l' ≤ l → b'' ≤ n * l' + b' → b'' ≤ suc n * l + b
    one_more n l l' b b' b'' p q r = grind (arith, p, q, r)

    enumerate-Within :
        (devs : List Device) (w : World V) → Within (length devs) w (enumerate devs w).1
    unfolding enumerate
    enumerate-Within [] w = (omega arith, omega arith)
    enumerate-Within (dev ∷ devs) w =
        let w1 = (hotplug_callback_attached env dev arrived w).1 in
        let one = attached-Within dev w in
        let rest = enumerate-Within devs w1 in
        (
          one_more (length devs) (listeners fd w.sessions) (listeners fd w1.sessions) _ _ _ one.0
              one.1 rest.0,
          omega (arith, one.1, rest.1),
        )

    -- The registration announces to each socket at most one notice for each device that is present and
    -- each active session that has the socket, and adds no listener; where the platform has no hotplug,
    -- or takes no callback for arrivals, it announces nothing.
    pub register_hotplug_callbacks-Within :
        (w : World V)
        → Within
            (if service.has_hotplug
              then (if service.takes w.history arrived
                  then length (service.present w.history)
                  else 0)
              else 0)
            w
            (register_hotplug_callbacks w).1
    unfolding register_hotplug_callbacks
    register_hotplug_callbacks-Within w = elim (Bool-cases service.has_hotplug) [
      | inr e ↦ rw (e, register_hotplug_callbacks) (omega arith, omega arith)
      | inl e ↦
          rw (e, register_hotplug_callbacks)
            (elim (Bool-cases (service.takes w.history arrived)) [
              | inl t ↦ rw t (enumerate-Within (service.present w.history) w)
              | inr t ↦ rw t (enumerate-Within [] w)
            ])
    ]
