-- ===== src/Module/Life.antt =====
-- The life of NoteUSBModule (src/module.cpp): construction, init, start, stop, shutdown, and the
-- sessions of its device sockets (in Clients).
pub mod Clients
pub mod Sessions
pub mod Down
pub mod Sound
pub mod Ending
pub mod Reachable
pub mod Twice
use note_usb.Shared.{
  ℕ, ◌+◌, ◌*◌, ◌/◌, ◌%◌, ◌^◌, ◌==◌, Bool, true, false, not, ◌||◌, Option, none, some, List, [], ◌∷◌,
  ◌++◌, Text, codes, ℤ, pos, negsuc, int_key, is_negative, if◌then◌else◌,
}
use note_usb.Shared.Map.{Map, has, insert}
use mathlib.Core.Option
use note_usb.Registry.Print.{to_string}
use note_usb.Protocol.{Code, Error, Message}
use note_usb.Platform.{
  Env, World, Act, ◌>>=◌, ◌>>◌, pure, note, ask, initialised_usb, exited_usb, spawned_session,
  spawned_monitor, registered_handler,
}
use note_usb.Session.{Ran, returned, threw, crashed, hung}
use note_usb.Session.Live.{then_run, Live, create_session, destroy_session}
use note_usb.Streaming.{ReportQueue}
use note_usb.Handler.{
  Handler, success, error_of, new_handler, start_discovery, stop_discovery, discover_devices,
  send_device_list,
}
use note_usb.Handler.Release.{release_all_devices, destroy_handler}
use note_usb.Module.{handle_management_message}

-- What is read of `config["settings"]`; a missing key is `none`.
pub record Settings : Type 0 where
  pub discovery_interval_ms : Option ℤ
  pub auto_detach_kernel : Option Bool
  pub usb_timeout_ms : Option ℤ

-- What is read of the JSON object `config`. Values of other types, on which the JSON library
-- throws, are left out.
pub record Config : Type 0 where
  pub settings : Option Settings
  pub monitor_enabled : Option Bool

module _ (env : Env) (q : ReportQueue) where
  abbrev V : Type 0
  V = env.Value

  -- `has_ownership_registry` and `has_usb_ctx`: the pointer is not null.
  pub record NoteUsbModule : Type 0 where
    pub monitor_enabled : Bool
    pub discovery_interval_ms : ℤ
    pub auto_detach_kernel : Bool
    pub usb_timeout_ms : ℤ
    pub running : Bool
    pub monitor_pid : ℤ
    pub has_ownership_registry : Bool
    pub handler : Option Handler
    pub has_usb_ctx : Bool
    pub sessions : Map ℤ (Live env q)

  -- The constructor.
  unfoldable pub new_module : NoteUsbModule
  new_module = record {
    monitor_enabled = false;
    discovery_interval_ms = pos 1000;
    auto_detach_kernel = true;
    usb_timeout_ms = pos 100;
    running = false;
    monitor_pid = negsuc 0;
    has_ownership_registry = false;
    handler = none;
    has_usb_ctx = false;
    sessions = [];
  }

  -- The settings of `init`.
  unfoldable pub configured : NoteUsbModule → Config → NoteUsbModule
  configured m c = elim c.settings [
    | none ↦ record m { monitor_enabled = Option.get_or c.monitor_enabled false }
    | some s ↦ record m {
      monitor_enabled = Option.get_or c.monitor_enabled false;
      discovery_interval_ms = Option.get_or s.discovery_interval_ms (pos 1000);
      auto_detach_kernel = Option.get_or s.auto_detach_kernel true;
      usb_timeout_ms = Option.get_or s.usb_timeout_ms (pos 100);
    }
  ]

  -- The handler that an assignment or `reset()` replaces is destroyed.
  unfoldable pub discard_handler : Option Handler → Act V (Unit {0})
  unfolding destroy_handler
  discard_handler none = pure tt
  discard_handler (some h) = do h' ← destroy_handler env h; pure tt

  -- `device_handler_ = std::make_unique<DeviceHandler>(…)`
  unfoldable pub make_handler : NoteUsbModule → Bool → Act V NoteUsbModule
  unfolding new_handler discard_handler
  make_handler m has_registry = do
    h ← new_handler env has_registry (codes "note_usb")
    discard_handler m.handler
    pure (record m { handler = some h })

  unfoldable pub init : NoteUsbModule → Config → Act V (Error × NoteUsbModule)
  unfolding configured make_handler
  init m c = do
    started ← ask env.init_ok initialised_usb
    if started
        then (do
          m' ← make_handler (record (configured m c) { has_usb_ctx = true }) false
          pure (success, m'))
        else pure (
          error_of Code.module_health_check_failed (codes "Failed to initialize libusb"),
          configured m c,
        )

  unfoldable pub set_ownership_registry : NoteUsbModule → Bool → Act V NoteUsbModule
  unfolding make_handler
  set_ownership_registry m registry = elim m.handler [
    | none ↦ pure (record m { has_ownership_registry = registry })
    | some h ↦ make_handler (record m { has_ownership_registry = registry }) registry
  ]

  -- What is called on the handler, if there is one.
  abbrev pub on_handler : (Handler → Act V Handler) → NoteUsbModule → Act V NoteUsbModule
  on_handler call m = elim m.handler [
    | none ↦ pure m
    | some h ↦ do h' ← call h; pure (record m { handler = some h' })
  ]

  -- The parent's side of `fork()`; the child runs the monitor's program or exits.
  unfoldable pub start_device_monitor : NoteUsbModule → Act V NoteUsbModule
  start_device_monitor m = do
    pid ← ask env.fork spawned_monitor
    pure (if is_negative pid then m else record m { monitor_pid = pid })

  unfoldable pub register_handlers : Act V (Unit {0})
  register_handlers = do
    note (registered_handler Message.request_discovery)
    note (registered_handler Message.claim_item)
    note (registered_handler Message.release_item)
    note (registered_handler Message.resume)

  -- What a handler that was registered so does. The others only write to the log.
  unfoldable pub run_registered : NoteUsbModule → Message → Act V NoteUsbModule
  unfolding send_device_list
  run_registered m Message.request_discovery = on_handler (λ h. send_device_list env h (negsuc 0)) m
  run_registered m other = pure m

  unfoldable pub start : NoteUsbModule → Act V (Error × NoteUsbModule)
  unfolding start_discovery start_device_monitor register_handlers
  start m =
      if m.running
      then pure (error_of Code.already_initialized (codes "Module already running"), m)
      else (do
        m' ← on_handler (start_discovery env) m
        m'' ← (if m'.monitor_enabled then start_device_monitor m' else pure m')
        register_handlers
        pure (success, record m'' { running = true }))

  -- `sessions_.clear()`. `f` is the fuel of a process loop that is joined.
  unfoldable pub clear_sessions : ℕ → Map ℤ (Live env q) → Act V (Ran (Unit {0}))
  unfolding destroy_session
  clear_sessions f [] w = (returned tt, w)
  clear_sessions f ((pid, l) ∷ rest) w =
      let gone = destroy_session env q f l w in
      then_run gone.0 (λ _ w'. clear_sessions f rest w') gone.1

  unfoldable pub cleanup : ℕ → NoteUsbModule → Act V (Ran NoteUsbModule)
  unfolding release_all_devices clear_sessions
  cleanup f m w =
      let released = on_handler (release_all_devices env) m w in
      let cleared = clear_sessions f released.0.sessions released.1 in
      then_run cleared.0 (λ _ w'. (returned (record released.0 { sessions = [] }), w')) cleared.1

  -- `_stop_internal`; the reason goes to the log.
  unfoldable pub stop : ℕ → NoteUsbModule → Act V (Ran (Error × NoteUsbModule))
  unfolding stop_discovery cleanup
  stop f m w =
      if m.running
      then (let stopped = on_handler (stop_discovery env) m w in
          let cleaned = cleanup f stopped.0 stopped.1 in
          then_run cleaned.0 (λ m' w'. (returned (success, record m' { running = false }), w'))
            cleaned.1)
      else (returned (error_of Code.not_initialized (codes "Module not running"), m), w)

  -- The end of `shutdown_with_reason`, behind `sessions_.clear()`.
  unfoldable pub release_usb : NoteUsbModule → Act V NoteUsbModule
  unfolding discard_handler
  release_usb m = do
    discard_handler m.handler
    (if m.has_usb_ctx then note exited_usb else pure tt)
    pure (record m { handler = none; has_usb_ctx = false })

  unfoldable pub shutdown : ℕ → NoteUsbModule → Act V (Ran NoteUsbModule)
  unfolding stop clear_sessions release_usb
  shutdown f m w =
      let stopped = stop f m w in
      then_run stopped.0
        (λ (e, m') w'.
          let cleared = clear_sessions f m'.sessions w' in
          then_run cleared.0
            (λ _ w''.
              let released = release_usb (record m' { sessions = [] }) w'' in
              (returned released.0, released.1))
            cleared.1)
        stopped.1

  abbrev is_empty_map : {A : Type 0} → Map ℤ A → Bool
  is_empty_map [] = true
  is_empty_map (e ∷ rest) = false

  abbrev is_set : {A : Type 0} → Option A → Bool
  is_set none = false
  is_set (some a) = true

  unfoldable pub destroy_module : ℕ → NoteUsbModule → Act V (Ran NoteUsbModule)
  unfolding shutdown
  destroy_module f m w =
      if m.running || is_set m.handler || m.has_usb_ctx || not (is_empty_map m.sessions)
      then shutdown f m w
      else (returned m, w)
