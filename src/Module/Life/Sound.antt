-- ===== src/Module/Life/Sound.antt =====
-- What each call on a NoteUSBModule (src/module.cpp) keeps of its state.
use note_usb.Shared.{
  ◌≡◌, refl, sym, Bool, true, false, Option, none, some, ◌∷◌, ℤ, int_key, if◌then◌else◌,
  Option-cases, inl, inr, codes, is_negative, negsuc,
}
use mathlib.Core.Path.{subst}
use note_usb.Shared.Map.Laws.{Unique}
use note_usb.Protocol.{Error, Code, Message}
use note_usb.Platform.{Env, World, Act, pure, both_branches, initialised_usb}
use note_usb.Handler.{Handler, start_discovery, send_device_list, error_of}
use note_usb.Handler.Invariant.{Inv}
use note_usb.Handler.Invariant.Methods.{new_handler-Inv, send_device_list-Inv, discover_devices-Inv}
use note_usb.Module.{
  handle_management_message, run_command, command_of, request_discovery, claim_item, release_item,
}
use note_usb.Module.Reachable.{Kept, handle_management_message-Kept}
use note_usb.Module.Reachable.Runs.{running-Inv}
use note_usb.Streaming.{ReportQueue}
use note_usb.Module.Life.{
  Config, NoteUsbModule, new_module, configured, make_handler, init, set_ownership_registry,
  on_handler, start_device_monitor, run_registered, start,
}
use note_usb.Module.Life.Clients.{manage}
use note_usb.Module.Life.Sessions.{AllIdle, if_holds}
use note_usb.Module.Life.Down.{on_handler-holds}

abbrev pub HandlerInv : Option Handler → Type 0
HandlerInv none = Unit
HandlerInv (some h) = Inv h

start_discovery-Inv :
    (env : Env) (h : Handler) (w : World env.Value) → Inv h → Inv (start_discovery env h w).0
unfolding start_discovery
start_discovery-Inv env h w v =
    both_branches (λ r. Inv r.0) h.running _ _ w v
      (discover_devices-Inv env (record h { running = true }) w (running-Inv h v))

module _ (env : Env) (q : ReportQueue) where
  -- No session has a streaming thread, no two have one pid, and the handler's tables agree.
  pub record Sound (m : NoteUsbModule env q) : Type 0 where
    pub idle : AllIdle env q m.sessions
    pub unique : Unique m.sessions
    pub in_order : HandlerInv m.handler

  pub new_module-Sound : Sound (new_module env q)
  new_module-Sound = unfold new_module in record { idle = tt; unique = tt; in_order = tt }

  -- The handler of a module is another one, and flags of it may be.
  pub rehandled :
      (m m' : NoteUsbModule env q)
      → m'.sessions ≡ m.sessions
      → HandlerInv m'.handler
      → Sound m
      → Sound m'
  rehandled m m' e h v = record { idle = rw e v.idle; unique = rw e v.unique; in_order = h }

  make_handler-Sound :
      (m : NoteUsbModule env q) (registry : Bool) (w : World env.Value)
      → Sound m
      → Sound (make_handler env q m registry w).0
  unfolding make_handler
  make_handler-Sound m registry w v =
      rehandled m _ refl (new_handler-Inv env registry (codes "note_usb") w) v

  configured_sessions :
      (m : NoteUsbModule env q) (c : Config) (b : Bool)
      → Sound m
      → Sound (record (configured env q m c) { has_usb_ctx = b })
  unfolding configured
  configured_sessions m c b v = elim (Option-cases c.settings) [
    | inl e ↦ rw e (rehandled m _ refl v.in_order v)
    | inr (s, e) ↦ rw e (rehandled m _ refl v.in_order v)
  ]

  pub init-Sound :
      (m : NoteUsbModule env q) (c : Config) (w : World env.Value)
      → Sound m
      → Sound (init env q m c w).0.1
  unfolding init
  init-Sound m c w v =
      both_branches (λ (r : (Error × NoteUsbModule env q) × World env.Value). Sound r.0.1)
        (env.init_ok w.history) _ _
        (record w { history = initialised_usb (env.init_ok w.history) ∷ w.history })
        (make_handler-Sound (record (configured env q m c) { has_usb_ctx = true }) false
          (record w { history = initialised_usb (env.init_ok w.history) ∷ w.history })
          (configured_sessions m c true v))
        (configured_sessions m c (configured env q m c).has_usb_ctx v)

  pub set_ownership_registry-Sound :
      (m : NoteUsbModule env q) (registry : Bool) (w : World env.Value)
      → Sound m
      → Sound (set_ownership_registry env q m registry w).0
  unfolding set_ownership_registry
  set_ownership_registry-Sound m registry w v = cases m.handler
    where
      given : Sound (record m { has_ownership_registry = registry })
      given = rehandled m _ refl v.in_order v

      cases :
          (o : Option Handler)
          → Sound
              ((elim o as (λ _. Act env.Value (NoteUsbModule env q)) [
                | none ↦ pure (record m { has_ownership_registry = registry })
                | some h ↦
                    make_handler env q (record m { has_ownership_registry = registry }) registry
              ])
                w).0
      cases none = given
      cases (some h) =
          make_handler-Sound (record m { has_ownership_registry = registry }) registry w given

  pub on_handler-Sound :
      (call : Handler → Act env.Value Handler) (m : NoteUsbModule env q) (w : World env.Value)
      → ((h : Handler) → Inv h → Inv (call h w).0)
      → Sound m
      → Sound (on_handler env q call m w).0
  on_handler-Sound call m w k v =
      on_handler-holds env q 0 (λ r. Sound r.0) call m w (λ e. v)
        (λ h e. rehandled m _ refl (k h (subst HandlerInv e v.in_order)) v)

  -- What `start` does behind its test.
  start-Sound_started :
      (m : NoteUsbModule env q)
      → Sound m
      → (m' : NoteUsbModule env q) → m'.sessions ≡ m.sessions
      → m'.handler ≡ m.handler
      → Sound (record m' { running = true })
  start-Sound_started m v m' e h = rehandled m _ e (subst HandlerInv (sym h) v.in_order) v

  start_device_monitor_keeps :
      (m : NoteUsbModule env q) (w : World env.Value)
      → let m' = (start_device_monitor env q m w).0 in
        (m'.sessions ≡ m.sessions) × (m'.handler ≡ m.handler)
  unfolding start_device_monitor
  start_device_monitor_keeps m w =
      if_holds (λ (m' : NoteUsbModule env q). (m'.sessions ≡ m.sessions) × (m'.handler ≡ m.handler))
        (is_negative (env.fork w.history)) (λ e. (refl, refl)) (λ e. (refl, refl))

  pub start-Sound :
      (m : NoteUsbModule env q) (w : World env.Value) → Sound m → Sound (start env q m w).0.1
  unfolding start
  start-Sound m w v =
      let r = on_handler env q (start_discovery env) m w in
      let k = on_handler-Sound (start_discovery env) m w (λ h. start_discovery-Inv env h w) v in
      let n = (if r.0.monitor_enabled then start_device_monitor env q r.0 else pure r.0) r.1 in
      let p =
        both_branches
          (λ (t : NoteUsbModule env q × World env.Value).
            (t.0.sessions ≡ r.0.sessions) × (t.0.handler ≡ r.0.handler))
          r.0.monitor_enabled (start_device_monitor env q r.0) (pure r.0) r.1
          (start_device_monitor_keeps r.0 r.1) (refl, refl) in
      both_branches (λ (t : (Error × NoteUsbModule env q) × World env.Value). Sound t.0.1) m.running
        _ _ w v (start-Sound_started r.0 k n.0 p.0 p.1)

  pub run_registered-Sound :
      (m : NoteUsbModule env q) (type : Message) (w : World env.Value)
      → Sound m
      → Sound (run_registered env q m type w).0
  unfolding run_registered
  run_registered-Sound m Message.request_discovery w v =
      on_handler-Sound (λ h. send_device_list env h (negsuc 0)) m w
        (λ h. send_device_list-Inv env h (negsuc 0) w) v
  run_registered-Sound m _ w v = v

  managed-HandlerInv :
      (o : Option Handler) (msg : env.Object) (fd pid : ℤ) (w : World env.Value)
      → HandlerInv o
      → HandlerInv (handle_management_message env o msg fd pid w).0.1
  unfolding handle_management_message run_command request_discovery claim_item release_item
  managed-HandlerInv (some h) msg fd pid w v =
      kept (handle_management_message env (some h) msg fd pid w)
        (handle_management_message-Kept env 0 h msg fd pid w v)
    where
      kept : (r : (Error × Option Handler) × World env.Value) → Kept env 0 h w r → HandlerInv r.0.1
      kept ((e, none), w') k = tt
      kept ((e, some h'), w') k = k.0
  managed-HandlerInv none msg fd pid w v = run (command_of env msg)
    where
      run :
          (found : Option env.Value)
          → HandlerInv
              ((elim found as (λ f. Act env.Value (Error × Option Handler)) [
                | none ↦
                    pure (error_of Code.invalid_message (codes "Missing CMD or EVENT field"), none)
                | some cmd ↦ run_command env none cmd msg fd pid
              ])
                w).0.1
      run none = tt
      run (some cmd) =
          both_branches (λ (r : (Error × Option Handler) × World env.Value). HandlerInv r.0.1)
            (env.equals cmd Message.request_discovery) _ _ w tt
            (both_branches (λ (r : (Error × Option Handler) × World env.Value). HandlerInv r.0.1)
              (env.equals cmd Message.claim_item) _ _ w tt
              (both_branches (λ (r : (Error × Option Handler) × World env.Value). HandlerInv r.0.1)
                (env.equals cmd Message.release_item) _ _ w tt tt))

  pub manage-Sound :
      (m : NoteUsbModule env q) (msg : env.Object) (fd pid : ℤ) (w : World env.Value)
      → Sound m
      → Sound (manage env q m msg fd pid w).0.1
  unfolding manage
  manage-Sound m msg fd pid w v =
      rehandled m _ refl (managed-HandlerInv m.handler msg fd pid w v.in_order) v
