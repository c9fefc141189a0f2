-- ===== src/Module/Reachable/Runs.antt =====
-- The states that the device handler of a module reaches, whatever clients send. DeviceHandler has
-- no mutex: that the daemon makes its calls one after the other is the reading of the model.
use note_usb.Shared.{◌≡◌, refl, Bool, true, some, arith, Text, ℤ}
use mathlib.Core.Path.{subst}
use note_usb.Shared.Map.Count.{total}
use note_usb.Protocol.{Error}
use note_usb.Platform.{Env, World, Handle, both_branches}
use note_usb.Handler.{Handler, new_handler, discover_devices, start_discovery, stop_discovery}
use note_usb.Handler.Release.{release_all_devices}
use note_usb.Handler.Handles.{opens, closes, held, Net}
use note_usb.Handler.Handles.Released.{release_all_devices-Balanced}
use note_usb.Handler.Invariant.{Inv}
use note_usb.Handler.Invariant.Methods.{
  new_handler-Inv, discover_devices-Inv, stop_discovery-Inv, release_all_devices-Inv,
}
use note_usb.Module.{handle_management_message}
use note_usb.Module.Reachable.{Kept, handle_management_message-Kept, discover_devices-Balanced}

-- The handler and the world, from the world `w0` in which the handler was made.
pub data Reaches (env : Env) (w0 : World env.Value) : Handler → World env.Value → Type 0 where
  created :
      (registry : Bool) (name : Text)
      → Reaches env w0 (new_handler env registry name w0).0 (new_handler env registry name w0).1
  requested :
      (h h' : Handler) (w w' : World env.Value) (e : Error) (msg : env.Object) (fd pid : ℤ)
      → Reaches env w0 h w
      → handle_management_message env (some h) msg fd pid w ≡ ((e, some h'), w')
      → Reaches env w0 h' w'
  started :
      (h : Handler) (w : World env.Value)
      → Reaches env w0 h w
      → Reaches env w0 (start_discovery env h w).0 (start_discovery env h w).1
  stopped :
      (h : Handler) (w : World env.Value)
      → Reaches env w0 h w
      → Reaches env w0 (stop_discovery env h w).0 (stop_discovery env h w).1
  released_all :
      (h : Handler) (w : World env.Value)
      → Reaches env w0 h w
      → Reaches env w0 (release_all_devices env h w).0 (release_all_devices env h w).1

pub running-Inv : (h : Handler) → Inv h → Inv (record h { running = true })
running-Inv h v = record {
  available_unique = v.available_unique;
  claimed_unique = v.claimed_unique;
  agrees = v.agrees;
}

module _ (env : Env) (w0 : World env.Value) (x : Handle) where
  abbrev pub InOrder : Handler → World env.Value → Type 0
  InOrder h w = Inv h × Net x w0 w (held x h) 0

  InOrder-Kept :
      (h h' : Handler) (w w' : World env.Value) (e : Error)
      → InOrder h w
      → Kept env x h w ((e, some h'), w')
      → InOrder h' w'
  InOrder-Kept h h' w w' e o k = (k.0, omega (arith, o.1, k.1))

  running-Net :
      (h : Handler) (w : World env.Value)
      → Net x w0 w (held x h) 0
      → let r = discover_devices env (record h { running = true }) w in Net x w0 r.1 (held x r.0) 0
  unfolding held
  running-Net h w n =
      omega (arith, n, discover_devices-Balanced env x (record h { running = true }) w)

  started-InOrder :
      (h : Handler) (w : World env.Value)
      → InOrder h w
      → let r = start_discovery env h w in InOrder r.0 r.1
  unfolding start_discovery
  started-InOrder h w o =
      both_branches (λ r. InOrder r.0 r.1) h.running _ _ w o
        (
          discover_devices-Inv env (record h { running = true }) w (running-Inv h o.0),
          running-Net h w o.1,
        )

  created-InOrder :
      (registry : Bool) (name : Text) → let r = new_handler env registry name w0 in InOrder r.0 r.1
  unfolding new_handler held opens closes total
  created-InOrder registry name = (new_handler-Inv env registry name w0, refl)

  stopped-InOrder :
      (h : Handler) (w : World env.Value)
      → InOrder h w
      → let r = stop_discovery env h w in InOrder r.0 r.1
  unfolding stop_discovery held
  stopped-InOrder h w o = (stop_discovery-Inv env h w o.0, o.1)

  -- In every state that the handler reaches from its construction by management messages of any
  -- clients, starts and stops of discovery and bulk releases, `Inv` holds, and every handle `x`
  -- was since then opened more often than closed by exactly what `claimed_devices_` holds.
  pub Reaches-InOrder : (h : Handler) (w : World env.Value) → Reaches env w0 h w → InOrder h w
  Reaches-InOrder _ _ (created registry name) = created-InOrder registry name
  Reaches-InOrder _ _ (requested h h' w w' e msg fd pid r q) =
      let o = Reaches-InOrder h w r in
      InOrder-Kept h h' w w' e o
        (subst (Kept env x h w) q (handle_management_message-Kept env x h msg fd pid w o.0))
  Reaches-InOrder _ _ (started h w r) = started-InOrder h w (Reaches-InOrder h w r)
  Reaches-InOrder _ _ (stopped h w r) = stopped-InOrder h w (Reaches-InOrder h w r)
  Reaches-InOrder _ _ (released_all h w r) =
      let o = Reaches-InOrder h w r in
      (
        release_all_devices-Inv env h w,
        omega (arith, o.1, (release_all_devices-Balanced env x h w).0),
      )
