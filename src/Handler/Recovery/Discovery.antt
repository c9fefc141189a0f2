-- ===== src/Handler/Recovery/Discovery.antt =====
-- Discovery (src/device_handler.cpp) touches neither the crash-recovery file nor what it says.
use note_usb.Shared.{
  ◌≡◌, refl, ◌∙◌, true, false, some, List, [], ◌∷◌, Text, ℤ, arith, text_eq, text_eq_iff, text_key,
  if◌then◌else◌, Bool-cases, Option-cases, inl, inr, pos, InInt32, is_negative,
}
use mathlib.Core.Path.{subst}
use note_usb.Shared.Map.{Map, lookup, insert}
use note_usb.Shared.Map.Laws.{lookup-insert}
use note_usb.Protocol.{Response}
use note_usb.Platform.{Env, World, History, Device, UsbIds, Answer, ok, fail, both_branches}
use note_usb.Manager.{Sessions, broadcast_loop, broadcast_to, broadcast_to_all, write_bytes}
use note_usb.Usb.{Descriptor, is_hid_device, get_device_id, unclaimed}
use note_usb.Usb.Ids.{id_text-IsPlain}
use note_usb.Handler.{
  Handler, write_to_fd, scan_devices, add_listed, discover_devices, send_device_list, list_response,
  start_discovery, stop_discovery,
}
use note_usb.Handler.Recovery.{Known, Recorded, untouched}

module _ (env : Env) (fits : InInt32 env.self_pid) where
  -- Each device that a discovery adds has an id that the file can hold.
  added-Known :
      (dev : Device) (ids : UsbIds) (m : Map Text Descriptor) (j : Text)
      → Known env j (lookup j m)
      → let id = get_device_id env dev in
        Known env j (lookup j (insert id (unclaimed env id ids) m))
  added-Known dev ids m j k = elim (Bool-cases (text_eq (get_device_id env dev) j)) [
    | inr e ↦ rw (lookup-insert, e) k
    | inl e ↦
        rw (lookup-insert, e)
          (subst (λ i. Known env i (some (unclaimed env (get_device_id env dev) ids)))
            ((text_eq_iff (get_device_id env dev) j).0 e)
            (unfold get_device_id in
              λ driver.
                id_text-IsPlain (env.bus_number dev) (env.address dev) env.self_pid (pos 0) driver
                  fits (omega arith)))
  ]

  scan_devices-Known :
      (hist : History env.Value) (devs : List Device) (m : Map Text Descriptor)
      → ((id : Text) → Known env id (lookup id m))
      → (id : Text) → Known env id (lookup id (scan_devices env hist devs m))
  unfolding scan_devices
  scan_devices-Known hist [] m k id = k id
  scan_devices-Known hist (dev ∷ devs) m k id = elim (Bool-cases (is_hid_device env hist dev)) [
    | inr e ↦ rw e (scan_devices-Known hist devs m k id)
    | inl e ↦ elim (Option-cases (env.ids hist dev)) [
      | inl f ↦ rw (e, f) (scan_devices-Known hist devs m k id)
      | inr (ids, f) ↦ elim (Option-cases (lookup (get_device_id env dev) m)) [
        | inr (d, g) ↦ rw (e, f, g) (scan_devices-Known hist devs m k id)
        | inl g ↦
            rw (e, f, g) (scan_devices-Known hist devs _ (λ j. added-Known dev ids m j (k j)) id)
      ]
    ]
  ]

  add_listed-Recorded :
      (h : Handler) (hist : History env.Value) (answer : Answer (List Device))
      (w w' : World env.Value)
      → w'.file ≡ w.file
      → Recorded env h w
      → Recorded env (add_listed env h hist answer) w'
  unfolding add_listed
  add_listed-Recorded h hist (fail rc) w w' f v = untouched env h h w w' f refl v.known v
  add_listed-Recorded h hist (ok devs) w w' f v =
      untouched env h _ w w' f refl (scan_devices-Known hist devs h.available v.known) v

  discover_devices-Recorded :
      (h : Handler) (w : World env.Value)
      → Recorded env h w
      → let r = discover_devices env h w in Recorded env r.0 r.1
  unfolding discover_devices
  discover_devices-Recorded h w v =
      both_branches (λ (r : Handler × World env.Value). Recorded env r.0 r.1) h.ctx _ _ w
        (add_listed-Recorded h _ (env.device_list w.history) w _ refl v) v

  broadcast_loop_file :
      (m : Sessions) (msg : Response env.Value) (w : World env.Value)
      → (broadcast_loop env m msg w).1.file ≡ w.file
  unfolding broadcast_loop broadcast_to write_bytes
  broadcast_loop_file [] msg w = refl
  broadcast_loop_file ((pid, e) ∷ m) msg w =
      broadcast_loop_file m msg (broadcast_to env e msg w).1
      ∙ both_branches (λ r. r.1.file ≡ w.file) e.is_active _ _ w refl refl

  send_list_file :
      (fd : ℤ) (msg : Response env.Value) (w : World env.Value)
      → ((if is_negative fd then broadcast_to_all env msg else write_to_fd env fd msg) w).1.file
        ≡ w.file
  unfolding broadcast_to_all write_to_fd
  send_list_file fd msg w = elim (Bool-cases (is_negative fd)) [
    | inl n ↦ rw n (broadcast_loop_file w.sessions msg w)
    | inr n ↦ rw n refl
  ]

  pub send_device_list-Recorded :
      (h : Handler) (fd : ℤ) (w : World env.Value)
      → Recorded env h w
      → let r = send_device_list env h fd w in Recorded env r.0 r.1
  unfolding send_device_list
  send_device_list-Recorded h fd w v =
      let d = discover_devices env h w in
      let k = discover_devices-Recorded h w v in
      untouched env d.0 d.0 d.1 _ (send_list_file fd (list_response env d.0) d.1) refl k.known k

  pub start_discovery-Recorded :
      (h : Handler) (w : World env.Value)
      → Recorded env h w
      → let r = start_discovery env h w in Recorded env r.0 r.1
  unfolding start_discovery
  start_discovery-Recorded h w v =
      both_branches (λ (r : Handler × World env.Value). Recorded env r.0 r.1) h.running _ _ w v
        (discover_devices-Recorded (record h { running = true }) w
          (untouched env h (record h { running = true }) w w refl refl v.known v))

  pub stop_discovery-Recorded :
      (h : Handler) (w : World env.Value)
      → Recorded env h w
      → let r = stop_discovery env h w in Recorded env r.0 r.1
  unfolding stop_discovery
  stop_discovery-Recorded h w v =
      untouched env h (record h { running = false }) w w refl refl v.known v
