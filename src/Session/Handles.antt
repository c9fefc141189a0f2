-- ===== src/Session/Handles.antt =====
-- The handles that a session opens and closes, against the one that `device_` holds.
use note_usb.Shared.{
  ℕ, ◌≡◌, ◌≢◌, refl, ◌∙◌, ◌⊎◌, inl, inr, Bool, true, false, Option, none, some, List, [], ◌∷◌,
  arith, Text, ℤ, pos, ◌==◌, if◌then◌else◌,
}
use note_usb.Protocol.{Code, Error}
use note_usb.Platform.{Env, World, History, Device, Handle, Answer, ok, fail, opened, Act}
use note_usb.Usb.{Descriptor, is_hid_device}
use note_usb.Handler.Handles.{opens, closes, holds_handle, Net}
use note_usb.Handler.Claim.{detach_driver}
use note_usb.Session.{
  Session, Ran, returned, threw, crashed, hung, probe, scan_next, scan, discovered, scan_listed,
  discover_devices, adopt, claim_taken, claim_opened, claim_found, claim_device, release_device,
}

abbrev pub device_holds : Handle → Option Descriptor → ℕ
device_holds x none = 0
device_holds x (some d) = holds_handle x d.handle

-- Whether the session holds `x`.
abbrev pub session_holds : Handle → Session → ℕ
session_holds x s = device_holds x s.device

-- The handle that was opened last.
unfoldable pub last_opened : {V : Type 0} → History V → Option Handle
last_opened [] = none
last_opened (opened dev (ok y) ∷ h) = some y
last_opened (e ∷ h) = last_opened h

-- The session holds the handle that was opened last.
abbrev pub HoldsLast : {V : Type 0} → Session → History V → Type 0
HoldsLast s h = (y : Handle) × ((last_opened h ≡ some y) × (session_holds y s ≡ 1))

-- What a claim does to the handle `x`. Refused, it leaves the session and the open handles as they
-- were. Granted, it opens the handle that the session now holds, and closes none: not the one that
-- the session held before either. A crash leaves open the handle that was opened, and no other.
abbrev pub ClaimLedger :
    {V : Type 0} → Handle → Session → World V → Ran (Error × Session) × World V → Type 0
ClaimLedger x s w (returned (e, s'), w') =
    ((e.code ≢ Code.daemon_success) × ((s' ≡ s) × Net x w w' 0 0))
    ⊎ ((e.code ≡ Code.daemon_success)
        × (HoldsLast s' w'.history × Net x w w' (session_holds x s') 0))
ClaimLedger x s w (crashed, w') =
    (y : Handle) × ((last_opened w'.history ≡ some y) × Net x w w' (if x == y then 1 else 0) 0)
ClaimLedger x s w (threw, w') = ⊥
ClaimLedger x s w (hung, w') = ⊥

abbrev gained_answer : Handle → Answer Handle → ℕ
gained_answer x (fail rc) = 0
gained_answer x (ok y) = if x == y then 1 else 0

module _ (env : Env) (x : Handle) where
  adopt_ledger :
      (s : Session) (y : Handle) (detached : Bool) (d : Option Descriptor) (w w' : World env.Value)
      → last_opened w'.history ≡ some y
      → Net x w w' (if x == y then 1 else 0) 0
      → ClaimLedger x s w (adopt env s y detached d, w')
  unfolding adopt
  adopt_ledger s y detached none w w' l h = (y, (l, h))
  adopt_ledger s y detached (some d) w w' l h = inr (refl, ((y, (l, ground arith)), h))

  detach_driver_ledger :
      (y : Handle) (i : ℤ) (w0 w : World env.Value) (n : ℕ)
      → Net x w0 w n 0
      → let w' = (detach_driver env y i w).1 in
        Net x w0 w' n 0 × (last_opened w'.history ≡ last_opened w.history)
  unfolding detach_driver opens closes last_opened
  detach_driver_ledger y i w0 w n h = ground arith

  opened-Net :
      (dev : Device) (r : Answer Handle) (w0 w : World env.Value)
      → Net x w0 w 0 0
      → Net x w0 (record w { history = opened dev r ∷ w.history }) (gained_answer x r) 0
  unfolding opens closes
  opened-Net dev (fail rc) w0 w h = h
  opened-Net dev (ok y) w0 w h = omega arith

  claim_taken_ledger :
      (s : Session) (id : Text) (dev : Device) (y : Handle) (r : Answer (Unit {0}))
      (w0 w : World env.Value)
      → last_opened w.history ≡ some y
      → Net x w0 w (if x == y then 1 else 0) 0
      → ClaimLedger x s w0 (claim_taken env s id dev y r w)
  unfolding claim_taken
  claim_taken_ledger s id dev y (fail rc) w0 w l h =
      inl (λ p. absurd (ground (arith, p)), (refl, unfold opens closes in ground arith))
  claim_taken_ledger s id dev y (ok u) w0 w l h =
      let d = detach_driver_ledger y (pos 0) w0 w _ h in adopt_ledger s y _ _ w0 _ (d.1 ∙ l) d.0

  claim_opened_ledger :
      (s : Session) (id : Text) (dev : Device) (r : Answer Handle) (w0 w : World env.Value)
      → let w' = record w { history = opened dev r ∷ w.history } in
        Net x w0 w' (gained_answer x r) 0
        → ClaimLedger x s w0
            (claim_opened env s id dev r (record w { history = opened dev r ∷ w.history }))
  unfolding claim_opened
  claim_opened_ledger s id dev (fail rc) w0 w h = inl (λ p. absurd (ground (arith, p)), (refl, h))
  claim_opened_ledger s id dev (ok y) w0 w h =
      claim_taken_ledger s id dev y (env.claim_interface (opened dev (ok y) ∷ w.history) y (pos 0))
        w0 _ (unfold last_opened in refl) (unfold opens closes in h)

  claim_found_ledger :
      (s : Session) (id : Text) (found : Option Device) (w0 w : World env.Value)
      → Net x w0 w 0 0
      → ClaimLedger x s w0 (claim_found env s id found w)
  unfolding claim_found
  claim_found_ledger s id none w0 w h = inl (λ p. absurd (ground (arith, p)), (refl, h))
  claim_found_ledger s id (some dev) w0 w h =
      claim_opened_ledger s id dev _ w0 w (opened-Net dev (env.open_device w.history dev) w0 w h)

  -- For every handle `x`: a claim that answers another code than success leaves the session as it
  -- was and closes `x` as often as it opens it; one that answers success leaves the session with the
  -- handle that was opened last, and opens `x` more often than it closes it by exactly what the
  -- session then holds, whatever it held before; a crash leaves open the handle that was opened
  -- last, and no other; and a claim neither throws nor hangs.
  pub claim_device-ClaimLedger :
      (s : Session) (id : Text) (w : World env.Value) → ClaimLedger x s w (claim_device env s id w)
  unfolding claim_device
  claim_device-ClaimLedger s id w = claim_found_ledger s id _ w _ (unfold opens closes in refl)

  -- For every handle `x`: a release closes `x` exactly as often as the session held it before and
  -- does not hold it after.
  pub release_device-Net :
      (s : Session) (w : World env.Value)
      → let r = release_device env s w in Net x w r.1 (session_holds x r.0.1) (session_holds x s)
  unfolding release_device opens closes
  release_device-Net s w = ground arith

  -- The device is the one that it was, or one without the handle `x`.
  abbrev KeptOrLost : Option Descriptor → Option Descriptor → Type 0
  KeptOrLost old new = (new ≡ old) ⊎ (device_holds x new ≡ 0)

  probe-Net : (dev : Device) (w : World env.Value) → Net x w (probe env dev w).1 0 0
  unfolding probe opens closes
  probe-Net dev w = ground arith

  -- A descriptor that was built holds no handle.
  abbrev HoldsNone : Option (Option Descriptor) → Type 0
  HoldsNone none = Unit
  HoldsNone (some d) = device_holds x d ≡ 0

  probe-HoldsNone : (dev : Device) (w : World env.Value) → HoldsNone (probe env dev w).0
  unfolding probe
  probe-HoldsNone dev w = ground arith

  abbrev ScanLedger :
      Option Descriptor → World env.Value → Option Descriptor × World env.Value → Type 0
  ScanLedger old w0 (d, w) = Net x w0 w 0 0 × KeptOrLost old d

  scan_next_ledger :
      (old : Option Descriptor) (w0 : World env.Value)
      (rest : Option Descriptor → Act env.Value (Option Descriptor)) (d : Option Descriptor)
      (tried : Option (Option Descriptor)) (w : World env.Value)
      → ((d : Option Descriptor) (w : World env.Value)
          → ScanLedger old w0 (d, w)
          → ScanLedger old w0 (rest d w))
      → HoldsNone tried
      → ScanLedger old w0 (d, w)
      → ScanLedger old w0 (scan_next env rest d tried w)
  unfolding scan_next
  scan_next_ledger old w0 rest d none w h t q = h d w q
  scan_next_ledger old w0 rest d (some none) w h t q = h none w (q.0, inr refl)
  scan_next_ledger old w0 rest d (some (some e)) w h t q = (q.0, inr t)

  tried_ledger :
      (old : Option Descriptor) (b : Bool) (dev : Device) (d : Option Descriptor)
      (w0 w : World env.Value)
      → ScanLedger old w0 (d, w)
      → let r = (if b then probe env dev else (λ v. (none, v))) w in
        HoldsNone r.0 × ScanLedger old w0 (d, r.1)
  tried_ledger old true dev d w0 w q =
      (probe-HoldsNone dev w, (omega (arith, probe-Net dev w, q.0), q.1))
  tried_ledger old false dev d w0 w q = (tt, q)

  scan_ledger :
      (old : Option Descriptor) (devs : List Device) (d : Option Descriptor)
      (w0 w : World env.Value)
      → ScanLedger old w0 (d, w)
      → ScanLedger old w0 (scan env devs d w)
  unfolding scan
  scan_ledger old [] d w0 w q = q
  scan_ledger old (dev ∷ devs) d w0 w q =
      let t = tried_ledger old (is_hid_device env w.history dev) dev d w0 w q in
      scan_next_ledger old w0 (scan env devs) d _ _ (λ d' w' q'. scan_ledger old devs d' w0 w' q')
        t.0 t.1

  abbrev DiscoveryLedger : Session → World env.Value → (Error × Session) × World env.Value → Type 0
  DiscoveryLedger s w ((e, s'), w') = ScanLedger s.device w (s'.device, w')

  scan_listed_ledger :
      (s : Session) (answer : Answer (List Device)) (w0 w : World env.Value)
      → Net x w0 w 0 0
      → DiscoveryLedger s w0 (scan_listed env s answer w)
  unfolding scan_listed
  scan_listed_ledger s (fail rc) w0 w h = (h, inl refl)
  scan_listed_ledger s (ok devs) w0 w h =
      let q = scan_ledger s.device devs s.device w0 w (h, inl refl) in
      stored (scan env devs s.device w) q
    where
      stored :
          (r : Option Descriptor × World env.Value)
          → ScanLedger s.device w0 r
          → DiscoveryLedger s w0 (discovered env s r.0, r.1)
      stored (none, w') q = unfold discovered in q
      stored (some d, w') q = unfold discovered in q

  -- For every handle `x`: a discovery closes `x` as often as it opens it, and `device_` is as it
  -- was or does not hold `x`.
  pub discover_devices_ledger :
      (s : Session) (w : World env.Value)
      → let r = discover_devices env s w in
        Net x w r.1 0 0 × ((r.0.1.device ≡ s.device) ⊎ (session_holds x r.0.1 ≡ 0))
  unfolding discover_devices
  discover_devices_ledger s w =
      scan_listed_ledger s (env.device_list w.history) w _ (unfold opens closes in refl)
