-- ===== src/Session/Keeps/Owned.antt =====
-- Over all messages of a session (src/note_usb_session.cpp): which handles it closes.
use note_usb.Shared.{ℕ, ◌+◌, ◌≤◌, ap, inl, inr, List, arith}
use note_usb.Protocol.{Error, Response}
use note_usb.Platform.{Env, World, Handle}
use note_usb.Handler.Handles.{opens, closes}
use note_usb.Session.{
  Session, Ran, returned, threw, crashed, hung, send_response, discover_devices, claim_device,
}
use note_usb.Session.Lifecycle.{read_socket}
use note_usb.Session.Handles.{
  device_holds, session_holds, ClaimLedger, claim_device-ClaimLedger, release_device-Net,
  discover_devices_ledger,
}
use note_usb.Session.Keeps.{Outcome, ClaimOutcome, Keeps}
use note_usb.Session.Keeps.Rule.{read_socket-Keeps}

-- Since `w0`, when a session held `x` `n` times, `x` was closed no more often than it was opened or
-- held, and the session `s` may close it yet.
abbrev pub Owned : {V : Type 0} → Handle → ℕ → World V → Session → World V → Type 0
Owned x n w0 s w =
    closes x w.history + opens x w0.history + session_holds x s
    ≤ opens x w.history + closes x w0.history + n

abbrev pub Closed : {V : Type 0} → Handle → ℕ → World V → World V → Type 0
Closed x n w0 w =
    closes x w.history + opens x w0.history ≤ opens x w.history + closes x w0.history + n

module _ (env : Env) (x : Handle) (n : ℕ) (w0 : World env.Value) where
  claimed-Owned :
      (s : Session) (r : Ran (Error × Session) × World env.Value) (w : World env.Value)
      → Owned x n w0 s w
      → ClaimLedger x s w r
      → ClaimOutcome (Owned x n w0) (Closed x n w0) s r
  claimed-Owned s (returned (e, s'), w') w p (inl (c, (same, l))) =
      omega (arith, p, l, ap (session_holds x) same)
  claimed-Owned s (returned (e, s'), w') w p (inr (c, (y, l))) = omega (arith, p, l)
  claimed-Owned s (crashed, w') w p (y, (o, l)) = omega (arith, p, l)
  claimed-Owned s (threw, w') w p l = absurd l
  claimed-Owned s (hung, w') w p l = absurd l

  send_response-Owned :
      (s : Session) (msg : Response env.Value) (w : World env.Value)
      → Owned x n w0 s w
      → Owned x n w0 s (send_response env s msg w).1
  unfolding send_response opens closes
  send_response-Owned s msg w p = ground (arith, p)

  discovered-Owned :
      (s : Session) (w : World env.Value)
      → Owned x n w0 s w
      → let r = discover_devices env s w in Owned x n w0 r.0.1 r.1
  discovered-Owned s w p =
      let r = discover_devices env s w in
      let l = discover_devices_ledger env x s w in
      elim l.1 [
        | inl same ↦ omega (arith, p, l.0, ap (device_holds x) same)
        | inr freed ↦ omega (arith, p, l.0, freed)
      ]

  kept : Keeps env (Owned x n w0) (Closed x n w0)
  kept = record {
    sends = λ s msg w e p. send_response-Owned s msg w p;
    discovers = discovered-Owned;
    claims = λ s id w p.
        claimed-Owned s (claim_device env s id w) w p (claim_device-ClaimLedger env x s id w);
    releases = λ s w p. omega (arith, p, release_device-Net env x s w);
    starts_encryption = λ s id key w p. unfold opens closes in p;
    ends_encryption = λ s id w p. unfold opens closes in p;
    rekeys = λ s b key w p. p;
    shuts_down = λ s w p. p;
    gives_up = λ s w p. omega (arith, p);
  }

module _ (env : Env) (x : Handle) where
  -- Over all the messages that a session reads: each handle `x` is closed at most as often as it was
  -- opened meanwhile, and once more for what the session held at first; while it still holds `x`, it
  -- was closed less often.
  pub read_socket-Owned :
      (s : Session) (arriving : List env.Object) (w : World env.Value)
      → Outcome
          (Owned x (session_holds x s) w)
          (Closed x (session_holds x s) w)
          s
          (read_socket env s arriving w)
  read_socket-Owned s arriving w =
      read_socket-Keeps env (Owned x (session_holds x s) w) (Closed x (session_holds x s) w)
        (kept env x (session_holds x s) w) s s arriving w (omega arith)
