-- ===== src/Module/Hotplug/Delivery.antt =====
-- Whom a notification reaches.
use note_usb.Shared.{
  ℕ, ◌+◌, ◌≡◌, refl, [], ◌∷◌, arith, ℤ, int_eq, if◌then◌else◌, Bool-cases, inl, inr,
}
use note_usb.Protocol.{Response}
use note_usb.Platform.{Env, World, History, SessionEntry, broadcast}
use note_usb.Manager.{Sessions, broadcast_to, broadcast_loop, broadcast_to_all, write_bytes}

-- How many messages were broadcast to `fd`.
unfoldable pub broadcasts : {V : Type 0} → ℤ → History V → ℕ
broadcasts fd [] = 0
broadcasts fd (broadcast to msg sent ∷ h) = (if int_eq to fd then 1 else 0) + broadcasts fd h
broadcasts fd (e ∷ h) = broadcasts fd h

-- How many active sessions have the management socket `fd`.
unfoldable pub listeners : ℤ → Sessions → ℕ
listeners fd [] = 0
listeners fd ((pid, e) ∷ m) =
    (if e.is_active then (if int_eq e.management_fd fd then 1 else 0) else 0) + listeners fd m

module _ (env : Env) (fd : ℤ) where
  broadcast_to_counted :
      (e : SessionEntry) (msg : Response env.Value) (w : World env.Value)
      → broadcasts fd (broadcast_to env e msg w).1.history
        ≡ (if e.is_active then (if int_eq e.management_fd fd then 1 else 0) else 0)
          + broadcasts fd w.history
  unfolding broadcast_to write_bytes broadcasts
  broadcast_to_counted e msg w = elim (Bool-cases e.is_active) [
    | inl a ↦ rw a refl
    | inr a ↦ rw a (omega arith)
  ]

  broadcast_loop_counted :
      (m : Sessions) (msg : Response env.Value) (w : World env.Value)
      → broadcasts fd (broadcast_loop env m msg w).1.history
        ≡ listeners fd m + broadcasts fd w.history
  unfolding broadcast_loop listeners
  broadcast_loop_counted [] msg w = omega arith
  broadcast_loop_counted ((pid, e) ∷ m) msg w = omega (
    arith,
    broadcast_to_counted e msg w,
    broadcast_loop_counted m msg (broadcast_to env e msg w).1,
  )

  -- A broadcast writes to each socket as often as active sessions have it, failed writes included:
  -- a session that a failed write makes inactive does not keep the others from their message.
  pub broadcast_to_all_counted :
      (msg : Response env.Value) (w : World env.Value)
      → broadcasts fd (broadcast_to_all env msg w).1.history
        ≡ listeners fd w.sessions + broadcasts fd w.history
  unfolding broadcast_to_all
  broadcast_to_all_counted msg w = broadcast_loop_counted w.sessions msg w
