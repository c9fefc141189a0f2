-- ===== src/Manager/Laws.antt =====
-- SessionManager as a table: what each call changes, and for whom.
use note_usb.Shared.{
  ◌≡◌, refl, ap, ◌∙◌, Bool, true, false, Option, none, some, [], ◌∷◌, arith, ℤ, ℕ, int_eq,
  int_eq_iff, int_key, if◌then◌else◌, Bool-cases, ◌⊎◌, inl, inr,
}
use note_usb.Shared.Map.{lookup, modify, emplace}
use note_usb.Shared.Map.Laws.{lookup-emplace, lookup-erase, lookup-modify}
use mathlib.Core.Option
use note_usb.Protocol.{Response}
use note_usb.Platform.{Env, World, SessionEntry, Act, pure}
use note_usb.Manager.{
  Sessions, new_entry, register_session, unregister_session, write_bytes, broadcast_to,
  broadcast_loop, broadcast_to_all, send_to_entry, send_to_session, is_active, deactivate,
}

-- Whether an entry that was found is active.
abbrev active : Option SessionEntry → Bool
active none = false
active (some e) = e.is_active

-- What stands under the key after the write.
sends :
    (j : ℤ) (m : Sessions) (e : SessionEntry)
    → lookup j m ≡ some e
    → e.is_active ≡ true
    → (sent : Bool) → active (lookup j (if sent then m else modify j deactivate m)) ≡ sent
sends j m e le ae true = ap active le ∙ ae
sends j m e le ae false = ground (arith, lookup-modify j j deactivate m, int_eq_iff j j)

module _ (env : Env) where
  -- `send_to_session` behind the search, with what was found.
  send_found :
      (pid : ℤ) (msg : Response env.Value) (w : World env.Value) (found : Option SessionEntry)
      → lookup pid w.sessions ≡ found
      → let r =
          (elim found as (λ x. Act env.Value Bool) [
            | none ↦ pure false
            | some e ↦ if e.is_active then send_to_entry env pid e msg else pure false
          ])
            w in
        active (lookup pid r.1.sessions) ≡ r.0
  unfolding send_to_entry write_bytes
  send_found pid msg w none l = ap active l
  send_found pid msg w (some e) l = elim (Bool-cases e.is_active) [
    | inl a ↦ ground (arith, a, sends pid w.sessions e l a (env.write_ok w.history e.management_fd))
    | inr a ↦ ground (arith, a, l)
  ]

  -- `send_to_session` returns true exactly if the session is active afterwards: an unknown or
  -- inactive one gives false, and a failed write makes it inactive.
  pub send_to_session-is_active :
      (pid : ℤ) (msg : Response env.Value) (w : World env.Value)
      → let (sent, w') = send_to_session env pid msg w in (is_active env pid w').0 ≡ sent
  unfolding send_to_session is_active
  send_to_session-is_active pid msg w = send_found pid msg w (lookup pid w.sessions) refl

  -- After a registration and an unregistration under one key, that key has no entry, and every
  -- other has the one that it had before.
  pub unregister_session-register_session :
      (k j fd : ℤ) (session : Option ℕ) (w : World env.Value)
      → let w' = (unregister_session env k (register_session env k fd session w).1).1 in
        lookup j w'.sessions ≡ (if int_eq k j then none else lookup j w.sessions)
  unfolding register_session unregister_session
  unregister_session-register_session k j fd session w = ground (
    arith,
    lookup-erase k j (emplace k (new_entry k fd session) w.sessions),
    lookup-emplace k j (new_entry k fd session) w.sessions,
    int_eq_iff k j,
  )

  -- What one round of the loop makes of an entry.
  broadcast_to-cases :
      (e : SessionEntry) (msg : Response env.Value) (w : World env.Value)
      → let e' = (broadcast_to env e msg w).0 in
        (e' ≡ e) ⊎ ((e.is_active ≡ true) × (e' ≡ deactivate e))
  unfolding broadcast_to write_bytes
  broadcast_to-cases e msg w = elim (Bool-cases e.is_active) [
    | inl a ↦ elim (Bool-cases (env.write_ok w.history e.management_fd)) [
      | inl s ↦ inl (rw (a, s) refl)
      | inr s ↦ inr (a, rw (a, s) refl)
    ]
    | inr a ↦ inl (rw a refl)
  ]

  -- What becomes of one key.
  abbrev Fate : Option SessionEntry → Option SessionEntry → Type 0
  Fate old new = (new ≡ old) ⊎ ((active old ≡ true) × (new ≡ Option.map deactivate old))

  -- The loop keeps the keys, and one key's entry has its fate from one round.
  broadcast_loop-lookup :
      (j : ℤ) (msg : Response env.Value) (m : Sessions) (w : World env.Value)
      → Fate (lookup j m) (lookup j (broadcast_loop env m msg w).0)
  unfolding broadcast_loop lookup
  broadcast_loop-lookup j msg [] w = inl refl
  broadcast_loop-lookup j msg ((k, e) ∷ m) w =
      round (broadcast_to-cases e msg w)
        (broadcast_loop-lookup j msg m (broadcast_to env e msg w).1) (int_eq k j)
    where
      round :
          {e' : SessionEntry} {rest : Option SessionEntry}
          → (e' ≡ e) ⊎ ((e.is_active ≡ true) × (e' ≡ deactivate e))
          → Fate (lookup j m) rest
          → (b : Bool) → Fate (if b then some e else lookup j m) (if b then some e' else rest)
      round (inl q) f true = inl (ap some q)
      round (inr (a, q)) f true = inr (a, ap some q)
      round q f false = f

  -- A broadcast leaves the entry of any key as it is, or marks one that was active as inactive.
  pub broadcast_to_all-lookup :
      (j : ℤ) (msg : Response env.Value) (w : World env.Value)
      → let w' = (broadcast_to_all env msg w).1 in
        (lookup j w'.sessions ≡ lookup j w.sessions)
        ⊎ (((is_active env j w).0 ≡ true)
            × (lookup j w'.sessions ≡ Option.map deactivate (lookup j w.sessions)))
  unfolding broadcast_to_all is_active
  broadcast_to_all-lookup j msg w = broadcast_loop-lookup j msg w.sessions w
