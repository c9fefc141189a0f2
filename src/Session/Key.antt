-- ===== src/Session/Key.antt =====
-- The loop of handle_enable_encryption that reads the key (src/note_usb_session.cpp), and its end.
pub mod Messages
use note_usb.Shared.{
  ℕ, zero, suc, ◌+◌, ◌<◌, ◌≤◌, ◌≡◌, some, [], ◌∷◌, ◌++◌, Text, arith, ltb, Bool-cases, Option-cases,
  inl, inr,
}
use note_usb.Platform.{Env}
use note_usb.Session.{Ran, returned, threw, crashed, hung}
use note_usb.Session.Cipher.{read_key}

module _ (env : Env) where
  -- `read_from` moves the offset whenever it reads an element of `v`.
  abbrev pub Advances : env.Value → Type 0
  Advances v =
      (offset next : ℕ) (e : env.Value) → env.read_from v offset ≡ some (e, next) → offset < next

  -- The result is not that of a loop without end.
  abbrev pub Ends : Ran Text → Type 0
  Ends (returned key) = Unit
  Ends threw = Unit
  Ends crashed = Unit
  Ends hung = ⊥

  -- If `read_from` moves the offset whenever it reads an element, then a fuel of at least the bytes
  -- behind the offset is enough: the loop returns a key or throws.
  pub read_key-Ends :
      (f : ℕ) (v : env.Value) (offset : ℕ) (key : Text)
      → Advances v
      → env.data_size v ≤ offset + f
      → Ends (read_key env f v offset key)
  unfolding read_key
  read_key-Ends zero v offset key a h = ground (arith, h)
  read_key-Ends (suc f) v offset key a h = elim (Bool-cases (ltb offset (env.data_size v))) [
    | inr l ↦ rw (Ends, read_key, l) tt
    | inl l ↦ elim (Bool-cases (ltb (env.data_size v) (offset + env.metadata_size))) [
      | inl m ↦ rw (Ends, read_key, l, m) tt
      | inr m ↦ elim (Option-cases (env.read_from v offset)) [
        | inl e ↦ rw (Ends, read_key, l, m, e) tt
        | inr ((x, next), e) ↦
            rw (Ends, read_key, l, m, e)
              (read_key-Ends f v next (key ++ env.as_byte x ∷ []) a
                (omega (arith, a offset next x e, h)))
      ]
    ]
  ]
