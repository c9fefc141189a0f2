-- ===== src/Session/Cipher.antt =====
-- The encryption of NoteUSBSession (src/note_usb_session.cpp): the loop that reads a key, encrypt_data
-- and decrypt_data.
use note_usb.Shared.{
  ℕ, zero, suc, ◌+◌, true, false, not, Option, none, some, [], ◌∷◌, ◌++◌, Text, codes, is_empty,
  ltb, if◌then◌else◌,
}
use note_usb.Platform.{Env, Act, pure, query}
use note_usb.Session.{Session, Ran, returned, threw, hung}

module _ (env : Env) where
  abbrev V : Type 0
  V = env.Value

  -- The loop over `data`, from an offset. The source puts no bound on it; with the size of the data as
  -- fuel, a loop that is not done has come twice to the same offset, and so would not end.
  unfoldable pub read_key : ℕ → V → ℕ → Text → Ran Text
  read_key zero v offset key =
      if ltb offset (env.data_size v)
      then (if ltb (env.data_size v) (offset + env.metadata_size) then returned key else hung)
      else returned key
  read_key (suc f) v offset key = elim (ltb offset (env.data_size v)) [
    | false ↦ returned key
    | true ↦ elim (ltb (env.data_size v) (offset + env.metadata_size)) [
      | true ↦ returned key
      | false ↦ elim (env.read_from v offset) [
        | none ↦ threw
        | some (value, next) ↦ read_key f v next (key ++ env.as_byte value ∷ [])
      ]
    ]
  ]

  -- The id under which the encryption provider is asked.
  abbrev provider_id : Session → Text
  provider_id s = if is_empty s.device_id then codes "unknown" else s.device_id

  -- `none`: false was returned. `encrypt_data` and `decrypt_data` are the same but for the call.
  unfoldable pub encrypt_data : Session → Text → Act V (Option Text)
  encrypt_data s plaintext =
      if not s.encryption_enabled
      then pure none
      else if is_empty s.encryption_key
      then pure none
      else query (λ h. env.encrypt h (provider_id s) plaintext)

  unfoldable pub decrypt_data : Session → Text → Act V (Option Text)
  decrypt_data s ciphertext =
      if not s.encryption_enabled
      then pure none
      else if is_empty s.encryption_key
      then pure none
      else query (λ h. env.decrypt h (provider_id s) ciphertext)
