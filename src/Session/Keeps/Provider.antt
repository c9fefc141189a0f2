-- ===== src/Session/Keeps/Provider.antt =====
-- Under which id a session asks the encryption provider (encrypt_data and decrypt_data of
-- src/note_usb_session.cpp), whatever id its client enabled encryption for.
use note_usb.Shared.{
  ◌≡◌, ap, ◌∙◌, Bool, true, not, ◌&&◌, none, List, arith, Text, codes, is_empty, if◌then◌else◌,
}
use note_usb.Platform.{Env, World}
use note_usb.Session.{Session, Ran, returned, threw, crashed, hung}
use note_usb.Session.Cipher.{encrypt_data, decrypt_data}
use note_usb.Session.Lifecycle.{read_socket}
use note_usb.Session.Keeps.{Outcome}
use note_usb.Session.Keeps.Frame.{Frame, read_socket-Frame}

abbrev can_encrypt : Session → Bool
can_encrypt s = s.encryption_enabled && not (is_empty s.encryption_key)

module _ (env : Env) where
  -- The provider is asked about `bytes` under this id, and only if encryption is enabled with a key.
  abbrev pub AsksAs : Text → Text → Session → World env.Value → Type 0
  AsksAs id bytes s w =
      ((encrypt_data env s bytes w).0
        ≡ (if can_encrypt s then env.encrypt w.history id bytes else none))
      × ((decrypt_data env s bytes w).0
          ≡ (if can_encrypt s then env.decrypt w.history id bytes else none))

  abbrev pub AsksIfReturned : Text → Text → Ran Session × World env.Value → Type 0
  AsksIfReturned id bytes (returned s, w) = AsksAs id bytes s w
  AsksIfReturned id bytes (threw, w) = Unit
  AsksIfReturned id bytes (crashed, w) = Unit
  AsksIfReturned id bytes (hung, w) = Unit

  asks_unknown :
      (bytes : Text) (s : Session) (w : World env.Value)
      → is_empty s.device_id ≡ true
      → AsksAs (codes "unknown") bytes s w
  unfolding encrypt_data decrypt_data
  asks_unknown bytes s w e = ground (arith, e)

  -- A session without a device_id, as the module makes each, asks the provider to encrypt and to
  -- decrypt under the id "unknown", whatever messages it has read: also if the client enabled
  -- encryption for a device, under whose id the provider was then initialised.
  pub read_socket-AsksIfReturned :
      (s : Session) (arriving : List env.Object) (bytes : Text) (w : World env.Value)
      → is_empty s.device_id ≡ true
      → AsksIfReturned (codes "unknown") bytes (read_socket env s arriving w)
  read_socket-AsksIfReturned s arriving bytes w e =
      returns (read_socket env s arriving w) (read_socket-Frame env s arriving w)
    where
      returns :
          (r : Ran Session × World env.Value)
          → Outcome (λ s' w'. Frame s s') (λ w'. Unit {0}) s r
          → AsksIfReturned (codes "unknown") bytes r
      returns (returned s', w') p = asks_unknown bytes s' w' (ap is_empty p.2 ∙ e)
      returns (threw, w') p = tt
      returns (crashed, w') p = tt
      returns (hung, w') p = tt
