-- ===== src/Usb/Ids.antt =====
-- The device ids that get_device_id makes (src/note_usb_session.cpp).
use note_usb.Shared.{
  Bool, ◌⊎◌, ◌≢◌, InInt32, ℕ, ◌<◌, ◌≡◌, refl, sym, ◌∙◌, ap, false, Option, some, [], ◌∷◌, ◌++◌,
  arith, Text, ℤ, pos, is_empty, inl, inr,
}
use note_usb.Registry.Print.{to_string}
use note_usb.Registry.Read.{strip_prefix, stoll}
use note_usb.Registry.Numbers.{Avoids, Avoids-append, to_string-Avoids, stoll-to_string}
use note_usb.Registry.Search.{strip_prefix-append}
use note_usb.Registry.RoundTrip.{IsPlain}
use note_usb.Usb.{id_text}

pos-injective : {a b : ℕ} → ◌≡◌ {A = Option ℤ} (some (pos a)) (some (pos b)) → a ≡ b
pos-injective h = ground arith

-- A number that a colon follows is determined by the text, and so is what follows.
split_number :
    (a b : ℕ) (s t : Text)
    → a < 256
    → b < 256
    → to_string (pos a) ++ b':' ∷ s ≡ to_string (pos b) ++ b':' ∷ t
    → (a ≡ b) × (s ≡ t)
split_number a b s t ha hb e = (same, tails)
  where
    same : a ≡ b
    same = pos-injective (
        sym (stoll-to_string (pos a) b':' s (omega arith) refl)
        ∙ ap stoll e
        ∙ stoll-to_string (pos b) b':' t (omega arith) refl)

    stripped : some (b':' ∷ s) ≡ some (b':' ∷ t)
    stripped =
        sym (strip_prefix-append (to_string (pos a)) (b':' ∷ s))
        ∙ ap (strip_prefix (to_string (pos a))) e
        ∙ rw same (strip_prefix-append (to_string (pos b)) (b':' ∷ t))

    tails : s ≡ t
    tails = cc stripped

-- Two devices with bus numbers and addresses below 256 that have the same id have the same bus
-- number and the same address.
pub id_text-injective :
    (a b c d : ℕ)
    → a < 256
    → b < 256
    → c < 256
    → d < 256
    → id_text a b ≡ id_text c d
    → (a ≡ c) × (b ≡ d)
unfolding id_text
id_text-injective a b c d ha hb hc hd e =
    let (same, tails) = split_number a c (to_string (pos b)) (to_string (pos d)) ha hc e in
    (same, (split_number b d [] [] hb hd (ap (λ (s : Text). s ++ b':' ∷ []) tails)).0)

id_text-Avoids : (q a b : ℕ) → (q < 48) ⊎ (58 < q) → q ≢ b'-' → Avoids q (id_text a b)
unfolding id_text
id_text-Avoids q a b h m =
    Avoids-append q _ _ (number a) (Avoids-append q (b':' ∷ []) _ (ground arith) (number b))
  where
    number : (n : ℕ) → Avoids q (to_string (pos n))
    number n = to_string-Avoids q (pos n) (ground arith) m

is_empty-append : (s t : Text) (c : ℕ) → is_empty (s ++ c ∷ t) ≡ false
is_empty-append [] t c = refl
is_empty-append (a ∷ s) t c = refl

-- Such a device can be written to the registry file.
pub id_text-IsPlain :
    (a b : ℕ) (pid interface : ℤ) (driver : Bool)
    → InInt32 pid
    → InInt32 interface
    → IsPlain (record {
      pid = pid;
      device_id = id_text a b;
      interface_number = interface;
      kernel_driver_attached = driver;
    })
id_text-IsPlain a b pid interface driver hp hi = record {
  named = unfold id_text in is_empty-append _ _ b':';
  no_quote = id_text-Avoids b'"' a b (inl (omega arith)) (omega arith);
  no_open = id_text-Avoids b'{' a b (inr (omega arith)) (omega arith);
  no_close = id_text-Avoids b'}' a b (inr (omega arith)) (omega arith);
  pid_fits = hp;
  interface_fits = hi;
}
