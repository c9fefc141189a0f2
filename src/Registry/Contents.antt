-- ===== src/Registry/Contents.antt =====
-- What the registry file holds after each call.
use note_usb.Shared.{
  Bool, true, false, List, [], ◌∷◌, ◌++◌, ◌≡◌, refl, arith, Text, text_eq, text_eq_iff, ℤ,
  if◌then◌else◌, Bool-cases, inl, inr,
}
use note_usb.Platform.{Env, World}
use note_usb.Registry.Print.{ClaimedDevice}
use note_usb.Registry.RoundTrip.{IsPlain, AllPlain, read_text-json_array}
use note_usb.Registry.{
  without, is_listed, write_registry, add_device, remove_device, get_all_devices, remove_all,
}

without-AllPlain : (id : Text) (ds : List ClaimedDevice) → AllPlain ds → AllPlain (without id ds)
unfolding without
without-AllPlain id [] h = h
without-AllPlain id (d ∷ ds) h = elim (Bool-cases (text_eq d.device_id id)) [
  | inl e ↦ rw e (without-AllPlain id ds h.1)
  | inr e ↦ rw e (h.0, without-AllPlain id ds h.1)
]

AllPlain-append : (ds es : List ClaimedDevice) → AllPlain ds → AllPlain es → AllPlain (ds ++ es)
AllPlain-append [] es h k = k
AllPlain-append (d ∷ ds) es h k = (h.0, AllPlain-append ds es h.1 k)

pub without_unlisted :
    (id : Text) (ds : List ClaimedDevice) → is_listed id ds ≡ false → without id ds ≡ ds
unfolding without is_listed
without_unlisted id [] h = refl
without_unlisted id (d ∷ ds) h = ground (arith, without_unlisted id ds)

pub is_listed-without :
    (id j : Text) (ds : List ClaimedDevice)
    → is_listed j (without id ds) ≡ (if text_eq id j then false else is_listed j ds)
unfolding without is_listed
is_listed-without id j [] = ground arith
is_listed-without id j (d ∷ ds) = ground (
  arith,
  is_listed-without id j ds,
  text_eq_iff id j,
  text_eq_iff d.device_id id,
  text_eq_iff d.device_id j,
)

pub is_listed-append :
    (j : Text) (ds : List ClaimedDevice) (d : ClaimedDevice)
    → is_listed j (ds ++ d ∷ []) ≡ (if text_eq d.device_id j then true else is_listed j ds)
unfolding is_listed
is_listed-append j [] d = ground arith
is_listed-append j (e ∷ ds) d = ground (arith, is_listed-append j ds d)

module _ (env : Env) where
  -- Reading the file gives `ds`, which can be written.
  pub record Holds (w : World env.Value) (ds : List ClaimedDevice) : Type 0 where
    pub reads : (get_all_devices env w).0 ≡ ds
    pub plain : AllPlain ds

  abbrev pub entry : Text → ℤ → Bool → ClaimedDevice
  entry id interface driver = record {
    pid = env.self_pid;
    device_id = id;
    interface_number = interface;
    kernel_driver_attached = driver;
  }

  -- A file that cannot be opened stays as it was.
  write_registry-Holds :
      (w : World env.Value) (old new : List ClaimedDevice)
      → Holds w old
      → AllPlain new
      → Holds (write_registry env new w).1 (if env.can_write w.history then new else old)
  unfolding write_registry get_all_devices
  write_registry-Holds w old new h p = elim (Bool-cases (env.can_write w.history)) [
    | inl e ↦ rw e (record { reads = read_text-json_array new p; plain = p })
    | inr e ↦ rw e (record { reads = h.reads; plain = h.plain })
  ]

  -- If the file reads as `ds`, with plain ids, and the new entry is plain, then after an addition
  -- it reads as `ds` without the id's old entries and with the new entry at the end; as `ds` if
  -- the file cannot be opened for writing.
  pub add_device-Holds :
      (w : World env.Value) (ds : List ClaimedDevice) (id : Text) (interface : ℤ) (driver : Bool)
      → Holds w ds
      → IsPlain (entry id interface driver)
      → Holds
          (add_device env id interface driver w).1
          (if env.can_write w.history then without id ds ++ entry id interface driver ∷ [] else ds)
  unfolding add_device get_all_devices
  add_device-Holds w ds id interface driver h p =
      rw h.reads (
        write_registry-Holds w ds _ h
          (AllPlain-append _ _ (without-AllPlain id ds h.plain) (p, tt)))

  Holds-if :
      {w : World env.Value} {ds : List ClaimedDevice} (b : Bool)
      → Holds w ds
      → Holds w (if b then ds else ds)
  Holds-if true h = h
  Holds-if false h = h

  -- If the file reads as `ds`, with plain ids, then a removal says whether the id was listed, and
  -- the file reads as `ds` without the id; as `ds` if it cannot be opened for writing.
  pub remove_device-Holds :
      (w : World env.Value) (ds : List ClaimedDevice) (id : Text)
      → Holds w ds
      → ((remove_device env id w).0 ≡ is_listed id ds)
        × Holds (remove_device env id w).1 (if env.can_write w.history then without id ds else ds)
  unfolding remove_device get_all_devices
  remove_device-Holds w ds id h = elim (Bool-cases (is_listed id ds)) [
    | inl e ↦ rw (h.reads, e) (refl, write_registry-Holds w ds _ h (without-AllPlain id ds h.plain))
    | inr e ↦ rw (h.reads, e) (refl, rw (without_unlisted id ds e) (Holds-if _ h))
  ]

  pub remove_all-Holds :
      (w : World env.Value) (ds : List ClaimedDevice)
      → Holds w ds
      → Holds (remove_all env w).1 (if env.can_write w.history then [] else ds)
  unfolding remove_all
  remove_all-Holds w ds h = write_registry-Holds w ds [] h tt
