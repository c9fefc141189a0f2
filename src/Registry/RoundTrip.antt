-- ===== src/Registry/RoundTrip.antt =====
-- `read_registry` after `write_registry`.
use note_usb.Shared.{
  ℕ, zero, suc, ◌<◌, ◌≡◌, refl, ◌∙◌, ap, ◌≢◌, inl, inr, Bool, true, false, none, some, List, [],
  ◌∷◌, ◌++◌, arith, Text, codes, is_empty, ℤ, InInt32, to_int32_id, length, length-append,
}
use mathlib.Core.List.{append_assoc}
use mathlib.Core.Option
use mathlib.Core.Option.{Option}
use note_usb.Registry.Print.{
  ClaimedDevice, to_string, bool_text, json_fields, json_object, json_rest, json_array,
}
use note_usb.Registry.Numbers.{Avoids, Avoids-append, to_string-Avoids, stoll-to_string}
use note_usb.Registry.Search.{
  find_brace-append, match_braces-append, find_after-Avoids, find_after_key, until_quote-append,
}
use note_usb.Registry.Read.{
  find_after, extract_string, extract_int, extract_bool, read_object, read_objects, keep_named,
  read_text, devices_or_none, find_brace, match_braces,
}

-- A device that the file can hold: the source escapes nothing in the id, and drops an empty one.
pub record IsPlain (d : ClaimedDevice) : Type 0 where
  pub named : is_empty d.device_id ≡ false
  pub no_quote : Avoids b'"' d.device_id
  pub no_open : Avoids b'{' d.device_id
  pub no_close : Avoids b'}' d.device_id
  pub pid_fits : InInt32 d.pid
  pub interface_fits : InInt32 d.interface_number

bool_text-Avoids : (q : ℕ) (b : Bool) → 117 < q → Avoids q (bool_text b)
bool_text-Avoids q true h = omega arith
bool_text-Avoids q false h = omega arith

-- A byte behind the letters: a brace.
json_fields-Avoids :
    (q : ℕ) (d : ClaimedDevice) → 122 < q → Avoids q d.device_id → Avoids q (json_fields d)
unfolding json_fields
json_fields-Avoids q d h a =
    let number = λ (x : ℤ). to_string-Avoids q x (inr (omega arith)) (omega arith) in
    Avoids-append q (codes "\"pid\":") _ (omega arith) (
      Avoids-append q _ _ (number d.pid) (
        Avoids-append q (codes ",\"device_id\":\"") _ (omega arith) (
          Avoids-append q _ _ a (
            Avoids-append q (codes "\",\"interface_number\":") _ (omega arith) (
              Avoids-append q _ _ (number d.interface_number) (
                Avoids-append q (codes ",\"kernel_driver_attached\":") _ (omega arith)
                  (bool_text-Avoids q d.kernel_driver_attached (omega arith))))))))

number_quote : (x : ℤ) → Avoids b'"' (to_string x)
number_quote x = to_string-Avoids b'"' x (inl (omega arith)) (omega arith)

-- What follows each field's value.
abbrev after_interface : ClaimedDevice → Text
after_interface d = codes ",\"kernel_driver_attached\":" ++ bool_text d.kernel_driver_attached

abbrev after_id : ClaimedDevice → Text
after_id d = codes "\",\"interface_number\":" ++ (to_string d.interface_number ++ after_interface d)

abbrev after_pid : ClaimedDevice → Text
after_pid d = codes ",\"device_id\":\"" ++ (d.device_id ++ after_id d)

-- A search goes over the number, and over the id, to the first quote behind it.
past_pid :
    (p : Text) (d : ClaimedDevice)
    → find_after (b'"' ∷ p) (to_string d.pid ++ after_pid d) ≡ find_after (b'"' ∷ p) (after_pid d)
past_pid p d = find_after-Avoids b'"' p (to_string d.pid) (after_pid d) (number_quote d.pid)

past_id :
    (w : Text) (d : ClaimedDevice)
    → Avoids b'"' w
    → IsPlain d
    → let key = b'"' ∷ (w ++ b'"' ∷ b':' ∷ []) in
      find_after key (b'"' ∷ (d.device_id ++ after_id d)) ≡ find_after key (after_id d)
past_id w d a h = find_after_key w d.device_id _ a h.no_quote

find_device_id :
    (d : ClaimedDevice)
    → find_after (codes "\"device_id\":\"") (json_fields d) ≡ some (d.device_id ++ after_id d)
unfolding json_fields find_after
find_device_id d = past_pid (codes "device_id\":\"") d

find_interface :
    (d : ClaimedDevice)
    → IsPlain d
    → find_after (codes "\"interface_number\":") (json_fields d)
      ≡ some (to_string d.interface_number ++ after_interface d)
unfolding json_fields find_after
find_interface d h =
    past_pid (codes "interface_number\":") d ∙ past_id (codes "interface_number") d (omega arith) h

find_driver :
    (d : ClaimedDevice)
    → IsPlain d
    → find_after (codes "\"kernel_driver_attached\":") (json_fields d)
      ≡ find_after (codes "\"kernel_driver_attached\":") (after_interface d)
unfolding json_fields find_after
find_driver d h =
    past_pid (codes "kernel_driver_attached\":") d
    ∙ past_id (codes "kernel_driver_attached") d (omega arith) h
    ∙ find_after-Avoids b'"' (codes "kernel_driver_attached\":") (to_string d.interface_number)
        (after_interface d) (number_quote d.interface_number)

extract_pid :
    (d : ClaimedDevice) → IsPlain d → extract_int (codes "\"pid\":") (json_fields d) ≡ d.pid
unfolding json_fields extract_int
extract_pid d h = rw (stoll-to_string d.pid b',' _ h.pid_fits refl)

extract_device_id :
    (d : ClaimedDevice)
    → IsPlain d
    → extract_string (codes "\"device_id\":\"") (json_fields d) ≡ d.device_id
unfolding extract_string
extract_device_id d h =
    rw (find_device_id d, extract_string) (rw (until_quote-append d.device_id _ h.no_quote))

extract_interface :
    (d : ClaimedDevice)
    → IsPlain d
    → extract_int (codes "\"interface_number\":") (json_fields d) ≡ d.interface_number
unfolding extract_int
extract_interface d h =
    rw (find_interface d h, extract_int)
      (rw (stoll-to_string d.interface_number b',' _ h.interface_fits refl))

true_or_false :
    (b : Bool)
    → extract_bool
        (codes "\"kernel_driver_attached\":")
        (codes ",\"kernel_driver_attached\":" ++ bool_text b)
      ≡ b
unfolding extract_bool
true_or_false true = refl
true_or_false false = refl

extract_driver :
    (d : ClaimedDevice)
    → IsPlain d
    → extract_bool (codes "\"kernel_driver_attached\":") (json_fields d) ≡ d.kernel_driver_attached
unfolding extract_bool
extract_driver d h = rw (find_driver d h, extract_bool) (true_or_false d.kernel_driver_attached)

read_object-json_fields : (d : ClaimedDevice) → IsPlain d → read_object (json_fields d) ≡ d
unfolding read_object
read_object-json_fields d h =
    rw (extract_pid d h, extract_device_id d h, extract_interface d h, extract_driver d h)
      (rw (to_int32_id d.pid h.pid_fits, to_int32_id d.interface_number h.interface_fits))

abbrev pub AllPlain : List ClaimedDevice → Type 0
AllPlain [] = Unit
AllPlain (d ∷ ds) = IsPlain d × AllPlain ds

-- One round of the loop, over one object behind a byte that is no brace.
read_objects-json_object :
    (f c : ℕ) (d : ClaimedDevice) (t : Text)
    → c ≢ b'{'
    → IsPlain d
    → read_objects (suc f) (c ∷ (json_object d ++ t)) ≡ Option.map (◌∷◌ d) (read_objects f t)
unfolding json_object read_objects
read_objects-json_object f c d t h p =
    rw (append_assoc, opened, read_objects, closed, read_objects, read_object-json_fields d p)
      (kept (read_objects f t))
  where
    kept : (r : Option (List ClaimedDevice)) → Option.map (keep_named d) r ≡ Option.map (◌∷◌ d) r
    kept none = refl
    kept (some ds) = rw p.named refl

    opened :
        find_brace (c ∷ (b'{' ∷ (json_fields d ++ b'}' ∷ t))) ≡ some (json_fields d ++ b'}' ∷ t)
    opened = find_brace-append (c ∷ []) _ (h, tt)

    closed : match_braces 1 (json_fields d ++ b'}' ∷ t) ≡ some (json_fields d, t)
    closed =
        match_braces-append (json_fields d) t (json_fields-Avoids b'{' d (omega arith) p.no_open)
          (json_fields-Avoids b'}' d (omega arith) p.no_close)

read_objects-json_rest :
    (f : ℕ) (ds : List ClaimedDevice)
    → AllPlain ds
    → length ds < f
    → read_objects f (json_rest ds) ≡ some ds
unfolding json_rest find_brace
read_objects-json_rest zero ds p h = absurd (omega arith)
read_objects-json_rest (suc f) [] p h = unfold read_objects in refl
read_objects-json_rest (suc f) (d ∷ ds) p h =
    read_objects-json_object f b',' d (json_rest ds) (omega arith) p.0
    ∙ ap (Option.map (◌∷◌ d)) (read_objects-json_rest f ds p.1 (omega arith))

length-json_rest : (ds : List ClaimedDevice) → length ds < length (json_rest ds)
unfolding json_rest json_object
length-json_rest [] = omega arith
length-json_rest (d ∷ ds) =
    omega
      (arith, length-append {0} (json_fields d ++ (b'}' ∷ [])) (json_rest ds), length-json_rest ds)

read_text_lem : (s : Text) → read_text s ≡ devices_or_none (read_objects (suc (length s)) s)
unfolding read_text
read_text_lem s = refl

json_array-cons :
    (d : ClaimedDevice) (ds : List ClaimedDevice)
    → json_array (d ∷ ds) ≡ b'[' ∷ (json_object d ++ json_rest ds)
unfolding json_array
json_array-cons d ds = refl

-- If every id is non-empty and holds no quote and no brace, and the numbers fit 32 bits, then
-- reading the text written for a list of devices gives the list.
pub read_text-json_array : (ds : List ClaimedDevice) → AllPlain ds → read_text (json_array ds) ≡ ds
read_text-json_array [] h = unfold read_text json_array in refl
read_text-json_array (d ∷ ds) h =
    rw (json_array-cons d ds, read_text_lem)
      (ap devices_or_none (
        read_objects-json_object _ b'[' d (json_rest ds) (omega arith) h.0
        ∙ ap (Option.map (◌∷◌ d)) (read_objects-json_rest _ ds h.1 enough)))
  where
    enough : length ds < suc (length (json_object d ++ json_rest ds))
    enough = omega (arith, length-append {0} (json_object d) (json_rest ds), length-json_rest ds)
