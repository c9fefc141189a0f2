-- ===== src/Registry/Print.antt =====
-- DeviceRegistry::json_object and the text that DeviceRegistry::write_registry puts into the file
-- (src/device_handler.cpp). `operator<<` on numbers is `to_string`.
use note_usb.Shared.{
  ℕ, zero, suc, ◌+◌, ◌/◌, ◌%◌, Bool, List, [], ◌∷◌, ◌++◌, Text, codes, ℤ, pos, negsuc, ltb,
  if◌then◌else◌,
}

-- Entry written to the crash-recovery registry file.
pub record ClaimedDevice : Type 0 where
  pub pid : ℤ
  pub device_id : Text
  pub interface_number : ℤ
  pub kernel_driver_attached : Bool

-- The decimal digits of `n`; the fuel is at least `n`, and there are never more rounds.
unfoldable pub digits : ℕ → ℕ → Text
digits zero n = (b'0' + n % 10) ∷ []
digits (suc f) n =
    let higher = digits f (n / 10) in
    if ltb n 10 then (b'0' + n) ∷ [] else higher ++ ((b'0' + n % 10) ∷ [])

-- `std::to_string` and `operator<<`
unfoldable pub to_string : ℤ → Text
unfolding digits
to_string (pos n) = digits n n
to_string (negsuc n) = b'-' ∷ digits (n + 1) (n + 1)

abbrev pub bool_text : Bool → Text
bool_text b = if b then codes "true" else codes "false"

-- What stands between the braces.
unfoldable pub json_fields : ClaimedDevice → Text
json_fields d =
    codes "\"pid\":"
    ++ (to_string d.pid
        ++ (codes ",\"device_id\":\""
            ++ (d.device_id
                ++ (codes "\",\"interface_number\":"
                    ++ (to_string d.interface_number
                        ++ (codes ",\"kernel_driver_attached\":"
                            ++ bool_text d.kernel_driver_attached))))))

unfoldable pub json_object : ClaimedDevice → Text
json_object d = b'{' ∷ (json_fields d ++ (b'}' ∷ []))

-- The loop over the devices; a comma stands before every object but the first.
unfoldable pub json_rest : List ClaimedDevice → Text
json_rest [] = codes "]\n"
json_rest (d ∷ ds) = b',' ∷ (json_object d ++ json_rest ds)

unfoldable pub json_array : List ClaimedDevice → Text
unfolding json_rest json_object json_fields
json_array [] = codes "[]\n"
json_array (d ∷ ds) = b'[' ∷ (json_object d ++ json_rest ds)
