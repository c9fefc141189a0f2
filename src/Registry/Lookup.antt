-- ===== src/Registry/Lookup.antt =====
-- The list of the crash-recovery file, read as a map from ids to entries.
use note_usb.Shared.{
  ◌≡◌, refl, false, Option, none, some, List, [], ◌∷◌, ◌++◌, arith, Text, text_eq, text_eq_iff,
  if◌then◌else◌,
}
use note_usb.Registry.{without}
use note_usb.Registry.Print.{ClaimedDevice}

-- The first entry of a device: the file as a map.
unfoldable pub find_entry : Text → List ClaimedDevice → Option ClaimedDevice
find_entry id [] = none
find_entry id (d ∷ ds) =
    let rest = find_entry id ds in if text_eq d.device_id id then some d else rest

pub find_entry-without :
    (id j : Text) (ds : List ClaimedDevice)
    → find_entry j (without id ds) ≡ (if text_eq id j then none else find_entry j ds)
unfolding find_entry without
find_entry-without id j [] = ground arith
find_entry-without id j (d ∷ ds) = ground (
  arith,
  find_entry-without id j ds,
  text_eq_iff id j,
  text_eq_iff d.device_id id,
  text_eq_iff d.device_id j,
)

pub find_entry-append :
    (j : Text) (ds : List ClaimedDevice) (e : ClaimedDevice)
    → find_entry j ds ≡ none
    → find_entry j (ds ++ e ∷ []) ≡ (if text_eq e.device_id j then some e else none)
unfolding find_entry
find_entry-append j [] e h = refl
find_entry-append j (d ∷ ds) e h =
    ground (arith, h, find_entry-append j ds e, text_eq_iff d.device_id j)

pub find_entry-append_other :
    (j : Text) (ds : List ClaimedDevice) (e : ClaimedDevice)
    → text_eq e.device_id j ≡ false
    → find_entry j (ds ++ e ∷ []) ≡ find_entry j ds
unfolding find_entry
find_entry-append_other j [] e h = ground (arith, h)
find_entry-append_other j (d ∷ ds) e h = ground (arith, h, find_entry-append_other j ds e)
