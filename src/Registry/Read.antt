-- ===== src/Registry/Read.antt =====
-- DeviceRegistry::read_registry (src/device_handler.cpp): the brace-matched parser. A position in
-- the text is the text from there on.
use note_usb.Shared.{
  ℕ, zero, suc, ◌+◌, ◌-◌, ◌*◌, ◌^◌, Bool, true, false, ◌&&◌, ◌||◌, Option, none, some, List, [],
  ◌∷◌, Text, codes, is_empty, ℤ, pos, negsuc, to_int32, ltb, leb, ◌==◌, if◌then◌else◌, length,
}
use mathlib.Core.Option
use note_usb.Registry.Print.{ClaimedDevice}

-- `content.find('{', pos)`: the text behind the brace.
unfoldable pub find_brace : Text → Option Text
find_brace [] = none
find_brace (c ∷ s) = if c == b'{' then some s else find_brace s

abbrev pub put_front : ℕ → Option (Text × Text) → Option (Text × Text)
put_front c none = none
put_front c (some (inner, rest)) = some (c ∷ inner, rest)

-- The loop over `depth`, from behind the opening brace: the text up to the closing brace, and the
-- text behind it. `none`: `obj_end` stayed at `obj_start`.
unfoldable pub match_braces : ℕ → Text → Option (Text × Text)
match_braces depth [] = none
match_braces depth (c ∷ s) =
    let deeper = put_front c (match_braces (depth + 1) s) in
    let higher = put_front c (match_braces (depth - 1) s) in
    let level = put_front c (match_braces depth s) in
    if c == b'{'
    then deeper
    else if c == b'}'
    then (if depth == 1 then some ([], s) else higher)
    else level

-- `obj.find(search)` and `p += search.size()`, at the start of the text.
unfoldable pub strip_prefix : Text → Text → Option Text
strip_prefix [] s = some s
strip_prefix (a ∷ p) [] = none
strip_prefix (a ∷ p) (c ∷ s) = if a == c then strip_prefix p s else none

abbrev pub or_else : Option Text → Option Text → Option Text
or_else none r = r
or_else (some s) r = some s

-- `obj.find(search)` and `p += search.size()`: the text behind the first occurrence.
unfoldable pub find_after : Text → Text → Option Text
unfolding strip_prefix
find_after p [] = strip_prefix p []
find_after p (c ∷ s) = or_else (strip_prefix p (c ∷ s)) (find_after p s)

-- `obj.substr(p, obj.find('"', p) - p)`, empty if there is no quote.
unfoldable pub until_quote : Text → Option Text
until_quote [] = none
until_quote (c ∷ s) =
    if c == b'"' then some [] else elim (until_quote s) [ none ↦ none | some t ↦ some (c ∷ t) ]

abbrev pub text_or_empty : Option Text → Text
text_or_empty none = []
text_or_empty (some t) = t

-- The lambda `extract_string`, with its search text.
unfoldable pub extract_string : Text → Text → Text
unfolding find_after until_quote
extract_string search obj = elim (find_after search obj) [
  | none ↦ []
  | some s ↦ text_or_empty (until_quote s)
]

abbrev pub is_digit : ℕ → Bool
is_digit c = leb b'0' c && leb c b'9'

-- `isspace`
abbrev pub is_space : ℕ → Bool
is_space c = (c == 32) || (leb 9 c && leb c 13)

-- The value of the digits in front, on top of those read so far.
unfoldable pub read_digits : ℕ → Text → ℕ
read_digits n [] = n
read_digits n (c ∷ s) = if is_digit c then read_digits (n * 10 + (c - b'0')) s else n

unfoldable pub skip_spaces : Text → Text
skip_spaces [] = []
skip_spaces (c ∷ s) = if is_space c then skip_spaces s else c ∷ s

-- The digits of a number behind its sign; `std::stoll` throws where there is none, or where the
-- value is no `long long`.
unfoldable pub unsigned_part : Bool → Text → Option ℤ
unfolding read_digits
unsigned_part minus [] = none
unsigned_part minus (c ∷ s) =
    let n = read_digits 0 (c ∷ s) in
    if is_digit c
    then (if minus
        then (if n == 0
            then some (pos 0)
            else if leb n (2 ^ 63)
            then some (negsuc (n - 1))
            else none)
        else if ltb n (2 ^ 63)
        then some (pos n)
        else none)
    else none

unfoldable pub signed_part : Text → Option ℤ
unfolding unsigned_part
signed_part [] = none
signed_part (c ∷ s) =
    if c == b'-'
    then unsigned_part true s
    else if c == b'+'
    then unsigned_part false s
    else unsigned_part false (c ∷ s)

-- `std::stoll`; `none` is an exception.
unfoldable pub stoll : Text → Option ℤ
unfolding signed_part skip_spaces
stoll s = signed_part (skip_spaces s)

abbrev pub int_or_zero : Option ℤ → ℤ
int_or_zero none = pos 0
int_or_zero (some x) = x

-- The lambda `extract_int`.
unfoldable pub extract_int : Text → Text → ℤ
unfolding find_after stoll
extract_int search obj = elim (find_after search obj) [
  | none ↦ pos 0
  | some s ↦ int_or_zero (stoll s)
]

unfoldable pub skip_blanks : Text → Text
skip_blanks [] = []
skip_blanks (c ∷ s) = if (c == 32) || (c == 9) then skip_blanks s else c ∷ s

abbrev pub is_found : Option Text → Bool
is_found none = false
is_found (some s) = true

-- The lambda `extract_bool`.
unfoldable pub extract_bool : Text → Text → Bool
unfolding find_after skip_blanks
extract_bool search obj = elim (find_after search obj) [
  | none ↦ false
  | some s ↦ is_found (strip_prefix (codes "true") (skip_blanks s))
]

unfoldable pub read_object : Text → ClaimedDevice
unfolding extract_string extract_int extract_bool
read_object obj = record {
  pid = to_int32 (extract_int (codes "\"pid\":") obj);
  device_id = extract_string (codes "\"device_id\":\"") obj;
  interface_number = to_int32 (extract_int (codes "\"interface_number\":") obj);
  kernel_driver_attached = extract_bool (codes "\"kernel_driver_attached\":") obj;
}

-- `if (!d.device_id.empty()) devices.push_back(d)`
abbrev pub keep_named : ClaimedDevice → List ClaimedDevice → List ClaimedDevice
keep_named d ds = if is_empty d.device_id then ds else d ∷ ds

-- The outer loop; out of fuel it is `none`. Each round goes on behind the text's first character at
-- least.
unfoldable pub read_objects : ℕ → Text → Option (List ClaimedDevice)
read_objects zero s = none
read_objects (suc f) [] = some []
read_objects (suc f) (c ∷ s) = elim (find_brace (c ∷ s)) [
  | none ↦ some []
  | some inside ↦ elim (match_braces 1 inside) [
    | none ↦ read_objects f s
    | some (obj, rest) ↦ Option.map (keep_named (read_object obj)) (read_objects f rest)
  ]
]

abbrev pub devices_or_none : Option (List ClaimedDevice) → List ClaimedDevice
devices_or_none none = []
devices_or_none (some ds) = ds

-- A fuel above the length of the text is enough for each text.
unfoldable pub read_text : Text → List ClaimedDevice
unfolding read_objects find_brace match_braces read_object
read_text s = devices_or_none (read_objects (suc (length s)) s)
