-- ===== src/Protocol/Shape.antt =====
-- The shape of a message that the module sends: what a client can rely on when it reads one.
use note_usb.Shared.{◌≡◌, Bool, true, false, not, ◌&&◌, ◌||◌, [], ◌∷◌}
use note_usb.Protocol.{Field, Entry, Response}
use note_usb.Platform.{Event, History, World}

abbrev is_event : Field → Bool
is_event Field.event = true
is_event other = false

abbrev is_error : Field → Bool
is_error Field.error = true
is_error other = false

abbrev is_msg : Field → Bool
is_msg Field.msg = true
is_msg other = false

abbrev has_field : {V : Type 0} → (Field → Bool) → Response V → Bool
has_field test [] = false
has_field test ((f, e) ∷ rest) = test f || has_field test rest

-- A constant of the protocol, or the value that the client sent.
abbrev is_name : {V : Type 0} → Entry V → Bool
is_name (Entry.message m) = true
is_name (Entry.echo v) = true
is_name other = false

-- The message begins with its one EVENT, which is a name, and an ERROR comes with its MSG.
abbrev pub is_well_formed : {V : Type 0} → Response V → Bool
is_well_formed ((Field.event, e) ∷ rest) =
    is_name e
    && not (has_field is_event rest)
    && (not (has_field is_error rest) || has_field is_msg rest)
is_well_formed other = false

-- Every message that was written to a socket, or broadcast, is well formed.
unfoldable pub all_well_formed : {V : Type 0} → History V → Bool
all_well_formed [] = true
all_well_formed (Event.wrote fd msg ∷ h) = is_well_formed msg && all_well_formed h
all_well_formed (Event.broadcast fd msg sent ∷ h) = is_well_formed msg && all_well_formed h
all_well_formed (e ∷ h) = all_well_formed h

abbrev pub WellFormed : {V : Type 0} → World V → Type 0
WellFormed w = all_well_formed w.history ≡ true
