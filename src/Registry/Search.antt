-- ===== src/Registry/Search.antt =====
-- Laws of the text searches of `read_registry`.
use note_usb.Shared.{
  ℕ, zero, suc, ◌+◌, ◌<◌, ◌≤◌, ◌≡◌, refl, ap, Option, none, some, List, [], ◌∷◌, ◌++◌, arith, Text,
  length, ◌==◌, Bool-cases, Option-cases, inl, inr, ◌-◌,
}
use note_usb.Registry.Numbers.{Avoids}
use note_usb.Registry.Read.{
  find_brace, match_braces, strip_prefix, find_after, until_quote, put_front, read_objects,
  read_object, keep_named,
}
use note_usb.Registry.Print.{ClaimedDevice}
use mathlib.Core.Option

pub find_brace-append : (s t : Text) → Avoids b'{' s → find_brace (s ++ b'{' ∷ t) ≡ some t
unfolding find_brace
find_brace-append [] t h = refl
find_brace-append (c ∷ s) t h = ground (arith, find_brace-append s t h.1)

-- The text between the braces holds no brace.
pub match_braces-append :
    (s t : Text) → Avoids b'{' s → Avoids b'}' s → match_braces 1 (s ++ b'}' ∷ t) ≡ some (s, t)
unfolding match_braces
match_braces-append [] t h k = refl
match_braces-append (c ∷ s) t h k = ground (arith, match_braces-append s t h.1 k.1)

pub strip_prefix-append : (p t : Text) → strip_prefix p (p ++ t) ≡ some t
unfolding strip_prefix
strip_prefix-append [] t = refl
strip_prefix-append (a ∷ p) t = ground (arith, strip_prefix-append p t)

-- The search text starts with a byte that `s` does not hold.
pub find_after-Avoids :
    (a : ℕ) (p s t : Text) → Avoids a s → find_after (a ∷ p) (s ++ t) ≡ find_after (a ∷ p) t
unfolding find_after
find_after-Avoids a p [] t h = refl
find_after-Avoids a p (c ∷ s) t h = ground (arith, find_after-Avoids a p s t h.1)

-- A text without quotes that ends before `",` is no key, which would end in `":`.
pub strip_prefix_key :
    (w s t : Text)
    → Avoids b'"' w
    → Avoids b'"' s
    → strip_prefix (w ++ b'"' ∷ b':' ∷ []) (s ++ b'"' ∷ b',' ∷ t) ≡ none
unfolding strip_prefix
strip_prefix_key [] [] t h k = refl
strip_prefix_key [] (c ∷ s) t h k = ground arith
strip_prefix_key (a ∷ w) [] t h k = ground arith
strip_prefix_key (a ∷ w) (c ∷ s) t h k = ground (arith, strip_prefix_key w s t h.1 k.1)

-- The search for a key goes past a quoted text without quotes.
pub find_after_key :
    (w s t : Text)
    → Avoids b'"' w
    → Avoids b'"' s
    → let key = b'"' ∷ (w ++ b'"' ∷ b':' ∷ []) in
      find_after key (b'"' ∷ (s ++ b'"' ∷ b',' ∷ t)) ≡ find_after key (b'"' ∷ b',' ∷ t)
unfolding find_after
find_after_key w s t h k =
    rw (strip_prefix_key w s t h k) (find_after-Avoids b'"' (w ++ b'"' ∷ b':' ∷ []) s _ k)

pub until_quote-append : (s t : Text) → Avoids b'"' s → until_quote (s ++ b'"' ∷ t) ≡ some s
unfolding until_quote
until_quote-append [] t h = refl
until_quote-append (c ∷ s) t h = ground (arith, until_quote-append s t h.1)

-- What lies behind a match is shorter than the text.
abbrev pub Shorter : Text → Option (Text × Text) → Type 0
Shorter s none = Unit
Shorter s (some (inner, rest)) = length rest < length s

put_front-Shorter :
    (c : ℕ) (s : Text) (r : Option (Text × Text)) → Shorter s r → Shorter (c ∷ s) (put_front c r)
put_front-Shorter c s none h = tt
put_front-Shorter c s (some (inner, rest)) h = omega arith

pub match_braces-Shorter : (depth : ℕ) (s : Text) → Shorter s (match_braces depth s)
unfolding match_braces
match_braces-Shorter depth [] = tt
match_braces-Shorter depth (c ∷ s) = elim (Bool-cases (c == b'{')) [
  | inl e ↦ rw e (put_front-Shorter c s _ (match_braces-Shorter (depth + 1) s))
  | inr e ↦ elim (Bool-cases (c == b'}')) [
    | inr d ↦ rw (e, d) (put_front-Shorter c s _ (match_braces-Shorter depth s))
    | inl d ↦ elim (Bool-cases (depth == 1)) [
      | inl one ↦ rw (e, d, one) (omega arith)
      | inr more ↦ rw (e, d, more) (put_front-Shorter c s _ (match_braces-Shorter (depth - 1) s))
    ]
  ]
]

pub find_brace-shorter : (s t : Text) → find_brace s ≡ some t → length t < length s
unfolding find_brace
find_brace-shorter [] t h = cc
find_brace-shorter (c ∷ s) t h = ground (arith, find_brace-shorter s t)

-- The parser returns these devices with each fuel above the length of the text.
abbrev pub Parses : Text → List ClaimedDevice → Type 0
Parses s ds = (f : ℕ) → length s < f → read_objects f s ≡ some ds

-- A round without a closing brace goes on behind the first character.
read_objects_unmatched :
    (c : ℕ) (s inside : Text) (ds : List ClaimedDevice)
    → find_brace (c ∷ s) ≡ some inside
    → match_braces 1 inside ≡ none
    → Parses s ds
    → Parses (c ∷ s) ds
unfolding read_objects
read_objects_unmatched c s inside ds e m h zero b = absurd (omega arith)
read_objects_unmatched c s inside ds e m h (suc f) b =
    rw (e, read_objects, m, read_objects) (h f (omega arith))

-- A round with one goes on behind it.
read_objects_matched :
    (c : ℕ) (s inside obj rest : Text) (ds : List ClaimedDevice)
    → find_brace (c ∷ s) ≡ some inside
    → match_braces 1 inside ≡ some (obj, rest)
    → length rest ≤ length s
    → Parses rest ds
    → Parses (c ∷ s) (keep_named (read_object obj) ds)
unfolding read_objects
read_objects_matched c s inside obj rest ds e m l h zero b = absurd (omega arith)
read_objects_matched c s inside obj rest ds e m l h (suc f) b =
    rw (e, read_objects, m, read_objects)
      (ap (Option.map (keep_named (read_object obj))) (h f (omega (arith, l))))

read_objects_nothing : Parses [] []
unfolding read_objects
read_objects_nothing zero l = absurd (omega (arith, l))
read_objects_nothing (suc f) l = refl

-- A text without an opening brace holds no device.
read_objects_unopened : (c : ℕ) (s : Text) → find_brace (c ∷ s) ≡ none → Parses (c ∷ s) []
unfolding read_objects
read_objects_unopened c s e zero l = absurd (omega (arith, l))
read_objects_unopened c s e (suc f) l = rw (e, read_objects) refl

read_objects-Parses : (n : ℕ) (s : Text) → length s ≤ n → (ds : List ClaimedDevice) × Parses s ds
read_objects-Parses n [] b = ([], read_objects_nothing)
read_objects-Parses zero (c ∷ s) b = absurd (omega arith)
read_objects-Parses (suc n) (c ∷ s) b = elim (Option-cases (find_brace (c ∷ s))) [
  | inl e ↦ ([], read_objects_unopened c s e)
  | inr (inside, e) ↦ elim (Option-cases (match_braces 1 inside)) [
    | inl m ↦
        let (ds, h) = read_objects-Parses n s (omega (arith, b)) in
        (ds, read_objects_unmatched c s inside ds e m h)
    | inr ((obj, rest), m) ↦
        let fits : length rest < length inside = rw m at (match_braces-Shorter 1 inside) in
        let within = find_brace-shorter (c ∷ s) inside e in
        let (ds, h) = read_objects-Parses n rest (omega (arith, b)) in
        (
          keep_named (read_object obj) ds,
          read_objects_matched c s inside obj rest ds e m (omega arith) h,
        )
  ]
]

-- The loop ends: for each text there are devices that the parser returns with each fuel above the
-- text's length, instead of running out of it.
pub read_objects-enough : (s : Text) → (ds : List ClaimedDevice) × Parses s ds
read_objects-enough s = read_objects-Parses (length s) s (omega arith)
