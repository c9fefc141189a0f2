-- ===== src/Registry/Numbers.antt =====
-- Decimal numbers, printed by `to_string` and read by `stoll`.
use note_usb.Shared.{
  ℕ, zero, suc, ◌+◌, ◌/◌, ◌^◌, ◌<◌, ◌≤◌, ◌≡◌, ◌∙◌, ◌≢◌, ◌⊎◌, inl, inr, Bool, true, false, some, [],
  ◌∷◌, ◌++◌, arith, Text, ℤ, pos, negsuc, InInt32, ltb, Bool-cases,
}
use mathlib.Core.List.{append_assoc}
use note_usb.Registry.Print.{digits, to_string}
use note_usb.Registry.Read.{is_digit, read_digits, unsigned_part, stoll}

-- No byte of the text is `q`.
abbrev pub Avoids : ℕ → Text → Type 0
Avoids q [] = Unit
Avoids q (c ∷ s) = (c ≢ q) × Avoids q s

pub Avoids-append : (q : ℕ) (s t : Text) → Avoids q s → Avoids q t → Avoids q (s ++ t)
Avoids-append q [] t hs ht = ht
Avoids-append q (c ∷ s) t hs ht = (hs.0, Avoids-append q s t hs.1 ht)

-- No digit.
abbrev pub OffDigits : ℕ → Type 0
OffDigits q = (q < 48) ⊎ (57 < q)

digits-Avoids : (q f n : ℕ) → OffDigits q → Avoids q (digits f n)
unfolding digits
digits-Avoids q zero n h = ground arith
digits-Avoids q (suc f) n h = elim (Bool-cases (ltb n 10)) [
  | inl e ↦ rw (e, ◌++◌) (ground arith)
  | inr e ↦ rw e (Avoids-append q _ _ (digits-Avoids q f (n / 10) h) (ground arith))
]

pub to_string-Avoids : (q : ℕ) (x : ℤ) → OffDigits q → q ≢ b'-' → Avoids q (to_string x)
unfolding to_string
to_string-Avoids q (pos n) h m = digits-Avoids q n n h
to_string-Avoids q (negsuc n) h m = ((λ e. m (ground arith)), digits-Avoids q (n + 1) (n + 1) h)

-- The text starts with a digit.
abbrev StartsWithDigit : Text → Type 0
StartsWithDigit [] = ⊥
StartsWithDigit (c ∷ s) = is_digit c ≡ true

StartsWithDigit-append : (s t : Text) → StartsWithDigit s → StartsWithDigit (s ++ t)
StartsWithDigit-append [] t h = elim h [ ]
StartsWithDigit-append (c ∷ s) t h = h

digits-StartsWithDigit : (f n : ℕ) → StartsWithDigit (digits f n)
unfolding digits
digits-StartsWithDigit zero n = ground arith
digits-StartsWithDigit (suc f) n = elim (Bool-cases (ltb n 10)) [
  | inl e ↦ rw e (ground arith)
  | inr e ↦ rw e (StartsWithDigit-append _ _ (digits-StartsWithDigit f (n / 10)))
]

read_digits-digits :
    (f n : ℕ) (t : Text) → n ≤ f → read_digits 0 (digits f n ++ t) ≡ read_digits n t
unfolding digits read_digits
read_digits-digits zero n t h = ground arith
read_digits-digits (suc f) n t h = elim (Bool-cases (ltb n 10)) [
  | inl e ↦ rw e (ground arith)
  | inr e ↦ rw (e, append_assoc, read_digits-digits f (n / 10) _ (ground arith)) (ground arith)
]

abbrev signed : Bool → ℕ → ℤ
signed true zero = pos 0
signed true (suc n) = negsuc n
signed false n = pos n

unsigned_part_lem :
    (minus : Bool) (s : Text) (n : ℕ)
    → StartsWithDigit s
    → read_digits 0 s ≡ n
    → n < 2 ^ 63
    → unsigned_part minus s ≡ some (signed minus n)
unfolding unsigned_part
unsigned_part_lem minus [] n h e b = elim h [ ]
unsigned_part_lem true (c ∷ s) zero h e b = ground arith
unsigned_part_lem true (c ∷ s) (suc n) h e b = ground arith
unsigned_part_lem false (c ∷ s) n h e b = ground arith

-- Without a sign in front, and no space.
stoll_digit : (s : Text) → StartsWithDigit s → stoll s ≡ unsigned_part false s
unfolding stoll
stoll_digit [] h = elim h [ ]
stoll_digit (c ∷ s) h = ground arith

-- A number of 32 bits that stands before a byte that is no digit is read as it was written.
pub stoll-to_string :
    (x : ℤ) (c : ℕ) (t : Text)
    → InInt32 x
    → is_digit c ≡ false
    → stoll (to_string x ++ c ∷ t) ≡ some x
unfolding to_string
stoll-to_string (pos n) c t b h =
    let starts = StartsWithDigit-append _ (c ∷ t) (digits-StartsWithDigit n n) in
    stoll_digit _ starts
    ∙ unsigned_part_lem false _ n starts
        (read_digits-digits n n _ (omega arith) ∙ unfold read_digits in rw h) (omega arith)
stoll-to_string (negsuc n) c t b h =
    unfold stoll in
    unsigned_part_lem true _ (suc n)
      (StartsWithDigit-append _ (c ∷ t) (digits-StartsWithDigit (n + 1) (n + 1)))
      (read_digits-digits (n + 1) (n + 1) _ (omega arith)
        ∙ unfold read_digits in rw h (omega arith))
      (omega arith)
