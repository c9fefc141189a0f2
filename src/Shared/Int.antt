-- ===== src/Shared/Int.antt =====
-- `int`, `pid_t` and `long long` as integers; `negsuc n` is -(n + 1).
use Prim.Native.Nat.{ℕ, ◌-◌, ◌%◌, ◌^◌, ◌<◌}
use mathlib.Core.Path.{◌≡◌}
use mathlib.Core.Logic.{◌↔◌}
use mathlib.Core.Bool.{Bool, true, false}
use native.Mathlib.Omega.{arith}
use note_usb.Shared.Tests.{ltb, ◌==◌, if◌then◌else◌, Key}

pub data ℤ : Type 0 where
  pos : ℕ → ℤ
  negsuc : ℕ → ℤ

abbrev pub int_eq : ℤ → ℤ → Bool
int_eq (pos a) (pos b) = a == b
int_eq (pos a) (negsuc b) = false
int_eq (negsuc a) (pos b) = false
int_eq (negsuc a) (negsuc b) = a == b

abbrev pub int_lt : ℤ → ℤ → Bool
int_lt (pos a) (pos b) = ltb a b
int_lt (pos a) (negsuc b) = false
int_lt (negsuc a) (pos b) = true
int_lt (negsuc a) (negsuc b) = ltb b a

pub int_eq_iff : (a b : ℤ) → (int_eq a b ≡ true) ↔ (a ≡ b)
int_eq_iff (pos a) (pos b) = ground arith
int_eq_iff (pos a) (negsuc b) = ((λ h. cc), (λ h. cc))
int_eq_iff (negsuc a) (pos b) = ((λ h. cc), (λ h. cc))
int_eq_iff (negsuc a) (negsuc b) = ground arith

instance abbrev pub int_key : Key ℤ
int_key = record { beq = int_eq; blt = int_lt; beq_iff = int_eq_iff }

-- `x < 0`
abbrev pub is_negative : ℤ → Bool
is_negative (pos a) = false
is_negative (negsuc a) = true

-- The values of a 32-bit `int`.
abbrev pub InInt32 : ℤ → Type 0
InInt32 (pos a) = a < 2 ^ 31
InInt32 (negsuc a) = a < 2 ^ 31

-- The 32-bit integer with the bit pattern `n`.
abbrev pub of_pattern : ℕ → ℤ
of_pattern n = if ltb n (2 ^ 31) then pos n else negsuc (2 ^ 32 - 1 - n)

-- `(int) x` and `(pid_t) x` of a `long long`: the low 32 bits, read as a signed number.
unfoldable pub to_int32 : ℤ → ℤ
to_int32 (pos a) = of_pattern (a % 2 ^ 32)
to_int32 (negsuc a) = of_pattern (2 ^ 32 - 1 - a % 2 ^ 32)

pub to_int32_id : (x : ℤ) → InInt32 x → to_int32 x ≡ x
unfolding to_int32
to_int32_id (pos a) h = ground arith
to_int32_id (negsuc a) h = ground arith
