-- ===== src/Shared/Map/Count.antt =====
-- Sums over the entries of a `std::map`.
use note_usb.Shared.Tests.{Key}
use note_usb.Shared.Map.{Map, lookup, place, erase, insert}
use note_usb.Shared.Map.Laws.{Unique}
use Prim.Native.Nat.{ℕ, ◌+◌}
use mathlib.Core.Path.{◌≡◌, refl}
use mathlib.Core.Option.{none, some}
use mathlib.Core.List.{[], ◌∷◌}
use native.Mathlib.Omega.{arith}

module _ {K V : Type 0} ⦃o : Key K⦄ where
  -- The sum of `f` over the values.
  unfoldable pub total : (V → ℕ) → Map K V → ℕ
  total f [] = 0
  total f ((k, v) ∷ m) = f v + total f m

  pub total-place :
      (f : V → ℕ) (k : K) (v : V) (m : Map K V) → total f (place k v m) ≡ f v + total f m
  unfolding total place
  total-place f k v [] = refl
  total-place f k v ((j, w) ∷ m) = ground (arith, total-place f k v m)

  pub total-insert :
      (f : V → ℕ) (k : K) (v : V) (m : Map K V)
      → lookup k m ≡ none
      → total f (insert k v m) ≡ f v + total f m
  unfolding insert
  total-insert f k v m h = ground (arith, total-place f k v m)

  pub erase_absent : (k : K) (m : Map K V) → lookup k m ≡ none → erase k m ≡ m
  unfolding erase lookup
  erase_absent k [] h = refl
  erase_absent k ((j, v) ∷ m) h = ground (arith, erase_absent k m)

  pub total-erase :
      (f : V → ℕ) (k : K) (v : V) (m : Map K V)
      → Unique m
      → lookup k m ≡ some v
      → total f m ≡ f v + total f (erase k m)
  unfolding total erase lookup
  total-erase f k v [] u h = cc
  total-erase f k v ((j, w) ∷ m) u h =
      ground (arith, total-erase f k v m u.1, erase_absent k m, o.beq_iff j k)
