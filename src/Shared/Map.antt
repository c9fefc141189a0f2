-- ===== src/Shared/Map.antt =====
-- `std::map`, as the list of its entries in iteration order. The laws are in the children.
pub mod Laws
pub mod Count
use note_usb.Shared.Tests.{ltb, if◌then◌else◌, Key, Bool-cases, length}
use Prim.Native.Nat.{ℕ, zero, suc, ◌+◌}
use mathlib.Core.Path.{◌≡◌, refl, ap, sym, ◌∙◌}
use mathlib.Core.Logic.{◌≢◌, ◌↔◌, ◌⊎◌, inl, inr}
use mathlib.Core.Bool.{Bool, true, false}
use mathlib.Core.Option
use mathlib.Core.Option.{Option, none, some}
use mathlib.Core.List.{List, [], ◌∷◌}
use native.Mathlib.Omega.{arith}

abbrev pub Map : Type 0 → Type 0 → Type 0
Map K V = List (K × V)

abbrev pub is_some : {V : Type 0} → Option V → Bool
is_some none = false
is_some (some v) = true

module _ {K V : Type 0} ⦃o : Key K⦄ where
  -- `find(k)`
  unfoldable pub lookup : K → Map K V → Option V
  lookup k [] = none
  lookup k ((j, v) ∷ m) = if o.beq j k then some v else lookup k m

  -- `it->second`, changed in place for the entry of `k`
  unfoldable pub modify : K → (V → V) → Map K V → Map K V
  modify k f [] = []
  modify k f ((j, v) ∷ m) = (j, if o.beq j k then f v else v) ∷ modify k f m

  -- A new entry goes before the first greater key.
  unfoldable pub place : K → V → Map K V → Map K V
  place k v [] = (k, v) ∷ []
  place k v ((j, w) ∷ m) =
      let rest = place k v m in if o.blt k j then (k, v) ∷ (j, w) ∷ m else (j, w) ∷ rest

  -- `erase(k)`
  unfoldable pub erase : K → Map K V → Map K V
  erase k [] = []
  erase k ((j, v) ∷ m) = let rest = erase k m in if o.beq j k then rest else (j, v) ∷ rest

  -- `count(k) > 0`
  abbrev pub has : K → Map K V → Bool
  has k m = is_some (lookup k m)

  -- `m[k] = v`
  unfoldable pub insert : K → V → Map K V → Map K V
  insert k v m = elim (lookup k m) [ none ↦ place k v m | some w ↦ modify k (λ _. v) m ]

  -- `emplace(k, v)`: an entry that is there stays.
  unfoldable pub emplace : K → V → Map K V → Map K V
  emplace k v m = elim (lookup k m) [ none ↦ place k v m | some w ↦ m ]
