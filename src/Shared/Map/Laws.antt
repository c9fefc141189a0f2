-- ===== src/Shared/Map/Laws.antt =====
-- What `find` gives after each change of a `std::map`.
use note_usb.Shared.Tests.{if◌then◌else◌, Key}
use note_usb.Shared.Map.{Map, lookup, modify, place, erase, insert, emplace}
use mathlib.Core.Path.{◌≡◌, refl}
use mathlib.Core.Logic.{◌≢◌}
use mathlib.Core.Bool.{true, false}
use mathlib.Core.Option
use mathlib.Core.Option.{Option, none, some}
use mathlib.Core.List.{[], ◌∷◌}
use native.Mathlib.Omega.{arith}

module _ {K : Type 0} ⦃o : Key K⦄ where
  pub beq_refl : (k : K) → o.beq k k ≡ true
  beq_refl k = (o.beq_iff k k).1 refl

  pub beq_ne : (k j : K) → k ≢ j → o.beq k j ≡ false
  beq_ne k j h = ground (arith, o.beq_iff k j)

module _ {K V : Type 0} ⦃o : Key K⦄ where
  pub lookup-modify :
      (k j : K) (f : V → V) (m : Map K V)
      → lookup j (modify k f m) ≡ (if o.beq k j then Option.map f (lookup j m) else lookup j m)
  unfolding lookup modify
  lookup-modify k j f [] = ground arith
  lookup-modify k j f ((i, v) ∷ m) =
      ground (arith, lookup-modify k j f m, o.beq_iff k j, o.beq_iff i j, o.beq_iff i k)

  pub lookup-erase :
      (k j : K) (m : Map K V) → lookup j (erase k m) ≡ (if o.beq k j then none else lookup j m)
  unfolding lookup erase
  lookup-erase k j [] = ground arith
  lookup-erase k j ((i, v) ∷ m) =
      ground (arith, lookup-erase k j m, o.beq_iff k j, o.beq_iff i j, o.beq_iff i k)

  -- The key is new.
  pub lookup-place :
      (k j : K) (v : V) (m : Map K V)
      → lookup k m ≡ none
      → lookup j (place k v m) ≡ (if o.beq k j then some v else lookup j m)
  unfolding lookup place
  lookup-place k j v [] h = refl
  lookup-place k j v ((i, w) ∷ m) h =
      ground (arith, lookup-place k j v m, o.beq_iff k j, o.beq_iff i j, o.beq_iff i k)

  pub lookup-insert :
      (k j : K) (v : V) (m : Map K V)
      → lookup j (insert k v m) ≡ (if o.beq k j then some v else lookup j m)
  unfolding insert
  lookup-insert k j v m =
      ground (arith, lookup-place k j v m, lookup-modify k j (λ _. v) m, o.beq_iff k j)

  pub lookup-emplace :
      (k j : K) (v : V) (m : Map K V)
      → lookup j (emplace k v m)
        ≡ (if o.beq k j then some (Option.get_or (lookup k m) v) else lookup j m)
  unfolding emplace
  lookup-emplace k j v m = ground (arith, lookup-place k j v m, o.beq_iff k j)

  -- The keys are distinct, as in every `std::map`.
  abbrev pub Unique : Map K V → Type 0
  Unique [] = Unit
  Unique ((k, v) ∷ m) = (lookup k m ≡ none) × Unique m

  pub modify-Unique : (k : K) (f : V → V) (m : Map K V) → Unique m → Unique (modify k f m)
  unfolding modify
  modify-Unique k f [] u = u
  modify-Unique k f ((i, v) ∷ m) u =
      (ground (arith, lookup-modify k i f m), modify-Unique k f m u.1)

  pub erase-Unique : (k : K) (m : Map K V) → Unique m → Unique (erase k m)
  unfolding erase
  erase-Unique k [] u = u
  erase-Unique k ((i, v) ∷ m) u = ground (arith, lookup-erase k i m, erase-Unique k m u.1)

  pub place-Unique :
      (k : K) (v : V) (m : Map K V) → lookup k m ≡ none → Unique m → Unique (place k v m)
  unfolding place lookup
  place-Unique k v [] h u = (refl, tt)
  place-Unique k v ((i, w) ∷ m) h u =
      ground (arith, lookup-place k i v m, place-Unique k v m, o.beq_iff k i, o.beq_iff i k)

  pub insert-Unique : (k : K) (v : V) (m : Map K V) → Unique m → Unique (insert k v m)
  unfolding insert
  insert-Unique k v m u = ground (arith, place-Unique k v m, modify-Unique k (λ _. v) m)
