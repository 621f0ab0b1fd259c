-- ===== src/Base/Map.antt =====
-- `HashMap` and `BTreeMap` as association lists. The order of the list stands for the order in
-- which the map is iterated, which the code does not fix.
use Prim.Native.Nat.{◌+◌, ◌≤◌, ◌<◌}
use mathlib.Core.Path.{◌≡◌}
use mathlib.Core.Bool.{Bool, true}
use mathlib.Core.List.{List, [], ◌∷◌}
use mathlib.Core.Option.{Option, none, some}
use native.Mathlib.Omega.{arith}
use proxy_load.Base.Tests.{if◌then◌else◌, is_some}
use proxy_load.Base.Lists.{length}
use proxy_load.Base.Equality.{PartialEq, same_refl}

abbrev pub Map {ℓ κ} : Type ℓ → Type κ → Type (ℓ ⊔ κ)
Map K V = List (K × V)

module _ {ℓ κ} {K : Type ℓ} {V : Type κ} ⦃e : PartialEq K⦄ where
  unfoldable pub get : K → Map K V → Option V
  get k [] = none
  get k ((j, v) ∷ m) = if e.same j k then some v else get k m

  unfoldable pub remove : K → Map K V → Map K V
  remove k [] = []
  remove k ((j, v) ∷ m) = if e.same j k then remove k m else (j, v) ∷ remove k m

  unfoldable pub insert : K → V → Map K V → Map K V
  unfolding remove
  insert k v m = (k, v) ∷ remove k m

  unfoldable pub retain : (K → V → Bool) → Map K V → Map K V
  retain p [] = []
  retain p ((j, v) ∷ m) = if p j v then (j, v) ∷ retain p m else retain p m

  pub get-remove :
      (k j : K) (m : Map K V) → get k (remove j m) ≡ (if e.same j k then none else get k m)
  unfolding get remove
  get-remove k j [] = ground arith
  get-remove k j ((i, v) ∷ m) =
      ground (arith, get-remove k j m, e.same_iff i j, e.same_iff i k, e.same_iff j k)

  pub get-insert :
      (k j : K) (v : V) (m : Map K V)
      → get k (insert j v m) ≡ (if e.same j k then some v else get k m)
  unfolding get insert
  get-insert k j v m = ground (arith, get-remove k j m)

  pub get-insert_self : (k : K) (v : V) (m : Map K V) → get k (insert k v m) ≡ some v
  get-insert_self k v m = ground (arith, get-insert k k v m, same_refl k)

  pub length-remove-le : (k : K) (m : Map K V) → length (remove k m) ≤ length m
  unfolding remove
  length-remove-le k [] = omega arith
  length-remove-le k ((j, v) ∷ m) = ground (arith, length-remove-le k m)

  pub length-remove-lt :
      (k : K) (m : Map K V) → is_some (get k m) ≡ true → length (remove k m) < length m
  unfolding get remove
  length-remove-lt k [] h = cc
  length-remove-lt k ((j, v) ∷ m) h = ground (arith, length-remove-le k m, length-remove-lt k m)

  pub length-insert-le : (k : K) (v : V) (m : Map K V) → length (insert k v m) ≤ length m + 1
  unfolding insert
  length-insert-le k v m = omega (arith, length-remove-le k m)

  pub length-insert_old :
      (k : K) (v : V) (m : Map K V) → is_some (get k m) ≡ true → length (insert k v m) ≤ length m
  unfolding insert
  length-insert_old k v m h = omega (arith, length-remove-lt k m h)

  pub length-retain-le : (p : K → V → Bool) (m : Map K V) → length (retain p m) ≤ length m
  unfolding retain
  length-retain-le p [] = omega arith
  length-retain-le p ((j, v) ∷ m) = ground (arith, length-retain-le p m)

  -- Each key stands once.
  abbrev pub IsUnique : Map K V → Type κ
  IsUnique [] = Unit
  IsUnique ((j, v) ∷ m) = (get j m ≡ none) × IsUnique m
