-- ===== src/Prelude/Map.antt =====
-- Go maps as association lists. An iteration over a map takes the order of the list, which
-- stands for whatever order the run picks.
use mathlib.Core.Path.{◌≡◌, refl}
use mathlib.Core.Bool.{Bool}
use mathlib.Core.Option.{Option, none, some}
use mathlib.Core.List.{List, [], ◌∷◌}
use native.Mathlib.Omega.{arith}
use price_feeder.Prelude.Tests.{if◌then◌else◌, is_some}
use price_feeder.Prelude.Equality.{Eq, ◌==◌}

module _ {ℓ κ} {K : Type ℓ} {V : Type κ} ⦃e : Eq K⦄ where
  unfoldable pub lookup : K → List (K × V) → Option V
  lookup key [] = none
  lookup key ((here, v) ∷ rest) = if here == key then some v else lookup key rest

  -- `m[k] = v`: the entry is replaced, or a new one is added.
  unfoldable pub insert : K → V → List (K × V) → List (K × V)
  insert key new [] = (key, new) ∷ []
  insert key new ((here, old) ∷ rest) =
      if here == key then (key, new) ∷ rest else (here, old) ∷ insert key new rest

  -- `delete(m, k)`.
  pub erase : K → List (K × V) → List (K × V)
  erase k [] = []
  erase k ((j, v) ∷ m) = if j == k then erase k m else (j, v) ∷ erase k m

  -- `_, ok := m[k]`.
  unfoldable pub has : K → List (K × V) → Bool
  unfolding lookup
  has k m = is_some (lookup k m)

  -- The keys of the list are distinct, as those of a map are.
  abbrev pub IsMap : List (K × V) → Type κ
  IsMap [] = Unit
  IsMap ((k, v) ∷ m) = (lookup k m ≡ none) × IsMap m

  pub lookup-insert :
      (key asked : K) (new : V) (m : List (K × V))
      → lookup asked (insert key new m) ≡ (if key == asked then some new else lookup asked m)
  unfolding lookup insert
  lookup-insert key asked new [] = refl
  lookup-insert key asked new ((here, old) ∷ rest) = ground (
    arith,
    lookup-insert key asked new rest,
    e.beq_iff here asked,
    e.beq_iff here key,
    e.beq_iff key asked,
  )

  pub lookup-erase :
      (k j : K) (m : List (K × V)) → lookup j (erase k m) ≡ (if k == j then none else lookup j m)
  unfolding lookup erase
  lookup-erase k j [] = ground arith
  lookup-erase k j ((i, w) ∷ m) =
      ground (arith, e.beq_iff k j, e.beq_iff i k, e.beq_iff i j, lookup-erase k j m)

  pub ruleset map_laws = (lookup-insert, lookup-erase)
