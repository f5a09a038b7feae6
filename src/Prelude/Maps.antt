-- ===== src/Prelude/Maps.antt =====
-- Go's maps with string keys, as association lists. An assignment replaces the value in place or
-- adds an entry at the end; what ranges over a map takes the order as an argument (`Visit`).
use Prim.Native.String.{String}
use mathlib.Core.Path.{◌≡◌, refl}
use mathlib.Core.Option.{Option, none, some}
use mathlib.Core.List.{List, [], ◌∷◌}
use native.Mathlib.Omega.{arith}
use text.Mathlib.Text.{◌==◌}
use text.Mathlib.TextEquality.{eq_iff}
use charm_registry.Prelude.Tests.{if◌then◌else◌}

abbrev pub Map {ℓ} : Type ℓ → Type ℓ
Map V = List (String × V)

module _ {ℓ} {V : Type ℓ} where
  -- m[k] with the test that it is there
  unfoldable pub lookup : String → Map V → Option V
  lookup k [] = none
  lookup k ((key, value) ∷ rest) = if key == k then some value else lookup k rest

  -- m[k] = v
  unfoldable pub insert : String → V → Map V → Map V
  insert k new [] = (k, new) ∷ []
  insert k new ((key, value) ∷ rest) =
      if key == k then (k, new) ∷ rest else (key, value) ∷ insert k new rest

  -- delete(m, k)
  unfoldable pub erase : String → Map V → Map V
  erase k [] = []
  erase k ((key, value) ∷ rest) =
      let others = erase k rest in if key == k then others else (key, value) ∷ others

  pub lookup-insert :
      (k asked : String) (new : V) (m : Map V)
      → lookup asked (insert k new m) ≡ (if k == asked then some new else lookup asked m)
  unfolding lookup insert
  lookup-insert k asked new [] = refl
  lookup-insert k asked new ((key, value) ∷ rest) =
      ground (arith, lookup-insert k asked new rest, eq_iff key asked, eq_iff key k, eq_iff k asked)

  pub lookup-erase :
      (k asked : String) (m : Map V)
      → lookup asked (erase k m) ≡ (if k == asked then none else lookup asked m)
  unfolding lookup erase
  lookup-erase k asked [] = ground arith
  lookup-erase k asked ((key, value) ∷ rest) =
      ground (arith, lookup-erase k asked rest, eq_iff key k, eq_iff key asked, eq_iff k asked)

pub lookup-empty {ℓ} : {V : Type ℓ} (k : String) → lookup {V = V} k [] ≡ none
unfolding lookup
lookup-empty k = refl

pub ruleset map_laws = (lookup-empty, lookup-insert, lookup-erase)
