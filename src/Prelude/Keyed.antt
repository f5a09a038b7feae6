-- ===== src/Prelude/Keyed.antt =====
-- Maps that hold each value under a key of its own.
use Prim.Native.String.{String}
use mathlib.Core.Path.{◌≡◌, ap}
use mathlib.Core.Logic.{inl, inr}
use mathlib.Core.Option.{some}
use mathlib.Core.List.{[], ◌∷◌, Memᴰ}
use mathlib.Core.List.Memᴰ
use native.Mathlib.Omega.{arith}
use text.Mathlib.Text.{◌==◌}
use text.Mathlib.TextEquality.{eq_iff}
use charm_registry.Prelude.Tests.{Bool-cases}
use charm_registry.Prelude.Maps.{Map, lookup, insert}

-- A property of each entry, by its key and its value.
module _ {ℓ} {V : Type ℓ} (P : String → V → Type 0) where
  abbrev pub Entries : Map V → Type 0
  Entries [] = Unit
  Entries ((k, v) ∷ m) = P k v × Entries m

  pub Entries-insert : (k : String) (v : V) (m : Map V) → P k v → Entries m → Entries (insert k v m)
  unfolding insert
  Entries-insert k v [] h all = (h, tt)
  Entries-insert k v ((j, u) ∷ m) h all = elim (Bool-cases (j == k)) [
    | inl same ↦ rw same (h, all.1)
    | inr other ↦ rw other (all.0, Entries-insert k v m h all.1)
  ]

  pub Entries-lookup : (k : String) (v : V) (m : Map V) → Entries m → lookup k m ≡ some v → P k v
  unfolding lookup
  Entries-lookup k v [] all h = cc
  Entries-lookup k v ((j, u) ∷ m) all h = elim (Bool-cases (j == k)) [
    | inl same ↦ let value : u ≡ v = ground arith in rw (← (eq_iff j k).0 same, ← value) all.0
    | inr other ↦ Entries-lookup k v m all.1 (ground arith)
  ]

  pub Entries-Memᴰ : (k : String) (v : V) (m : Map V) → Memᴰ (k, v) m → Entries m → P k v
  Entries-Memᴰ k v [] h all = absurd (Memᴰ.not-nil h)
  Entries-Memᴰ k v ((j, u) ∷ m) (Memᴰ.head same) all =
      rw (ap (λ e. e.0) same, ap (λ e. e.1) same) all.0
  Entries-Memᴰ k v ((j, u) ∷ m) (Memᴰ.tail later) all = Entries-Memᴰ k v m later all.1
