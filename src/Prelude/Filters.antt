-- ===== src/Prelude/Filters.antt =====
-- Filtering a rearranged list.
use mathlib.Core.Logic.{inl, inr, ∥∥₁_elim}
use mathlib.Core.Bool.{Bool}
use mathlib.Core.List.{List, [], ◌∷◌, Perm, Permᴰ, Perm-prop}
use mathlib.Core.List.Perm
use charm_registry.Prelude.Tests.{Bool-cases}
use charm_registry.Prelude.Lists.{keep}

module _ {ℓ} {A : Type ℓ} (p : A → Bool) where
  keep-swap : (a b : A) (l : List A) → Perm (keep p (a ∷ b ∷ l)) (keep p (b ∷ a ∷ l))
  keep-swap a b l = elim (Bool-cases (p a)) [
    | inl ya ↦ elim (Bool-cases (p b)) [
      | inl yb ↦ rw (ya, yb) (Perm.swap b a (keep p l))
      | inr nb ↦ rw (ya, nb) (Perm.refl (a ∷ keep p l))
    ]
    | inr na ↦ elim (Bool-cases (p b)) [
      | inl yb ↦ rw (na, yb) (Perm.refl (b ∷ keep p l))
      | inr nb ↦ rw (na, nb) (Perm.refl (keep p l))
    ]
  ]

  keep-cons :
      (a : A) (l k : List A) → Perm (keep p l) (keep p k) → Perm (keep p (a ∷ l)) (keep p (a ∷ k))
  keep-cons a l k h = elim (Bool-cases (p a)) [ inl ya ↦ rw ya (Perm.cons a h) | inr na ↦ rw na h ]

  keep-permᴰ : {l k : List A} → Permᴰ l k → Perm (keep p l) (keep p k)
  keep-permᴰ Permᴰ.nil = Perm.refl []
  keep-permᴰ (Permᴰ.cons {b} {l₁} {l₂} e d) = rw e (keep-cons b l₁ l₂ (keep-permᴰ d))
  keep-permᴰ (Permᴰ.swap {a' = a'} {b' = b'} {l = l} e f) = rw (e, f) (keep-swap b' a' l)
  keep-permᴰ (Permᴰ.trans d e) = Perm.trans (keep-permᴰ d) (keep-permᴰ e)

  pub keep-perm : {l k : List A} → Perm l k → Perm (keep p l) (keep p k)
  keep-perm {l} {k} h = ∥∥₁_elim h Perm-prop keep-permᴰ
