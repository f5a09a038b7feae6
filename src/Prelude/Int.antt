-- ===== src/Prelude/Int.antt =====
-- Go's signed integers, over the native numbers: `negsuc n` is -(n + 1).
use Prim.Native.Nat.{ℕ, zero, suc, ◌+◌, ◌-◌, ◌%◌, ◌^◌}
use mathlib.Core.Path.{◌≡◌, refl, ap}
use mathlib.Core.Logic.{◌↔◌}
use mathlib.Core.Bool.{Bool, true, false}
use native.Mathlib.Omega.{arith}
use charm_registry.Prelude.Tests.{eq_nat, eq_nat_iff, ltb, if◌then◌else◌}

pub data ℤ : Type 0 where
  pos : ℕ → ℤ
  negsuc : ℕ → ℤ

-- i + 1
abbrev pub succ : ℤ → ℤ
succ (pos n) = pos (n + 1)
succ (negsuc zero) = pos 0
succ (negsuc (suc n)) = negsuc n

abbrev pub eq_int : ℤ → ℤ → Bool
eq_int (pos a) (pos b) = eq_nat a b
eq_int (negsuc a) (negsuc b) = eq_nat a b
eq_int _ _ = false

-- i > 0
abbrev pub is_positive : ℤ → Bool
is_positive (pos n) = ltb 0 n
is_positive (negsuc n) = false

-- The int64 with the bit pattern `n` modulo 2^64.
abbrev pub of_bits : ℕ → ℤ
of_bits n = let r = n % 2 ^ 64 in if ltb r (2 ^ 63) then pos r else negsuc (2 ^ 64 - 1 - r)

pub eq_int_iff : (a b : ℤ) → (eq_int a b ≡ true) ↔ (a ≡ b)
eq_int_iff (pos a) (pos b) = (λ h. ap pos ((eq_nat_iff a b).0 h), λ h. ground arith)
eq_int_iff (negsuc a) (negsuc b) = (λ h. ap negsuc ((eq_nat_iff a b).0 h), λ h. ground arith)
eq_int_iff (pos a) (negsuc b) = (λ h. cc, λ h. cc)
eq_int_iff (negsuc a) (pos b) = (λ h. cc, λ h. cc)

pub eq_int_refl : (a : ℤ) → eq_int a a ≡ true
eq_int_refl a = (eq_int_iff a a).1 refl
