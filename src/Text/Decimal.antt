-- ===== src/Text/Decimal.antt =====
-- strconv.Itoa (and the verb %d) and strconv.Atoi for int on a 64-bit machine, and their round trip.
use Prim.Native.Char.{Char, code}
use Prim.Native.String
use Prim.Native.String.{String, [], ◌∷◌}
use text.Mathlib.TextLemmas.{nil-append, cons-append}
use charm_registry.Prelude.{
  ◌⊎◌, ◌≢◌, ℕ, zero, suc, ◌+◌, ◌-◌, ◌*◌, ◌/◌, ◌%◌, ◌^◌, ◌<◌, ◌≡◌, refl, ℤ, pos, negsuc, ◌&&◌,
  Option, none, some, arith, ltb, leb, eq_nat, if◌then◌else◌, Bool-cases, ap, ◌∙◌, inl, inr,
}
use charm_registry.Text.Split.{Lacks}

-- The character of a digit.
abbrev digit : ℕ → Char
digit zero = "0"
digit (suc zero) = "1"
digit (suc (suc zero)) = "2"
digit (suc (suc (suc zero))) = "3"
digit (suc (suc (suc (suc zero)))) = "4"
digit (suc (suc (suc (suc (suc zero))))) = "5"
digit (suc (suc (suc (suc (suc (suc zero)))))) = "6"
digit (suc (suc (suc (suc (suc (suc (suc zero))))))) = "7"
digit (suc (suc (suc (suc (suc (suc (suc (suc zero)))))))) = "8"
digit _ = "9"

emit : ℕ → ℕ → String → String
emit zero n out = out
emit (suc fuel) n out =
    let more = emit fuel (n / 10) (digit (n % 10) ∷ out) in if ltb n 10 then digit n ∷ out else more

-- The decimal digits of a number; a number has fewer digits than its successor counts.
digits : ℕ → String
digits n = emit (suc n) n []

-- strconv.Itoa
unfoldable pub itoa : ℤ → String
unfolding digits emit
itoa (pos n) = digits n
itoa (negsuc n) = String.◌++◌ "-" (digits (suc n))

-- The value of a text of digits, from an accumulator.
scan : String → ℕ → Option ℕ
scan [] acc = some acc
scan (c ∷ s) acc =
    if leb b'0' (code c) && leb (code c) b'9' then scan s (acc * 10 + (code c - b'0')) else none

-- Digits, at least one.
number : String → Option ℕ
number [] = none
number (c ∷ s) = scan (c ∷ s) 0

in_range_pos : Option ℕ → Option ℤ
in_range_pos none = none
in_range_pos (some n) = if ltb n (2 ^ 63) then some (pos n) else none

in_range_neg : Option ℕ → Option ℤ
in_range_neg none = none
in_range_neg (some zero) = some (pos 0)
in_range_neg (some (suc n)) = if ltb n (2 ^ 63) then some (negsuc n) else none

-- strconv.Atoi: an optional sign and digits, within the range of int64
unfoldable pub atoi : String → Option ℤ
unfolding scan number in_range_pos in_range_neg
atoi [] = none
atoi (c ∷ s) =
    if eq_nat (code c) b'-'
    then in_range_neg (number s)
    else if eq_nat (code c) b'+'
    then in_range_pos (number s)
    else in_range_pos (number (c ∷ s))

-- The integers that an int64 holds.
abbrev pub InRange : ℤ → Type 0
InRange (pos n) = n < 2 ^ 63
InRange (negsuc n) = n < 2 ^ 63

code-digit : (d : ℕ) → d < 10 → code (digit d) ≡ b'0' + d
code-digit zero h = refl
code-digit (suc zero) h = refl
code-digit (suc (suc zero)) h = refl
code-digit (suc (suc (suc zero))) h = refl
code-digit (suc (suc (suc (suc zero)))) h = refl
code-digit (suc (suc (suc (suc (suc zero))))) h = refl
code-digit (suc (suc (suc (suc (suc (suc zero)))))) h = refl
code-digit (suc (suc (suc (suc (suc (suc (suc zero))))))) h = refl
code-digit (suc (suc (suc (suc (suc (suc (suc (suc zero)))))))) h = refl
code-digit (suc (suc (suc (suc (suc (suc (suc (suc (suc n))))))))) h = ground arith

scan-digit :
    (c : Char) (d : ℕ) (s : String) (acc : ℕ)
    → d < 10
    → code c ≡ b'0' + d
    → scan (c ∷ s) acc ≡ scan s (acc * 10 + d)
unfolding scan
scan-digit c d s acc h e = ground arith

scan-emit : (fuel n : ℕ) (out : String) → n < fuel → scan (emit fuel n out) 0 ≡ scan out n
unfolding emit
scan-emit zero n out h = elim h [ ]
scan-emit (suc fuel) n out h = elim (Bool-cases (ltb n 10)) [
  | inl small ↦ rw small (
      scan-digit (digit n) n out 0 (ground arith) (code-digit n (ground arith))
      ∙ ap (scan out) (omega arith))
  | inr large ↦ rw large (
      scan-emit fuel (n / 10) (digit (n % 10) ∷ out) (ground arith)
      ∙ scan-digit (digit (n % 10)) (n % 10) out (n / 10) (omega arith)
          (code-digit (n % 10) (omega arith))
      ∙ ap (scan out) (omega arith))
]

scan-digits : (n : ℕ) → scan (digits n) 0 ≡ some n
unfolding digits scan
scan-digits n = scan-emit (suc n) n [] (omega arith)

-- The digits begin with a digit, which is no sign.
data Begins : String → Type 0 where
  begins : (d : ℕ) (s : String) → d < 10 → Begins (digit d ∷ s)

Begins-emit : (fuel n : ℕ) (out : String) → n < fuel → Begins (emit fuel n out)
unfolding emit
Begins-emit zero n out h = elim h [ ]
Begins-emit (suc fuel) n out h = elim (Bool-cases (ltb n 10)) [
  | inl small ↦ rw small (begins n out (ground arith))
  | inr large ↦ rw large (Begins-emit fuel (n / 10) (digit (n % 10) ∷ out) (ground arith))
]

number-Begins : (s : String) → Begins s → number s ≡ scan s 0
unfolding number
number-Begins s (begins d t h) = refl

atoi-Begins : (s : String) → Begins s → atoi s ≡ in_range_pos (number s)
unfolding atoi
atoi-Begins s (begins d t h) = ground (arith, code-digit d h)

number-digits : (n : ℕ) → number (digits n) ≡ some n
unfolding digits
number-digits n = number-Begins (digits n) (Begins-emit (suc n) n [] (omega arith)) ∙ scan-digits n

atoi-minus : (s : String) → atoi (String.◌++◌ "-" s) ≡ in_range_neg (number s)
unfolding atoi
atoi-minus s = rw (cons-append, nil-append)

-- Reading back a printed int.
pub atoi-itoa : (i : ℤ) → InRange i → atoi (itoa i) ≡ some i
unfolding itoa in_range_pos in_range_neg
atoi-itoa (pos n) h =
    atoi-Begins (digits n) (Begins-emit (suc n) n [] (omega arith))
    ∙ ap in_range_pos (number-digits n)
    ∙ ground arith
atoi-itoa (negsuc n) h =
    atoi-minus (digits (suc n)) ∙ ap in_range_neg (number-digits (suc n)) ∙ ground arith

-- A code of no digit.
abbrev pub IsOther : ℕ → Type 0
IsOther sep = (b'9' < sep) ⊎ (sep < b'0')

digit-IsOther : (sep n : ℕ) → IsOther sep → n < 10 → code (digit n) ≢ sep
digit-IsOther sep n (inl above) h = ground (arith, code-digit n)
digit-IsOther sep n (inr below) h = ground (arith, code-digit n)

Lacks-emit :
    (sep fuel n : ℕ) (out : String)
    → IsOther sep
    → Lacks sep out
    → n < fuel
    → Lacks sep (emit fuel n out)
unfolding emit
Lacks-emit sep zero n out a k h = elim h [ ]
Lacks-emit sep (suc fuel) n out a k h = elim (Bool-cases (ltb n 10)) [
  | inl small ↦ rw small (digit-IsOther sep n a (ground arith), k)
  | inr large ↦ rw large (
      Lacks-emit sep fuel (n / 10) (digit (n % 10) ∷ out) a
        (digit-IsOther sep (n % 10) a (omega arith), k) (ground arith))
]

-- A printed int has no character but digits and a minus.
pub Lacks-itoa_other : (sep : ℕ) (i : ℤ) → IsOther sep → b'-' ≢ sep → Lacks sep (itoa i)
unfolding itoa
Lacks-itoa_other sep (pos n) a other = Lacks-emit sep (suc n) n [] a tt (omega arith)
Lacks-itoa_other sep (negsuc n) a other =
    rw (cons-append, nil-append) (other, Lacks-emit sep (suc (suc n)) (suc n) [] a tt (omega arith))

-- In particular none above the digits, such as an underscore.
pub Lacks-itoa : (sep : ℕ) (i : ℤ) → b'9' < sep → Lacks sep (itoa i)
Lacks-itoa sep i above = Lacks-itoa_other sep i (inl above) (λ same. omega arith)
