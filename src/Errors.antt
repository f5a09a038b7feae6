-- ===== src/Errors.antt =====
-- internal/service/errors.go and internal/repo/errors.go: Go's error values and fallible results.
-- `not_found` and `conflict` stand for every error that wraps repo.ErrNotFound or
-- repo.ErrConflict, `failure` for any other error, by its text.
use charm_registry.Prelude.{ℕ, String, ◌≡◌, refl, List, [], ◌∷◌, Bool, true, false, ◌⊎◌, inl, inr}

pub record ServiceError : Type 0 where
  pub status : ℕ
  pub code : String
  pub message : String

pub data Error : Type 0 where
  service : ServiceError → Error
  not_found conflict : Error
  failure : String → Error

-- newError
abbrev pub new_error : ℕ → String → String → Error
new_error status code message = service (record { status = status; code = code; message = message })

pub data Result {ℓ} (A : Type ℓ) : Type ℓ where
  err : Error → Result A
  ok : A → Result A

infixl 5 ◌>>=◌ ◌>>◌
-- The early return of Go: `if err != nil { return …, err }` ends a method with the error.
abbrev pub ◌>>=◌ {ℓ κ} : {A : Type ℓ} {B : Type κ} → Result A → (A → Result B) → Result B
err failed >>= next = err failed
ok value >>= next = next value

abbrev pub ◌>>◌ {ℓ} : {B : Type ℓ} → Result (Unit {0}) → Result B → Result B
checked >> rest = checked >>= λ nothing. rest

-- A result whose error is turned into another one, as in `return translate(err)`.
abbrev pub map_error {ℓ} : {A : Type ℓ} → (Error → Error) → Result A → Result A
map_error f (ok a) = ok a
map_error f (err e) = err (f e)

abbrev pub is_ok {ℓ} : {A : Type ℓ} → Result A → Bool
is_ok (ok a) = true
is_ok (err e) = false

-- A loop that appends one result for each element and stops at the first error.
unfoldable pub each {ℓ κ} : {A : Type ℓ} {B : Type κ} → (A → Result B) → List A → Result (List B)
each f [] = ok []
each f (x ∷ xs) = do y ← f x; ys ← each f xs; ok (y ∷ ys)

pub Result-cases {ℓ} :
    {A : Type ℓ} (r : Result A) → ((a : A) × (r ≡ ok a)) ⊎ ((e : Error) × (r ≡ err e))
Result-cases (ok a) = inl (a, refl)
Result-cases (err e) = inr (e, refl)

-- What a successful chain of steps went through.
pub >>=-eq-ok {ℓ κ} :
    {A : Type ℓ} {B : Type κ} (first : Result A) (next : A → Result B) {result : B}
    → (first >>= next) ≡ ok result
    → (value : A) × (first ≡ ok value) × (next value ≡ ok result)
>>=-eq-ok (err failed) next h = cc
>>=-eq-ok (ok value) next h = (value, refl, h)

pub map_error-eq-ok {ℓ} :
    {A : Type ℓ} (f : Error → Error) (r : Result A) {a : A} → map_error f r ≡ ok a → r ≡ ok a
map_error-eq-ok f (ok b) h = h
map_error-eq-ok f (err e) h = cc

pub ok_injective {ℓ} : {A : Type ℓ} {a b : A} → ok a ≡ ok b → a ≡ b
ok_injective h = cc
