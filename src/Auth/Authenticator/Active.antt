-- ===== src/Auth/Authenticator/Active.antt =====
-- Whom Authenticate lets in.
use mathlib.Core.Path.{subst}
use charm_registry.Prelude.Maps.{Map}
use charm_registry.Prelude.{
  ◌≤◌, ltb, is_set, ◌||◌, String, ◌≡◌, refl, inl, inr, false, Option, none, some, ◌==◌, arith,
  Option-cases, Bool-cases, ap, sym, ◌∙◌,
}
use charm_registry.Core.{Time, Account, StoreToken, Any}
use charm_registry.Errors.{Result, ok, err, ok_injective, >>=-eq-ok}
use charm_registry.Text.{trim_space}
use charm_registry.Auth.Tokens.{Claims, hash_token}
use charm_registry.Service.Context.{Runtime}
use charm_registry.Auth.Authenticator.{
  Authenticator, secret_of, parse_insecure_token, account_claims, active_token, verify_token,
  stored_or_verified, authenticate_secret, authenticate,
}

some_injective : {A : Type 0} {x y : A} → some x ≡ some y → x ≡ y
some_injective h = cc

not_set : {A : Type 0} (o : Option A) → is_set o ≡ false → o ≡ none
not_set none h = refl
not_set (some x) h = cc

-- A store token that authenticates: it is stored under the hash of the secret, is neither revoked nor
-- expired, and the claims are those of its account.
pub record IsActive (runtime : Runtime) (a : Authenticator) (now : Time) (secret : String)
    (claims : Claims) (token : StoreToken) : Type 0 where
  pub account : Account
  pub stored : a.token_store (hash_token runtime secret) ≡ ok (token, account)
  pub not_revoked : token.revoked_at ≡ none
  pub not_expired : now ≤ token.valid_until
  pub owner : claims ≡ account_claims account

active_token-IsActive :
    (runtime : Runtime) (a : Authenticator) (now : Time) (secret : String) (claims : Claims)
    (token found : StoreToken) (account : Account)
    → a.token_store (hash_token runtime secret) ≡ ok (found, account)
    → active_token now (found, account) ≡ ok (claims, some token)
    → IsActive runtime a now secret claims token
unfolding active_token
active_token-IsActive runtime a now secret claims token found account stored h =
    elim (Bool-cases (is_set found.revoked_at || ltb found.valid_until now)) [
      | inl inactive ↦ ground arith
      | inr active ↦
          let answered : ◌≡◌ {A = Result (Claims × Option StoreToken)}
              (ok (account_claims account, some found)) (ok (claims, some token)) =
            ground arith in
          let same = ok_injective answered in
          let same_token = some_injective (ap (λ p. p.1) same) in
          record {
            account = account;
            stored = stored ∙ ap (λ t. ok (t, account)) same_token;
            not_revoked =
                ap (λ t. t.revoked_at) (sym same_token) ∙ not_set found.revoked_at (ground arith);
            not_expired = subst (λ t. now ≤ t.valid_until) same_token (ground arith);
            owner = sym (ap (λ p. p.0) same);
          }
    ]

verify_token-none :
    (a : Authenticator) (secret : String) (verifier : Option (String → Result (Map Any)))
    (claims : Claims) (token : StoreToken)
    → verify_token a secret verifier ≡ ok (claims, some token)
    → ⊥
unfolding verify_token
verify_token-none a secret none claims token h = cc
verify_token-none a secret (some verify) claims token h =
    let (raw, verified, answered) = >>=-eq-ok (verify secret) _ h in
    cc (ap (λ p. p.1) (ok_injective answered))

stored_or_verified-IsActive :
    (runtime : Runtime) (a : Authenticator) (now : Time) (secret : String) (claims : Claims)
    (token : StoreToken) (r : Result (StoreToken × Account))
    → a.token_store (hash_token runtime secret) ≡ r
    → stored_or_verified a now secret r ≡ ok (claims, some token)
    → IsActive runtime a now secret claims token
unfolding stored_or_verified
stored_or_verified-IsActive runtime a now secret claims token (ok (found, account)) stored h =
    active_token-IsActive runtime a now secret claims token found account stored h
stored_or_verified-IsActive runtime a now secret claims token (err e) stored h =
    absurd (verify_token-none a secret a.verifier claims token h)

authenticate_secret-IsActive :
    (runtime : Runtime) (a : Authenticator) (now : Time) (secret : String) (claims : Claims)
    (token : StoreToken)
    → authenticate_secret runtime a now secret ≡ ok (claims, some token)
    → IsActive runtime a now secret claims token
unfolding authenticate_secret
authenticate_secret-IsActive runtime a now secret claims token h =
    elim (Bool-cases (secret == "")) [
      | inl empty ↦ ground arith
      | inr given ↦ elim (Option-cases (parse_insecure_token a.config secret)) [
        | inr (claims', dev) ↦ ground arith
        | inl no_dev ↦
            stored_or_verified-IsActive runtime a now secret claims token
              (a.token_store (hash_token runtime secret)) refl (ground arith)
      ]
    ]

-- Authenticate, when it answers with a store token: the header has one of the two schemes, the token
-- is stored under the hash of the secret after it, is neither revoked nor expired, and the claims are
-- those of the token's account.
pub authenticate-IsActive :
    (runtime : Runtime) (a : Authenticator) (now : Time) (header : String) (claims : Claims)
    (token : StoreToken)
    → authenticate runtime a now header ≡ ok (claims, some token)
    → (secret : String) × (secret_of (trim_space header) ≡ ok secret)
      × IsActive runtime a now secret claims token
unfolding authenticate
authenticate-IsActive runtime a now header claims token h =
    elim (Bool-cases (trim_space header == "")) [
      | inl empty ↦ ground arith
      | inr given ↦
          let (secret, found, answered) =
            >>=-eq-ok (secret_of (trim_space header)) (authenticate_secret runtime a now)
              (ground arith) in
          (secret, found, authenticate_secret-IsActive runtime a now secret claims token answered)
    ]
