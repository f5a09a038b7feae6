-- ===== src/Auth/Authenticator/Closed.antt =====
-- Without an OIDC provider and without the development tokens, only store tokens authenticate.
use charm_registry.Prelude.{
  String, ◌≡◌, inl, inr, true, false, none, ◌==◌, arith, Bool-cases, ap, sym, ◌∙◌, ltb, is_set,
  ◌||◌,
}
use charm_registry.Core.{Time, Account, StoreToken}
use charm_registry.Config.{Config}
use charm_registry.Errors.{Result, ok, err, ok_injective, >>=-eq-ok}
use charm_registry.Text.{trim_space}
use charm_registry.Auth.Tokens.{Claims, hash_token}
use charm_registry.Service.Context.{Runtime}
use charm_registry.Auth.Authenticator.{
  Authenticator, no_claims, secret_of, parse_insecure_token, active_token, verify_token,
  stored_or_verified, authenticate_secret, authenticate,
}

no_dev_token :
    (cfg : Config) (raw : String)
    → cfg.enable_insecure_dev_auth ≡ false
    → parse_insecure_token cfg raw ≡ none
unfolding parse_insecure_token
no_dev_token cfg raw off = ground arith

stored_only :
    (a : Authenticator) (now : Time) (secret : String) (claims : Claims)
    (r : Result (StoreToken × Account))
    → a.verifier ≡ none
    → stored_or_verified a now secret r ≡ ok (claims, none)
    → ⊥
unfolding stored_or_verified active_token
stored_only a now secret claims (ok (token, account)) none_set h =
    elim (Bool-cases (is_set token.revoked_at || ltb token.valid_until now)) [
      | inl inactive ↦ ground arith
      | inr active ↦ ground arith
    ]
stored_only a now secret claims (err e) none_set h =
    unfold verify_token in cc (ap (verify_token a secret) none_set)

empty_secret :
    (runtime : Runtime) (a : Authenticator) (now : Time) (secret : String)
    → secret == "" ≡ true
    → authenticate_secret runtime a now secret ≡ ok (no_claims, none)
unfolding authenticate_secret
empty_secret runtime a now secret empty = ground arith

secret_closed :
    (runtime : Runtime) (a : Authenticator) (now : Time) (secret : String) (claims : Claims)
    → a.verifier ≡ none
    → a.config.enable_insecure_dev_auth ≡ false
    → authenticate_secret runtime a now secret ≡ ok (claims, none)
    → claims ≡ no_claims
unfolding authenticate_secret
secret_closed runtime a now secret claims closed off h = elim (Bool-cases (secret == "")) [
  | inl empty ↦
      ap (λ p. p.0) (sym (ok_injective (sym (empty_secret runtime a now secret empty) ∙ h)))
  | inr given ↦ absurd (
      stored_only a now secret claims (a.token_store (hash_token runtime secret)) closed
        (ground (arith, no_dev_token a.config secret off)))
]

empty_header :
    (runtime : Runtime) (a : Authenticator) (now : Time) (header : String)
    → trim_space header == "" ≡ true
    → authenticate runtime a now header ≡ ok (no_claims, none)
unfolding authenticate
empty_header runtime a now header empty = ground arith

-- Authenticate with no verifier and with the insecure development tokens disabled: an answer without
-- a store token is the empty claims, which ResolveIdentity takes to be anonymous.
pub authenticate_closed :
    (runtime : Runtime) (a : Authenticator) (now : Time) (header : String) (claims : Claims)
    → a.verifier ≡ none
    → a.config.enable_insecure_dev_auth ≡ false
    → authenticate runtime a now header ≡ ok (claims, none)
    → claims ≡ no_claims
unfolding authenticate authenticate_secret
authenticate_closed runtime a now header claims closed off h =
    elim (Bool-cases (trim_space header == "")) [
      | inl empty ↦
          ap (λ p. p.0) (sym (ok_injective (sym (empty_header runtime a now header empty) ∙ h)))
      | inr given ↦
          let (secret, found, answered) =
            >>=-eq-ok (secret_of (trim_space header)) (authenticate_secret runtime a now)
              (ground arith) in
          secret_closed runtime a now secret claims closed off answered
    ]
