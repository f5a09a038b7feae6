-- ===== src/Auth/Authenticator.antt =====
-- internal/auth/auth.go: the authentication of a request. The verifier of OIDC tokens is not code of
-- the repository.
pub mod Active
pub mod Closed
use Prim.Native.String.{◌++◌}
use charm_registry.Prelude.{
  ℕ, String, Bool, true, false, not, ◌||◌, Option, none, some, List, [], ◌∷◌, ◌==◌, is_set, ltb,
  if◌then◌else◌,
}
use charm_registry.Prelude.Maps.{Map, lookup}
use charm_registry.Core.{Time, Account, StoreToken, Any, text, items, texts, other}
use charm_registry.Config.{Config}
use charm_registry.Errors.{Result, ok, err, failure, map_error, ◌>>=◌}
use charm_registry.Text.{has_prefix, trim_prefix, trim_space, split}
use charm_registry.Auth.Tokens.{Claims, hash_token}
use charm_registry.Service.Context.{Runtime}
use charm_registry.Service.Helpers.{first_non_empty}

-- Authenticator; the verifier takes a secret to the claims of the ID token, with the errors of
-- Verify and Claims wrapped, and is missing where no provider is configured
pub record Authenticator : Type 0 where
  pub verifier : Option (String → Result (Map Any))
  pub config : Config
  pub token_store : String → Result (StoreToken × Account)

-- The zero value `Claims{}`.
abbrev pub no_claims : Claims
no_claims = record { subject = ""; username = ""; display_name = ""; email = "" }

-- The two schemes of Authenticate, and the secret after either.
unfoldable pub secret_of : String → Result String
secret_of header =
    if has_prefix header "Bearer "
    then ok (trim_space (trim_prefix header "Bearer "))
    else if has_prefix header "Macaroon "
    then ok (trim_space (trim_prefix header "Macaroon "))
    else err (failure "cannot authenticate: unsupported authorization scheme")

unfoldable pub dev_claims : List String → Option Claims
dev_claims (scheme ∷ subject ∷ username ∷ rest) = some (record {
  subject = subject;
  username = username;
  display_name = username;
  email = username ++ "@example.invalid";
})
dev_claims _ = none

-- parseInsecureToken
unfoldable pub parse_insecure_token : Config → String → Option Claims
unfolding dev_claims
parse_insecure_token cfg raw =
    if not cfg.enable_insecure_dev_auth
    then none
    else if not (has_prefix raw "dev:")
    then none
    else dev_claims (split b':' raw)

unfoldable pub account_claims : Account → Claims
account_claims account = record {
  subject = account.subject;
  username = account.username;
  display_name = account.display_name;
  email = account.email;
}

-- The test of a store token that is found, in Authenticate and AuthenticateToken.
unfoldable pub active_token : Time → StoreToken × Account → Result (Claims × Option StoreToken)
unfolding account_claims
active_token now (token, account) =
    if is_set token.revoked_at || ltb token.valid_until now
    then err (failure "cannot authenticate: token revoked or expired")
    else ok (account_claims account, some token)

-- asString of the value under a key
unfoldable pub as_string : Option Any → String
as_string (some (text value)) = value
as_string (some (items values)) = ""
as_string (some (texts values)) = ""
as_string (some other) = ""
as_string none = ""

abbrev claim : Map Any → String → String
claim raw key = as_string (lookup key raw)

-- The claims that Authenticate makes of those of an ID token.
unfoldable pub oidc_claims : Config → Map Any → Claims
unfolding as_string
oidc_claims cfg raw = record {
  subject = claim raw "sub";
  username =
      first_non_empty (
        claim raw cfg.oidc_username_claim
        ∷ claim raw "preferred_username"
        ∷ claim raw "email"
        ∷ []);
  display_name = first_non_empty (
      claim raw cfg.oidc_display_name_claim
      ∷ claim raw "name"
      ∷ claim raw "preferred_username"
      ∷ []);
  email = first_non_empty (claim raw cfg.oidc_email_claim ∷ claim raw "email" ∷ []);
}

-- The part of Authenticate for a secret that is not a store token's.
unfoldable pub verify_token :
    Authenticator
    → String
    → Option (String → Result (Map Any))
    → Result (Claims × Option StoreToken)
unfolding oidc_claims
verify_token a secret none = err (failure "cannot authenticate: no valid credentials found")
verify_token a secret (some verify) = do raw ← verify secret; ok (oidc_claims a.config raw, none)

-- The part of Authenticate from the look-up of the hash on.
unfoldable pub stored_or_verified :
    Authenticator
    → Time
    → String
    → Result (StoreToken × Account)
    → Result (Claims × Option StoreToken)
unfolding active_token verify_token
stored_or_verified a now secret (ok found) = active_token now found
stored_or_verified a now secret (err e) = verify_token a secret a.verifier

-- The part of Authenticate from the secret on.
unfoldable pub authenticate_secret :
    Runtime → Authenticator → Time → String → Result (Claims × Option StoreToken)
unfolding parse_insecure_token stored_or_verified hash_token
authenticate_secret runtime a now secret =
    if secret == "" then ok (no_claims, none) else elim (parse_insecure_token a.config secret) [
      | some claims ↦ ok (claims, none)
      | none ↦ stored_or_verified a now secret (a.token_store (hash_token runtime secret))
    ]

-- Authenticate of a request with the given Authorization header
unfoldable pub authenticate :
    Runtime → Authenticator → Time → String → Result (Claims × Option StoreToken)
unfolding secret_of authenticate_secret
authenticate runtime a now header =
    let trimmed = trim_space header in
    if trimmed == ""
    then ok (no_claims, none)
    else secret_of trimmed >>= λ secret. authenticate_secret runtime a now secret

-- AuthenticateToken; every error of the look-up becomes the same one
unfoldable pub authenticate_token :
    Runtime → Authenticator → Time → String → Result (Claims × Option StoreToken)
unfolding active_token hash_token
authenticate_token runtime a now raw =
    map_error (λ e. failure "cannot authenticate: token not found")
      (a.token_store (hash_token runtime raw))
    >>= λ found. active_token now found
