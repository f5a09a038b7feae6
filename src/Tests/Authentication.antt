-- ===== src/Tests/Authentication.antt =====
-- The theorems on the authentication of requests, at small inputs.
use charm_registry.Prelude.{String, ◌≡◌, refl, none, some}
use charm_registry.Errors.{ok}
use charm_registry.Text.{trim_space, trim_prefix, has_prefix, cut_prefix}
use charm_registry.Auth.Authenticator.{
  Authenticator, no_claims, secret_of, account_claims, authenticate,
}
use charm_registry.Auth.Authenticator.Active.{IsActive, authenticate-IsActive}
use charm_registry.Auth.Authenticator.Closed.{authenticate_closed}
use charm_registry.Tests.Fixtures.{config, runtime, alice, token}

abbrev closed : Authenticator
closed = record { verifier = none; config = config; token_store = λ hash. ok (token, alice) }

authenticated :
    authenticate runtime closed 5 "Bearer cr_seed" ≡ ok (account_claims alice, some token)
unfolding authenticate trim_space has_prefix cut_prefix trim_prefix
authenticated = refl

authenticate-IsActive_example :
    (secret : String) × (secret_of (trim_space "Bearer cr_seed") ≡ ok secret)
    × IsActive runtime closed 5 secret (account_claims alice) token
authenticate-IsActive_example =
    authenticate-IsActive runtime closed 5 "Bearer cr_seed" (account_claims alice) token
      authenticated

no_header : authenticate runtime closed 5 " " ≡ ok (no_claims, none)
unfolding authenticate trim_space
no_header = refl

authenticate_closed_example : no_claims ≡ no_claims
authenticate_closed_example = authenticate_closed runtime closed 5 " " no_claims refl refl no_header
