-- ===== src/Service/Tokens.antt =====
-- internal/service/tokens.go: identities and store tokens.
pub mod Attenuation
pub mod Lifetimes
use Prim.Native.String.{◌++◌}
use charm_registry.Prelude.{
  ℕ, suc, ◌+◌, ◌-◌, ◌*◌, ◌^◌, String, Bool, true, false, Option, none, some, List, [], ◌∷◌, ◌==◌, ℤ,
  pos, negsuc, of_bits, is_positive, is_empty, ltb, if◌then◌else◌,
}
use charm_registry.Core.{Time, Account, StoreToken, PackageSelector, Identity, anonymous}
use charm_registry.Errors.{Result, ok, err, ◌>>=◌ as ◌and_then◌}
use charm_registry.Text.{replace_char}
use charm_registry.Auth.Tokens.{Claims, new_opaque_token, hash_token}
use charm_registry.Service.Context.{
  Service, Runtime, World, Action, ◌>>=◌, ◌>>◌, pure, read, write, lift, now, new_uuid,
}
use charm_registry.Service.Helpers.{first_non_empty, sanitize_subject}
use charm_registry.Service.Guards.{require_auth, default_permissions}

-- IssueTokenRequest
pub record IssueTokenRequest : Type 0 where
  pub description : Option String
  pub ttl : Option ℤ
  pub permissions : List String
  pub packages : List PackageSelector
  pub channels : List String

-- time.Second, in nanoseconds
abbrev pub second : ℕ
second = 10 ^ 9

-- A product of time.Duration, which wraps at 64 bits; the first factor is positive.
unfoldable pub seconds : ℤ → ℤ
seconds (pos n) = of_bits (n * second)
seconds (negsuc n) = of_bits ((2 ^ 64 - suc n) * second)

-- The lifetime of a token in IssueStoreToken.
unfoldable pub ttl_of : Option ℤ → ℤ
unfolding seconds
ttl_of none = pos (30 * 60 * 60 * second)
ttl_of (some ttl) = if is_positive ttl then seconds ttl else pos (30 * 60 * 60 * second)

-- Time.Add, down to the zero time
unfoldable pub add_duration : Time → ℤ → Time
add_duration t (pos d) = t + d
add_duration t (negsuc d) = t - suc d

-- The permissions of a token in IssueStoreToken.
unfoldable pub permissions_or_default : List String → List String
permissions_or_default [] = default_permissions
permissions_or_default (p ∷ ps) = p ∷ ps

-- The account of ResolveIdentity, with a new ID and the time of the call.
unfoldable pub claimed_account : String → Time → Claims → Account
claimed_account id t claims = record {
  id = id;
  subject = claims.subject;
  username = first_non_empty (claims.username ∷ replace_char b'|' "_" claims.subject ∷ []);
  display_name = first_non_empty (claims.display_name ∷ claims.username ∷ claims.subject ∷ []);
  email =
      first_non_empty (claims.email ∷ (sanitize_subject claims.subject ++ "@example.invalid") ∷ []);
  validation = "verified";
  created_at = t;
}

-- The token of IssueStoreToken.
unfoldable pub issued_token : Identity → IssueTokenRequest → String → String → Time → StoreToken
unfolding ttl_of add_duration permissions_or_default
issued_token identity req hash session_id t = record {
  session_id = session_id;
  token_hash = hash;
  account_id = identity.account.id;
  description = req.description;
  packages = req.packages;
  channels = req.channels;
  permissions = permissions_or_default req.permissions;
  valid_since = t;
  valid_until = add_duration t (ttl_of req.ttl);
  revoked_at = none;
  revoked_by = none;
}

-- The request of ExchangeStoreToken.
unfoldable pub exchange_request : Option StoreToken → Option String → IssueTokenRequest
exchange_request none description = record {
  description = description;
  ttl = none;
  permissions = [];
  packages = [];
  channels = [];
}
exchange_request (some token) description = record {
  description = description;
  ttl = none;
  permissions = token.permissions;
  packages = token.packages;
  channels = token.channels;
}

-- The account part of MacaroonInfo, and the whole of DeprecatedWhoAmI.
pub record AccountView : Type 0 where
  pub display_name : String
  pub email : String
  pub id : String
  pub username : String
  pub validation : String

pub record MacaroonView : Type 0 where
  pub account : AccountView
  pub packages : List PackageSelector
  pub channels : List String
  pub permissions : List String

unfoldable pub account_view : Account → AccountView
account_view account = record {
  display_name = account.display_name;
  email = account.email;
  id = account.id;
  username = account.username;
  validation = account.validation;
}

unfoldable pub token_view : AccountView → Option StoreToken → MacaroonView
token_view account none = record {
  account = account;
  packages = [];
  channels = [];
  permissions = [];
}
token_view account (some token) = record {
  account = account;
  packages = token.packages;
  channels = token.channels;
  permissions = token.permissions;
}

-- MacaroonInfo
unfoldable pub macaroon_info : Identity → Result MacaroonView
unfolding require_auth account_view token_view
macaroon_info identity = require_auth identity and_then λ _.
    ok (token_view (account_view identity.account) identity.token)

-- DeprecatedWhoAmI
unfoldable pub deprecated_who_am_i : Identity → Result AccountView
unfolding require_auth account_view
deprecated_who_am_i identity =
    require_auth identity and_then λ _. ok (account_view identity.account)

module _ (s : Service) where
  -- ResolveIdentity of claims with a subject; the repository reads the time once more
  unfoldable pub resolve_subject : Claims → Option StoreToken → Action s Identity
  unfolding new_uuid now write pure claimed_account
  resolve_subject claims store_token = do
    id ← new_uuid
    created_at ← now
    t ← now
    account ← write (s.repo.ensure_account t (claimed_account id created_at claims))
    pure (record { account = account; token = store_token; authenticated = true })

  -- ResolveIdentity
  unfoldable pub resolve_identity : Claims → Option StoreToken → Action s Identity
  unfolding resolve_subject
  resolve_identity claims store_token =
      if claims.subject == "" then pure anonymous else resolve_subject claims store_token

  -- IssueStoreToken
  unfoldable pub issue_store_token : Identity → IssueTokenRequest → Action s (String × StoreToken)
  unfolding lift require_auth new_opaque_token now new_uuid issued_token write pure ◌>>=◌
  issue_store_token identity req = do
    lift (require_auth identity)
    (raw, hash) ← new_opaque_token s
    t ← now
    session_id ← new_uuid
    let token = issued_token identity req hash session_id t
    write (s.repo.create_store_token token)
    pure (raw, token)

  -- ExchangeStoreToken
  unfoldable pub exchange_store_token : Identity → Option String → Action s String
  unfolding issue_store_token exchange_request
  exchange_store_token identity description = do
    (raw, token) ← issue_store_token identity (exchange_request identity.token description)
    pure raw

  -- ListStoreTokens
  unfoldable pub list_store_tokens : Identity → Bool → Action s (List StoreToken)
  unfolding lift require_auth now read
  list_store_tokens identity include_inactive = do
    lift (require_auth identity)
    t ← now
    read (s.repo.list_store_tokens t identity.account.id include_inactive)

  -- RevokeStoreToken
  unfoldable pub revoke_store_token : Identity → String → Action s (Unit {0})
  unfolding lift require_auth now write
  revoke_store_token identity session_id = do
    lift (require_auth identity)
    t ← now
    write (s.repo.revoke_store_token t identity.account.id session_id identity.account.id)
