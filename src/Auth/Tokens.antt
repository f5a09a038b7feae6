-- ===== src/Auth/Tokens.antt =====
-- internal/auth/auth.go: claims and opaque store tokens. The random bytes and the hash are the
-- runtime's.
use Prim.Native.String.{◌++◌}
use charm_registry.Prelude.{String}
use charm_registry.Service.Context.{Service, Runtime, Action, random_text, pure, ◌>>=◌}

pub record Claims : Type 0 where
  pub subject : String
  pub username : String
  pub display_name : String
  pub email : String

-- HashToken
unfoldable pub hash_token : Runtime → String → String
hash_token runtime raw = runtime.sha256 raw

module _ (s : Service) where
  -- NewOpaqueToken: the token and its hash
  unfoldable pub new_opaque_token : Action s (String × String)
  unfolding random_text pure hash_token
  new_opaque_token = do
    seed ← random_text
    let raw = "cr_" ++ seed
    pure (raw, hash_token s.runtime raw)
