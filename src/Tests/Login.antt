-- ===== src/Tests/Login.antt =====
-- The login of a client, for a small registry in memory.
use Prim.Native.String.{◌∷◌}
use mathlib.Core.List.{List}
use charm_registry.Prelude.{none, ◌==◌, if◌then◌else◌}
use charm_registry.Core.{StoreToken}
use charm_registry.Repo.Memory.State.{Memory, new_memory}
use charm_registry.Service.Context.{World}
use charm_registry.Service.Tokens.{IssueTokenRequest, issued_token}
use charm_registry.Auth.Macaroons.{wrap_in_macaroon}
use charm_registry.Api.Requests.{Request}
use charm_registry.Tests.Fixtures.{service, alice, owner}
use charm_registry.Tests.Macaroons.{codec, array, letter_p}
use charm_registry.Tests.Api.{request}

abbrev with_alice : Memory
with_alice = record new_memory {
  accounts = List.◌∷◌ ("s1", alice) List.[];
  accounts_by_id = List.◌∷◌ ("a1", alice) List.[];
}

abbrev before : World service
before = record { db = with_alice; files = List.[]; calls = 0 }

abbrev asked : IssueTokenRequest
asked = record {
  description = none;
  ttl = none;
  permissions = List.[];
  packages = List.[];
  channels = List.[];
}

abbrev made : StoreToken
made = issued_token owner asked "hash-of-cr_seed" "id" 1

abbrev after : World service
after = record {
  db = record with_alice { tokens = List.◌∷◌ ("hash-of-cr_seed", made) List.[] };
  files = List.[];
  calls = 3;
}

-- A later world, in which another token has been stored.
abbrev later : World service
later = record after {
  db = record with_alice {
    tokens =
        List.◌∷◌ ("hash-of-cr_seed", made)
          (List.◌∷◌ ("other", record made { token_hash = "other" }) List.[]);
  };
  calls = 9;
}

abbrev handing_back : Request
handing_back = record (request "") {
  header = λ name.
      if name == "Macaroons"
      then letter_p ∷ array (List.◌∷◌ (wrap_in_macaroon codec "cr_seed" "api") List.[])
      else "";
}
