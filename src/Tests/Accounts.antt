-- ===== src/Tests/Accounts.antt =====
-- The theorems on accounts and tokens of the in-memory repository, at small states.
use charm_registry.Prelude.{◌≡◌, refl, [], ◌∷◌}
use charm_registry.Prelude.Maps.{lookup, insert}
use charm_registry.Core.{Account}
use charm_registry.Errors.{ok, err, not_found}
use charm_registry.Repo.Memory.State.{Memory, new_memory}
use charm_registry.Repo.Memory.Accounts.{
  ensure_account, create_store_token, find_store_token_by_hash, revoke_store_token, revoked,
  find_session,
}
use charm_registry.Repo.Memory.Accounts.Identities.{find_store_token_by_hash-create_store_token}
use charm_registry.Repo.Memory.Accounts.Sessions.{IsRevoked, revoke_store_token-IsRevoked}
use charm_registry.Tests.Fixtures.{in_order, alice, token}

abbrev renamed : Account
renamed = record alice { id = "a2"; username = "alice2" }

abbrev kept : Account
kept = record alice { username = "alice2" }

abbrev with_account : Account → Memory
with_account a = record new_memory { accounts = ("s1", a) ∷ []; accounts_by_id = ("a1", a) ∷ [] }

first_time : ensure_account 1 alice new_memory ≡ ok (alice, with_account alice)
unfolding ensure_account lookup insert
first_time = refl

second_time : ensure_account 2 renamed (with_account alice) ≡ ok (kept, with_account kept)
unfolding ensure_account lookup insert
second_time = refl

abbrev with_token : Memory
with_token = record (with_account alice) { tokens = ("h1", token) ∷ [] }

stored : create_store_token token (with_account alice) ≡ ok (tt, with_token)
unfolding create_store_token insert
stored = refl

find_store_token_by_hash-create_store_token_example :
    find_store_token_by_hash "h1" with_token ≡ ok (token, alice)
find_store_token_by_hash-create_store_token_example =
    find_store_token_by_hash-create_store_token 1 alice alice token new_memory (with_account alice)
      with_token first_time refl stored

abbrev after_revoking : Memory
after_revoking = record with_token { tokens = ("h1", revoked 5 "a1" token) ∷ [] }

revoking : revoke_store_token in_order 5 "a1" "session" "a1" with_token ≡ ok (tt, after_revoking)
unfolding revoke_store_token find_session insert
revoking = refl

revoke_store_token-IsRevoked_example : IsRevoked 5 "a1" "session" "a1" with_token after_revoking
revoke_store_token-IsRevoked_example =
    revoke_store_token-IsRevoked in_order 5 "a1" "session" "a1" with_token after_revoking revoking

missing : revoke_store_token in_order 5 "a1" "other" "a1" with_token ≡ err not_found
unfolding revoke_store_token find_session
missing = refl
