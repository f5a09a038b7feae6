-- ===== src/Repo/Memory/Accounts.antt =====
-- Accounts and store tokens of the in-memory repository.
pub mod Identities
pub mod Sessions
pub mod Listing
use charm_registry.Prelude.{
  ℕ, String, Bool, true, false, not, ◌&&◌, ◌||◌, Option, none, some, List, [], ◌∷◌, ◌==◌, ltb, leb,
  keep, is_set, if◌then◌else◌, map,
}
use charm_registry.Prelude.Maps.{Map, lookup, insert}
use charm_registry.Core.{Time, Account, StoreToken}
use charm_registry.Errors.{Result, ok, err, not_found}
use charm_registry.Repo.Memory.State.{Memory, Platform}

-- EnsureAccount; `now` is its time.Now
unfoldable pub ensure_account : Time → Account → Memory → Result (Account × Memory)
ensure_account now account m = elim (lookup account.subject m.accounts) [
  | none ↦
      let created = record account { created_at = now } in
      ok (
        created,
        record m {
          accounts = insert account.subject created m.accounts;
          accounts_by_id = insert account.id created m.accounts_by_id;
        },
      )
  | some existing ↦
      let updated = record existing {
        email = account.email;
        display_name = account.display_name;
        username = account.username;
      } in
      ok (
        updated,
        record m {
          accounts = insert account.subject updated m.accounts;
          accounts_by_id = insert existing.id updated m.accounts_by_id;
        },
      )
]

-- A lookup that answers ErrNotFound for a missing key.
unfoldable pub find {ℓ} : {V : Type ℓ} → String → Map V → Result V
find k m = elim (lookup k m) [ none ↦ err not_found | some v ↦ ok v ]

-- GetAccountByID
unfoldable pub get_account_by_id : String → Memory → Result Account
unfolding find
get_account_by_id account_id m = find account_id m.accounts_by_id

-- CreateStoreToken
unfoldable pub create_store_token : StoreToken → Memory → Result (Unit {0} × Memory)
create_store_token token m = ok (tt, record m { tokens = insert token.token_hash token m.tokens })

-- The filter of ListStoreTokens.
unfoldable pub is_listed : Time → String → Bool → StoreToken → Bool
is_listed now account_id include_inactive token =
    token.account_id == account_id
    && (include_inactive || not (is_set token.revoked_at || ltb token.valid_until now))

-- Insertion by `ValidSince` of slices.SortFunc; equal times may come in any order.
unfoldable pub insert_by_time : StoreToken → List StoreToken → List StoreToken
insert_by_time t [] = t ∷ []
insert_by_time t (u ∷ us) =
    if leb t.valid_since u.valid_since then t ∷ u ∷ us else u ∷ insert_by_time t us

unfoldable pub sort_by_time : List StoreToken → List StoreToken
unfolding insert_by_time
sort_by_time [] = []
sort_by_time (t ∷ ts) = insert_by_time t (sort_by_time ts)

-- The values of a map, in its order.
abbrev pub values {ℓ} : {V : Type ℓ} → Map V → List V
values m = map (λ e. e.1) m

-- RevokeStoreToken's assignment to the token found under `hash`.
abbrev pub revoked : Time → String → StoreToken → StoreToken
revoked now revoked_by token = record token { revoked_at = some now; revoked_by = some revoked_by }

-- The loop of RevokeStoreToken: the first token in the order of the loop that is the account's and
-- the session's.
unfoldable pub find_session : String → String → Map StoreToken → Option (String × StoreToken)
find_session account_id session_id [] = none
find_session account_id session_id ((hash, token) ∷ rest) =
    if token.account_id == account_id && token.session_id == session_id
    then some (hash, token)
    else find_session account_id session_id rest

-- FindStoreTokenByHash
unfoldable pub find_store_token_by_hash : String → Memory → Result (StoreToken × Account)
unfolding find
find_store_token_by_hash hash m = elim (lookup hash m.tokens) [
  | none ↦ err not_found
  | some token ↦ elim (lookup token.account_id m.accounts_by_id) [
    | none ↦ err not_found
    | some account ↦ ok (token, account)
  ]
]

module _ (order : Platform) where
  -- ListStoreTokens
  unfoldable pub list_store_tokens : Time → String → Bool → Memory → Result (List StoreToken)
  unfolding sort_by_time is_listed
  list_store_tokens now account_id include_inactive m = ok (
      sort_by_time
        (keep (is_listed now account_id include_inactive) (values (order.visit m.tokens))))

  -- RevokeStoreToken
  unfoldable pub revoke_store_token :
      Time → String → String → String → Memory → Result (Unit {0} × Memory)
  unfolding find_session
  revoke_store_token now account_id session_id revoked_by m =
      elim (find_session account_id session_id (order.visit m.tokens)) [
        | none ↦ err not_found
        | some (hash, token) ↦
            ok (tt, record m { tokens = insert hash (revoked now revoked_by token) m.tokens })
      ]
