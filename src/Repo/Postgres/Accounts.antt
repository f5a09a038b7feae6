-- ===== src/Repo/Postgres/Accounts.antt =====
-- internal/repo/postgres_accounts.go: accounts and store tokens. `now` is the server's NOW().
pub mod Revocation
use charm_registry.Prelude.{
  String, Bool, true, false, not, ◌&&◌, ◌||◌, Option, none, some, List, [], ◌∷◌, ◌++◌, ◌==◌, ltb,
  leb, find?, keep, any, is_set, if◌then◌else◌,
}
use charm_registry.Core.{Time, Account, StoreToken}
use charm_registry.Errors.{Result, ok, err, not_found}
use charm_registry.Repo.Postgres.Tables.{Tables, duplicate_key, missing_reference}

-- ON CONFLICT (subject) DO UPDATE SET: the row keeps its id and its time.
abbrev pub refreshed : Account → Account → Account
refreshed excluded row = record row {
  username = excluded.username;
  display_name = excluded.display_name;
  email = excluded.email;
  validation = excluded.validation;
}

unfoldable pub refresh : Account → List Account → List Account
refresh excluded [] = []
refresh excluded (row ∷ rows) =
    let rest = refresh excluded rows in
    if row.subject == excluded.subject then refreshed excluded row ∷ rest else row ∷ rest

-- EnsureAccount
unfoldable pub ensure_account : Account → Tables → Result (Account × Tables)
unfolding refresh
ensure_account account t = elim (find? (λ row. row.subject == account.subject) t.accounts) [
  | some row ↦ ok (refreshed account row, record t { accounts = refresh account t.accounts })
  | none ↦
      if any (λ row. row.id == account.id) t.accounts
      then err duplicate_key
      else ok (account, record t { accounts = t.accounts ++ account ∷ [] })
]

-- QueryRow, Scan and the test for pgx.ErrNoRows.
unfoldable pub one_row {ℓ} : {A : Type ℓ} → Option A → Result A
one_row none = err not_found
one_row (some row) = ok row

-- GetAccountByID
unfoldable pub get_account_by_id : String → Tables → Result Account
unfolding one_row
get_account_by_id account_id t = one_row (find? (λ row. row.id == account_id) t.accounts)

-- CreateStoreToken: its session and its hash are unique, and its account exists.
unfoldable pub create_store_token : StoreToken → Tables → Result Tables
create_store_token token t =
    if any (λ row. row.session_id == token.session_id || row.token_hash == token.token_hash)
      t.store_tokens
    then err duplicate_key
    else if any (λ row. row.id == token.account_id) t.accounts
    then ok (record t { store_tokens = t.store_tokens ++ token ∷ [] })
    else err missing_reference

-- The WHERE of ListStoreTokens.
unfoldable pub is_listed : Time → String → Bool → StoreToken → Bool
is_listed now account_id include_inactive row =
    row.account_id == account_id
    && (include_inactive || not (is_set row.revoked_at) && ltb now row.valid_until)

-- ORDER BY valid_since ASC; equal times may come in any order.
unfoldable pub insert_by_start : StoreToken → List StoreToken → List StoreToken
insert_by_start row [] = row ∷ []
insert_by_start row (other ∷ rows) =
    let rest = insert_by_start row rows in
    if leb row.valid_since other.valid_since then row ∷ other ∷ rows else other ∷ rest

unfoldable pub by_start : List StoreToken → List StoreToken
unfolding insert_by_start
by_start [] = []
by_start (row ∷ rows) = insert_by_start row (by_start rows)

-- ListStoreTokens
unfoldable pub list_store_tokens : Time → String → Bool → Tables → Result (List StoreToken)
unfolding by_start is_listed
list_store_tokens now account_id include_inactive t =
    ok (by_start (keep (is_listed now account_id include_inactive) t.store_tokens))

-- The WHERE of RevokeStoreToken.
unfoldable pub is_session : String → String → StoreToken → Bool
is_session account_id session_id row = row.account_id == account_id && row.session_id == session_id

-- The SET of RevokeStoreToken.
abbrev pub revoked_row : Time → String → StoreToken → StoreToken
revoked_row now revoked_by row = record row { revoked_at = some now; revoked_by = some revoked_by }

unfoldable pub revoke_rows : Time → String → String → String → List StoreToken → List StoreToken
unfolding is_session
revoke_rows now account_id session_id revoked_by [] = []
revoke_rows now account_id session_id revoked_by (row ∷ rows) =
    (if is_session account_id session_id row then revoked_row now revoked_by row else row)
    ∷ revoke_rows now account_id session_id revoked_by rows

-- RevokeStoreToken
unfoldable pub revoke_store_token : Time → String → String → String → Tables → Result Tables
unfolding revoke_rows is_session
revoke_store_token now account_id session_id revoked_by t =
    if any (is_session account_id session_id) t.store_tokens
    then ok (record t {
      store_tokens = revoke_rows now account_id session_id revoked_by t.store_tokens;
    })
    else err not_found

-- JOIN accounts a ON a.id = t.account_id, for the row of a token.
abbrev pub paired : StoreToken → Option Account → Result (StoreToken × Account)
paired token none = err not_found
paired token (some account) = ok (token, account)

unfoldable pub joined : List Account → Option StoreToken → Result (StoreToken × Account)
joined accounts none = err not_found
joined accounts (some token) = paired token (find? (λ row. row.id == token.account_id) accounts)

-- FindStoreTokenByHash
unfoldable pub find_store_token_by_hash : String → Tables → Result (StoreToken × Account)
unfolding joined
find_store_token_by_hash hash t =
    joined t.accounts (find? (λ row. row.token_hash == hash) t.store_tokens)
