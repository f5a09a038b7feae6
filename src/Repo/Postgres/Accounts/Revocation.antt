-- ===== src/Repo/Postgres/Accounts/Revocation.antt =====
-- What RevokeStoreToken makes of the tokens that a hash finds.
use charm_registry.Prelude.{
  String, true, ◌&&◌, Option, none, some, List, [], ◌∷◌, ◌==◌, ◌≡◌, inl, inr, refl, ap, ◌∙◌, any,
  find?, if◌then◌else◌, arith, Bool-cases,
}
use charm_registry.Core.{Time, Account, StoreToken}
use charm_registry.Errors.{Result, ok, err}
use charm_registry.Repo.Postgres.Tables.{Tables}
use charm_registry.Repo.Postgres.Accounts.{
  is_session, revoke_rows, revoke_store_token, paired, joined, find_store_token_by_hash,
}

module _ (now : Time) (account_id session_id revoked_by : String) where
  -- What becomes of a token: one of the account and the session is revoked now and by the given
  -- account and otherwise as it was, every other one is as it was.
  abbrev pub after : StoreToken → StoreToken
  after row =
      if row.account_id == account_id && row.session_id == session_id
      then record {
        session_id = row.session_id;
        token_hash = row.token_hash;
        account_id = row.account_id;
        description = row.description;
        packages = row.packages;
        channels = row.channels;
        permissions = row.permissions;
        valid_since = row.valid_since;
        valid_until = row.valid_until;
        revoked_at = some now;
        revoked_by = some revoked_by;
      }
      else row

  token_hash-after : (row : StoreToken) → (after row).token_hash ≡ row.token_hash
  token_hash-after row = ground arith

  -- The answer of FindStoreTokenByHash with the token as the revocation leaves it.
  abbrev pub found_after : Result (StoreToken × Account) → Result (StoreToken × Account)
  found_after (ok (token, account)) = ok (after token, account)
  found_after (err failed) = err failed

  abbrev after? : Option StoreToken → Option StoreToken
  after? none = none
  after? (some row) = some (after row)

  find?-revoke_rows :
      (hash : String) (rows : List StoreToken)
      → find?
          (λ row. row.token_hash == hash)
          (revoke_rows now account_id session_id revoked_by rows)
        ≡ after? (find? (λ row. row.token_hash == hash) rows)
  unfolding revoke_rows is_session
  find?-revoke_rows hash [] = refl
  find?-revoke_rows hash (row ∷ rows) = elim (Bool-cases (row.token_hash == hash)) [
    | inl here ↦ rw (token_hash-after row, here) refl
    | inr away ↦ rw (token_hash-after row, away) (find?-revoke_rows hash rows)
  ]

  account_id-after : (row : StoreToken) → (after row).account_id ≡ row.account_id
  account_id-after row = ground arith

  found_after-paired :
      (token : StoreToken) (owner : Option Account)
      → paired (after token) owner ≡ found_after (paired token owner)
  found_after-paired token none = refl
  found_after-paired token (some account) = refl

  joined-after? :
      (accounts : List Account) (token : Option StoreToken)
      → joined accounts (after? token) ≡ found_after (joined accounts token)
  unfolding joined
  joined-after? accounts none = refl
  joined-after? accounts (some token) =
      ap (λ key. paired (after token) (find? (λ row. row.id == key) accounts))
        (account_id-after token)
      ∙ found_after-paired token (find? (λ row. row.id == token.account_id) accounts)

  -- Where the account has the session, RevokeStoreToken succeeds, and every hash then finds what
  -- it found before, revoked now and by the caller where it is a token of that account and session,
  -- unchanged where it is not.
  pub find_store_token_by_hash-revoke_store_token :
      (t : Tables)
      → any (λ row. row.account_id == account_id && row.session_id == session_id) t.store_tokens
        ≡ true
      → (t' : Tables) × (revoke_store_token now account_id session_id revoked_by t ≡ ok t')
        × ((hash : String)
            → find_store_token_by_hash hash t' ≡ found_after (find_store_token_by_hash hash t))
  unfolding revoke_store_token is_session find_store_token_by_hash
  find_store_token_by_hash-revoke_store_token t present = (
    record t { store_tokens = revoke_rows now account_id session_id revoked_by t.store_tokens },
    rw present refl,
    λ hash. rw (find?-revoke_rows hash t.store_tokens) (joined-after? t.accounts _),
  )
