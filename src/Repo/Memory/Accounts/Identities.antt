-- ===== src/Repo/Memory/Accounts/Identities.antt =====
-- Accounts keep their identity.
use charm_registry.Prelude.{◌≡◌, some, eq_refl, arith}
use charm_registry.Prelude.Maps.{lookup, lookup-insert}
use charm_registry.Core.{Time, Account, StoreToken}
use charm_registry.Errors.{ok}
use charm_registry.Repo.Memory.State.{Memory}
use charm_registry.Repo.Memory.Accounts.{
  ensure_account, create_store_token, find_store_token_by_hash,
}

ensure_account-eq-ok :
    (now : Time) (a b : Account) (m m' : Memory)
    → ensure_account now a m ≡ ok (b, m')
    → (lookup a.subject m'.accounts ≡ some b) × (lookup b.id m'.accounts_by_id ≡ some b)
unfolding ensure_account
ensure_account-eq-ok now a b m m' e = (
  ground (arith, lookup-insert a.subject a.subject b m.accounts, eq_refl a.subject),
  ground (arith, lookup-insert b.id b.id b m.accounts_by_id, eq_refl b.id),
)

ensure_account-existing :
    (u : Time) (b c d : Account) (m m' : Memory)
    → lookup b.subject m.accounts ≡ some c
    → ensure_account u b m ≡ ok (d, m')
    → (d.id ≡ c.id)
      × (d.created_at ≡ c.created_at)
      × (d.email ≡ b.email)
      × (d.display_name ≡ b.display_name)
      × (d.username ≡ b.username)
unfolding ensure_account
ensure_account-existing u b c d m m' found f = ground arith

-- A subject that signs in again gets the account that it had: the same ID and creation time, with
-- the e-mail address, display name and user name of the later sign-in.
pub ensure_account_twice :
    (t u : Time) (a b c d : Account) (m m' m'' : Memory)
    → a.subject ≡ b.subject
    → ensure_account t a m ≡ ok (c, m')
    → ensure_account u b m' ≡ ok (d, m'')
    → (d.id ≡ c.id)
      × (d.created_at ≡ c.created_at)
      × (d.email ≡ b.email)
      × (d.display_name ≡ b.display_name)
      × (d.username ≡ b.username)
ensure_account_twice t u a b c d m m' m'' same e f =
    let (found, _) = ensure_account-eq-ok t a c m m' e in
    ensure_account-existing u b c d m' m'' (rw (← same) found) f

-- A token that is stored for an account is found by its hash, with the account as the latest
-- sign-in of the account's subject left it.
pub find_store_token_by_hash-create_store_token :
    (now : Time) (a b : Account) (token : StoreToken) (m m' m'' : Memory)
    → ensure_account now a m ≡ ok (b, m')
    → token.account_id ≡ b.id
    → create_store_token token m' ≡ ok (tt, m'')
    → find_store_token_by_hash token.token_hash m'' ≡ ok (token, b)
unfolding find_store_token_by_hash create_store_token
find_store_token_by_hash-create_store_token now a b token m m' m'' e owner f =
    let (_, known) = ensure_account-eq-ok now a b m m' e in
    ground (
      arith,
      known,
      lookup-insert token.token_hash token.token_hash token m'.tokens,
      eq_refl token.token_hash,
    )
