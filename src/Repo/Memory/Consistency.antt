-- ===== src/Repo/Memory/Consistency.antt =====
-- The state of the repository in memory between two calls.
use charm_registry.Prelude.{String, ◌≡◌, some, eq_iff, arith, Option-cases, inl, inr}
use charm_registry.Prelude.Maps.{Map, lookup, lookup-insert, insert}
use charm_registry.Prelude.Keyed.{Entries}
use charm_registry.Core.{Account, StoreToken, Upload, Release, ResourceDefinition, Time}
use charm_registry.Errors.{ok}
use charm_registry.Repo.Memory.State.{Memory}
use charm_registry.Repo.Memory.Accounts.{ensure_account}

-- The two maps of accounts hold the same accounts, under their subjects and under their IDs.
pub record AccountsAgree (accounts by_ids : Map Account) : Type 0 where
  pub by_subject :
      (s : String) (a : Account)
      → lookup s accounts ≡ some a
      → (a.subject ≡ s) × (lookup a.id by_ids ≡ some a)
  pub by_id :
      (i : String) (a : Account)
      → lookup i by_ids ≡ some a
      → (a.id ≡ i) × (lookup a.subject accounts ≡ some a)

-- A token is stored under its hash, an upload under its ID, a release under its channel and a
-- definition under its package and its name.
abbrev pub HashOf : String → StoreToken → Type 0
HashOf hash token = token.token_hash ≡ hash

abbrev pub UploadAt : String → Upload → Type 0
UploadAt id upload = upload.id ≡ id

abbrev pub OnChannel : String → Release → Type 0
OnChannel channel release = release.channel ≡ channel

abbrev pub DefinedIn : String → String → ResourceDefinition → Type 0
DefinedIn package_id name def = (def.package_id ≡ package_id) × (def.name ≡ name)

abbrev pub ReleasesOf : String → Map Release → Type 0
ReleasesOf package_id = Entries OnChannel

abbrev pub DefinitionsOf : String → Map ResourceDefinition → Type 0
DefinitionsOf package_id = Entries (DefinedIn package_id)

AccountsAgree-insert :
    (a : Account) (accounts by_ids : Map Account)
    → ((other : Account) → lookup a.subject accounts ≡ some other → other.id ≡ a.id)
    → ((other : Account) → lookup a.id by_ids ≡ some other → other.subject ≡ a.subject)
    → AccountsAgree accounts by_ids
    → AccountsAgree (insert a.subject a accounts) (insert a.id a by_ids)
AccountsAgree-insert a accounts by_ids same_id same_subject x = record {
  by_subject = λ s b h. ground (
    arith,
    lookup-insert a.subject s a accounts,
    lookup-insert a.id b.id a by_ids,
    eq_iff a.subject s,
    eq_iff a.id b.id,
    x.by_subject s b,
    same_subject b,
  );
  by_id = λ i b h. ground (
    arith,
    lookup-insert a.id i a by_ids,
    lookup-insert a.subject b.subject a accounts,
    eq_iff a.id i,
    eq_iff a.subject b.subject,
    x.by_id i b,
    same_id b,
  );
}

-- What EnsureAccount assigns, in either case; `b` is the account that it returns.
record Ensured (a b : Account) (m m' : Memory) : Type 0 where
  subject : b.subject ≡ a.subject
  stored : m'.accounts ≡ insert b.subject b m.accounts
  indexed : m'.accounts_by_id ≡ insert b.id b m.accounts_by_id
  same_id : (other : Account) → lookup b.subject m.accounts ≡ some other → other.id ≡ b.id
  same_subject :
      (other : Account) → lookup b.id m.accounts_by_id ≡ some other → other.subject ≡ b.subject

ensure_account-Ensured :
    (t : Time) (a b : Account) (m m' : Memory)
    → AccountsAgree m.accounts m.accounts_by_id
    → ((other : Account) → lookup a.id m.accounts_by_id ≡ some other → other.subject ≡ a.subject)
    → ensure_account t a m ≡ ok (b, m')
    → Ensured a b m m'
unfolding ensure_account
ensure_account-Ensured t a b m m' x fresh e = elim (Option-cases (lookup a.subject m.accounts)) [
  | inl new ↦ record {
    subject = ground arith;
    stored = ground arith;
    indexed = ground arith;
    same_id = λ other h. ground arith;
    same_subject = λ other h. ground (arith, fresh other);
  }
  | inr (old, known) ↦
      let (own, kept) = x.by_subject a.subject old known in
      record {
        subject = ground arith;
        stored = ground arith;
        indexed = ground arith;
        same_id = λ other h. ground arith;
        same_subject = λ other h. ground arith;
      }
]

pub ensure_account-AccountsAgree :
    (t : Time) (a b : Account) (m m' : Memory)
    → AccountsAgree m.accounts m.accounts_by_id
    → ((other : Account) → lookup a.id m.accounts_by_id ≡ some other → other.subject ≡ a.subject)
    → ensure_account t a m ≡ ok (b, m')
    → AccountsAgree m'.accounts m'.accounts_by_id
ensure_account-AccountsAgree t a b m m' x fresh e =
    let y = ensure_account-Ensured t a b m m' x fresh e in
    rw (y.stored, y.indexed)
      (AccountsAgree-insert b m.accounts m.accounts_by_id y.same_id y.same_subject x)
