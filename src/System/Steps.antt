-- ===== src/System/Steps.antt =====
-- Runs of calls of the repository of internal/repo/memory.go.
use charm_registry.Prelude.{String, ◌≡◌, Option, some, List, ℤ}
use charm_registry.Prelude.Maps.{lookup}
use charm_registry.Core.{
  Time, Account, StoreToken, Upload, ApiError, Revision, ResourceDefinition, ResourceRevision,
  Release,
}
use charm_registry.Errors.{ok}
use charm_registry.Repo.Memory.State.{Memory, Platform}
use charm_registry.Repo.Memory.Accounts.{ensure_account, create_store_token, revoke_store_token}
use charm_registry.Repo.Memory.Revisions.{
  create_upload, approve_upload, create_revision, get_latest_revision,
}
use charm_registry.Repo.Memory.Resources.{
  upsert_resource_definition, create_resource_revision, update_resource_revision,
}
use charm_registry.Repo.Memory.Releases.{replace_release}
use charm_registry.Repo.Memory.Packages.Catalogue.{Change, IsProper, perform, view}
use charm_registry.Service.Revisions.{next_number}

-- The order in which the loops of RevokeStoreToken range.
module _ (order : Platform) where
  -- One call of a method of the repository that succeeds, under what the service sees to: the ID of a
  -- new account or package is new, an update keeps the ID of its package, and a revision has the
  -- number that PushRevision gives it. The calls of different requests may come in any order, as long
  -- as the look-up of that number and the call that uses it are not parted.
  pub data Step : Memory → Memory → Type 0 where
    ensuring :
        {m m' : Memory} (t : Time) (a b : Account)
        → ((other : Account)
            → lookup a.id m.accounts_by_id ≡ some other
            → other.subject ≡ a.subject)
        → ensure_account t a m ≡ ok (b, m')
        → Step m m'
    storing_token :
        {m m' : Memory} (token : StoreToken) → create_store_token token m ≡ ok (tt, m') → Step m m'
    revoking :
        {m m' : Memory} (t : Time) (account_id session_id by : String)
        → revoke_store_token order t account_id session_id by m ≡ ok (tt, m')
        → Step m m'
    changing :
        {m m' : Memory} (change : Change)
        → IsProper change (view m)
        → perform change m ≡ ok m'
        → Step m m'
    uploading : {m m' : Memory} (upload : Upload) → create_upload upload m ≡ ok (tt, m') → Step m m'
    reviewing :
        {m m' : Memory} (t : Time) (id : String) (number : Option ℤ) (errors : List ApiError)
        → approve_upload t id number errors m ≡ ok (tt, m')
        → Step m m'
    revising :
        {m m' : Memory} (r : Revision)
        → next_number (get_latest_revision r.package_id m) ≡ ok r.revision
        → create_revision r m ≡ ok (tt, m')
        → Step m m'
    declaring :
        {m m' : Memory} (def def' : ResourceDefinition)
        → upsert_resource_definition def m ≡ ok (def', m')
        → Step m m'
    adding_resource :
        {m m' : Memory} (r : ResourceRevision)
        → create_resource_revision r m ≡ ok (tt, m')
        → Step m m'
    changing_resource :
        {m m' : Memory} (r : ResourceRevision)
        → update_resource_revision r m ≡ ok (tt, m')
        → Step m m'
    releasing :
        {m m' : Memory} (package_id : String) (release : Release)
        → replace_release package_id release m ≡ ok (tt, m')
        → Step m m'

  -- The states that steps lead to.
  pub data Reach (m : Memory) : Memory → Type 0 where
    here : Reach m m
    next : {m' m'' : Memory} → Reach m m' → Step m' m'' → Reach m m''
