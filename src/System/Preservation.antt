-- ===== src/System/Preservation.antt =====
-- The writes to other maps than those of packages and revisions keep the state consistent.
use mathlib.Core.Path.{subst}
use mathlib.Core.Logic.{∥∥₁_elim}
use mathlib.Core.List.Perm
use charm_registry.Prelude.{
  String, ◌≡◌, refl, ap, some, List, arith, Option-cases, inl, inr, Option, ℤ, ◌==◌, true, eq_iff,
}
use charm_registry.Prelude.Maps.{lookup, insert}
use charm_registry.Prelude.Keyed.{Entries, Entries-insert, Entries-lookup, Entries-Memᴰ}
use charm_registry.Errors.{ok, ok_injective}
use charm_registry.Repo.Memory.State.{Memory, Platform}
use charm_registry.Repo.Memory.Consistency.{
  ensure_account-AccountsAgree, HashOf, UploadAt, OnChannel, ReleasesOf, DefinedIn, DefinitionsOf,
}
use charm_registry.Core.{StoreToken, Time, Account, Upload, ApiError, Release, ResourceDefinition}
use charm_registry.Repo.Memory.Accounts.{
  create_store_token, ensure_account, revoke_store_token, revoked, find_session,
}
use charm_registry.Repo.Memory.Accounts.Sessions.{find_session-eq-some}
use charm_registry.Repo.Memory.Releases.{replace_release, releases_of}
use charm_registry.Repo.Memory.Resources.{upsert_resource_definition, definitions_of}
use charm_registry.Repo.Memory.Revisions.{create_upload, approve_upload, reviewed}
use charm_registry.System.Consistency.{IsConsistent, besides_packages}

ensure_account-others :
    (t : Time) (a b : Account) (m m' : Memory)
    → ensure_account t a m ≡ ok (b, m')
    → (m.packages ≡ m'.packages)
      × (m.packages_by_id ≡ m'.packages_by_id)
      × (m.revisions ≡ m'.revisions)
      × (m.tokens ≡ m'.tokens)
      × (m.uploads ≡ m'.uploads)
      × (m.releases ≡ m'.releases)
      × (m.resource_defs ≡ m'.resource_defs)
unfolding ensure_account
ensure_account-others t a b m m' e = (
  ground arith,
  ground arith,
  ground arith,
  ground arith,
  ground arith,
  ground arith,
  ground arith,
)

pub ensure_account-IsConsistent :
    (t : Time) (a b : Account) (m m' : Memory)
    → ((other : Account) → lookup a.id m.accounts_by_id ≡ some other → other.subject ≡ a.subject)
    → ensure_account t a m ≡ ok (b, m')
    → IsConsistent m
    → IsConsistent m'
ensure_account-IsConsistent t a b m m' fresh e x =
    let (p, q, r, tk, up, rl, df) = ensure_account-others t a b m m' e in
    besides_packages m m' x p q r (ensure_account-AccountsAgree t a b m m' x.accounts fresh e)
      (rw (← tk) x.tokens) (rw (← up) x.uploads) (rw (← rl) x.releases) (rw (← df) x.definitions)

pub create_store_token-IsConsistent :
    (token : StoreToken) (m m' : Memory)
    → create_store_token token m ≡ ok (tt, m')
    → IsConsistent m
    → IsConsistent m'
unfolding create_store_token
create_store_token-IsConsistent token m m' e x =
    subst IsConsistent (ap (λ p. p.1) (ok_injective e)) (
      besides_packages m _ x refl refl refl x.accounts
        (Entries-insert HashOf token.token_hash token m.tokens refl x.tokens) x.uploads x.releases
        x.definitions)

pub revoke_store_token-IsConsistent :
    (order : Platform) (t : Time) (acc ses by : String) (m m' : Memory)
    → revoke_store_token order t acc ses by m ≡ ok (tt, m')
    → IsConsistent m
    → IsConsistent m'
unfolding revoke_store_token
revoke_store_token-IsConsistent order t acc ses by m m' e x =
    elim (Option-cases (find_session acc ses (order.visit m.tokens))) [
      | inl missing ↦ ground arith
      | inr ((hash, token), found) ↦
          let (listed, _) = find_session-eq-some acc ses (order.visit m.tokens) hash token found in
          let tested : (token.token_hash == hash) ≡ true =
            ∥∥₁_elim ((Perm.mem_iff (order.visit-perm m.tokens)).0 ∣ listed ∣₁) (hlevel) λ held.
              (eq_iff token.token_hash hash).1
                (Entries-Memᴰ HashOf hash token m.tokens held x.tokens) in
          let own = (eq_iff token.token_hash hash).0 tested in
          let changed = revoked t by token in
          let same : record m { tokens = insert hash changed m.tokens } ≡ m' = ground arith in
          subst IsConsistent same (
            besides_packages m _ x refl refl refl x.accounts
              (Entries-insert HashOf hash changed m.tokens own x.tokens) x.uploads x.releases
              x.definitions)
    ]

pub create_upload-IsConsistent :
    (upload : Upload) (m m' : Memory)
    → create_upload upload m ≡ ok (tt, m')
    → IsConsistent m
    → IsConsistent m'
unfolding create_upload
create_upload-IsConsistent upload m m' e x = subst IsConsistent (ap (λ p. p.1) (ok_injective e)) (
    besides_packages m _ x refl refl refl x.accounts x.tokens
      (Entries-insert UploadAt upload.id upload m.uploads refl x.uploads) x.releases x.definitions)

pub approve_upload-IsConsistent :
    (t : Time) (id : String) (number : Option ℤ) (errors : List ApiError) (m m' : Memory)
    → approve_upload t id number errors m ≡ ok (tt, m')
    → IsConsistent m
    → IsConsistent m'
unfolding approve_upload
approve_upload-IsConsistent t id number errors m m' e x =
    elim (Option-cases (lookup id m.uploads)) [
      | inl missing ↦ ground arith
      | inr (upload, held) ↦
          let reviewed_upload = reviewed t number errors upload in
          let same : record m { uploads = insert id reviewed_upload m.uploads } ≡ m' =
            ground arith in
          subst IsConsistent same (
            besides_packages m _ x refl refl refl x.accounts x.tokens
              (Entries-insert UploadAt id reviewed_upload m.uploads
                (Entries-lookup UploadAt id upload m.uploads x.uploads held) x.uploads)
              x.releases x.definitions)
    ]

releases_of-OnChannel :
    (package_id : String) (m : Memory)
    → Entries ReleasesOf m.releases
    → Entries OnChannel (releases_of package_id m)
unfolding releases_of
releases_of-OnChannel package_id m all = elim (Option-cases (lookup package_id m.releases)) [
  | inl missing ↦ rw missing tt
  | inr (found, held) ↦ rw held (Entries-lookup ReleasesOf package_id found m.releases all held)
]

definitions_of-DefinedIn :
    (package_id : String) (m : Memory)
    → Entries DefinitionsOf m.resource_defs
    → Entries (DefinedIn package_id) (definitions_of package_id m)
unfolding definitions_of
definitions_of-DefinedIn package_id m all =
    elim (Option-cases (lookup package_id m.resource_defs)) [
      | inl missing ↦ rw missing tt
      | inr (found, held) ↦
          rw held (Entries-lookup DefinitionsOf package_id found m.resource_defs all held)
    ]

pub replace_release-IsConsistent :
    (package_id : String) (release : Release) (m m' : Memory)
    → replace_release package_id release m ≡ ok (tt, m')
    → IsConsistent m
    → IsConsistent m'
unfolding replace_release
replace_release-IsConsistent package_id release m m' e x =
    subst IsConsistent (ap (λ p. p.1) (ok_injective e)) (
      besides_packages m _ x refl refl refl x.accounts x.tokens x.uploads
        (Entries-insert ReleasesOf package_id _ m.releases
          (Entries-insert OnChannel release.channel release (releases_of package_id m) refl
            (releases_of-OnChannel package_id m x.releases))
          x.releases)
        x.definitions)

pub upsert_resource_definition-IsConsistent :
    (def def' : ResourceDefinition) (m m' : Memory)
    → upsert_resource_definition def m ≡ ok (def', m')
    → IsConsistent m
    → IsConsistent m'
unfolding upsert_resource_definition
upsert_resource_definition-IsConsistent def def' m m' e x =
    subst IsConsistent (ap (λ p. p.1) (ok_injective e)) (
      besides_packages m _ x refl refl refl x.accounts x.tokens x.uploads x.releases (
        Entries-insert DefinitionsOf def.package_id _ m.resource_defs
          (Entries-insert (DefinedIn def.package_id) def.name def (definitions_of def.package_id m)
            (refl, refl) (definitions_of-DefinedIn def.package_id m x.definitions))
          x.definitions))
