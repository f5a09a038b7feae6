-- ===== src/Repo/Postgres/Releases/Agreement.antt =====
-- The releases of the Postgres repository against those of the repository in memory.
use charm_registry.Prelude.{
  String, true, false, List, [], ◌∷◌, ◌++◌, ◌==◌, ◌≡◌, inl, inr, refl, eq_iff, find?, any,
  if◌then◌else◌, arith, Bool-cases,
}
use charm_registry.Core.{Release}
use charm_registry.Errors.{Result, ok, err}
use charm_registry.Repo.Memory.State.{Memory}
use charm_registry.Repo.Memory.Releases
use charm_registry.Service.Releases.Resolution.{
  resolve_release-elsewhere, resolve_release-replace_release,
}
use charm_registry.Repo.Postgres.Tables.{Tables, has_package}
use charm_registry.Repo.Postgres.Releases.{
  is_at, overwritten, overwrite, upsert, found, replace_release, resolve_release,
}

-- A release but for its id, which Postgres keeps from the first release of the channel, and its
-- package ID, which Postgres takes from the argument and the repository in memory from the release.
abbrev pub without_ids : Release → Release
without_ids release = record release { id = ""; package_id = "" }

abbrev pub seen : Result Release → Result Release
seen (ok release) = ok (without_ids release)
seen (err failed) = err failed

is_at-overwritten :
    (package_id channel : String) (new row : Release)
    → is_at package_id channel (overwritten new row) ≡ is_at package_id channel row
unfolding is_at overwritten
is_at-overwritten package_id channel new row = refl

is_at_iff :
    (package_id channel : String) (row : Release)
    → is_at package_id channel row ≡ true
    → (row.package_id ≡ package_id) × (row.channel ≡ channel)
unfolding is_at
is_at_iff package_id channel row h =
    ground (arith, eq_iff row.package_id package_id, eq_iff row.channel channel)

without_ids-overwritten :
    (new row : Release)
    → is_at new.package_id new.channel row ≡ true
    → without_ids (overwritten new row) ≡ without_ids new
unfolding overwritten
without_ids-overwritten new row h = rw (is_at_iff new.package_id new.channel row h).1 refl

same_key :
    (package_id channel : String) (row new : Release)
    → row.package_id ≡ new.package_id
    → row.channel ≡ new.channel
    → is_at package_id channel row ≡ is_at package_id channel new
unfolding is_at
same_key package_id channel row new p q = rw (p, q) refl

is_at-same :
    (package_id channel : String) (new row : Release)
    → is_at new.package_id new.channel row ≡ true
    → is_at package_id channel row ≡ is_at package_id channel new
is_at-same package_id channel new row h =
    let (same_package, same_channel) = is_at_iff new.package_id new.channel row h in
    same_key package_id channel row new same_package same_channel

is_at-shared :
    (package_id channel : String) (new row : Release)
    → is_at new.package_id new.channel row ≡ false
    → is_at package_id channel row ≡ true
    → is_at package_id channel new ≡ false
unfolding is_at
is_at-shared package_id channel new row other here = ground (
  arith,
  eq_iff row.package_id package_id,
  eq_iff row.channel channel,
  eq_iff new.package_id package_id,
  eq_iff new.channel channel,
  eq_iff row.package_id new.package_id,
  eq_iff row.channel new.channel,
)

found-overwrite :
    (package_id channel : String) (new : Release) (rows : List Release)
    → any (is_at new.package_id new.channel) rows ≡ true
    → seen (found (find? (is_at package_id channel) (overwrite new rows))) ≡ (
        if is_at package_id channel new
        then ok (without_ids new)
        else seen (found (find? (is_at package_id channel) rows)))
unfolding overwrite found
found-overwrite package_id channel new [] h = ground arith
found-overwrite package_id channel new (row ∷ rows) h =
    elim (Bool-cases (is_at new.package_id new.channel row)) [
      | inl same ↦
          let keys = is_at-same package_id channel new row same in
          let ids = without_ids-overwritten new row same in
          elim (Bool-cases (is_at package_id channel new)) [
            | inl here ↦ rw (same, is_at-overwritten, keys, here, ids) refl
            | inr away ↦ rw (same, is_at-overwritten, keys, away) refl
          ]
      | inr other ↦ elim (Bool-cases (is_at package_id channel row)) [
        | inl here ↦ rw (other, here, is_at-shared package_id channel new row other here) refl
        | inr away ↦ rw (other, away) (found-overwrite package_id channel new rows (ground arith))
      ]
    ]

found-append :
    (package_id channel : String) (new : Release) (rows : List Release)
    → any (is_at new.package_id new.channel) rows ≡ false
    → seen (found (find? (is_at package_id channel) (rows ++ new ∷ []))) ≡ (
        if is_at package_id channel new
        then ok (without_ids new)
        else seen (found (find? (is_at package_id channel) rows)))
unfolding found
found-append package_id channel new [] h = ground arith
found-append package_id channel new (row ∷ rows) h =
    let other : is_at new.package_id new.channel row ≡ false = ground arith in
    elim (Bool-cases (is_at package_id channel row)) [
      | inl here ↦ rw (here, is_at-shared package_id channel new row other here) refl
      | inr away ↦ rw away (found-append package_id channel new rows (ground arith))
    ]

-- What an upsert makes of each look-up.
abbrev Upserts : Release → Tables → Tables → Type 0
Upserts new t t' =
    (package_id channel : String)
    → seen (resolve_release package_id channel t') ≡ (
        if is_at package_id channel new
        then ok (without_ids new)
        else seen (resolve_release package_id channel t))

upsert-Upserts :
    (new : Release) (t : Tables)
    → has_package new.package_id t ≡ true
    → any (λ other. other.id == new.id) t.releases ≡ false
    → (t' : Tables) × (upsert new t ≡ ok t') × Upserts new t t'
unfolding upsert resolve_release
upsert-Upserts new t owned fresh =
    elim (Bool-cases (any (is_at new.package_id new.channel) t.releases)) [
      | inl present ↦ (
        record t { releases = overwrite new t.releases },
        rw present refl,
        λ package_id channel. found-overwrite package_id channel new t.releases present,
      )
      | inr absent ↦ (
        record t { releases = t.releases ++ new ∷ [] },
        rw (absent, fresh, owned) refl,
        λ package_id channel. found-append package_id channel new t.releases absent,
      )
    ]

-- The release under the package that ReplaceRelease is called for.
abbrev under : String → Release → Release
under owner release = record release { package_id = owner }

-- What ReplaceRelease makes of each look-up of the repository in memory.
seen-replace_release :
    (owner package_id channel : String) (new : Release) (m m' : Memory)
    → Releases.replace_release owner new m ≡ ok (tt, m')
    → seen (Releases.resolve_release package_id channel m') ≡ (
        if is_at package_id channel (under owner new)
        then ok (without_ids new)
        else seen (Releases.resolve_release package_id channel m))
unfolding is_at
seen-replace_release owner package_id channel new m m' h = elim (Bool-cases (owner == package_id)) [
  | inl same ↦
      let stored = resolve_release-replace_release owner channel new m m' h in
      let key = (eq_iff owner package_id).0 same in
      elim (Bool-cases (new.channel == channel)) [
        | inl here ↦ rw (same, here, ← key, stored, here) refl
        | inr away ↦ rw (same, away, ← key, stored, away) refl
      ]
  | inr other ↦ rw (other, resolve_release-elsewhere owner package_id channel new m m' other h) refl
]

-- Each package and channel has the same release in both, but for those IDs, or none in both.
abbrev pub Agrees : Tables → Memory → Type 0
Agrees t m =
    (package_id channel : String)
    → seen (resolve_release package_id channel t)
      ≡ seen (Releases.resolve_release package_id channel m)

-- Where both repositories hold the same releases but for their IDs and package IDs, ReplaceRelease
-- for a package that exists, of any release under an ID that no release has, succeeds in both and
-- leaves both with the same releases but for their IDs and package IDs.
pub replace_release-Agrees :
    (package_id : String) (release : Release) (t : Tables) (m : Memory)
    → has_package package_id t ≡ true
    → any (λ other. other.id == release.id) t.releases ≡ false
    → Agrees t m
    → (t' : Tables) × (m' : Memory) × (replace_release package_id release t ≡ ok t')
      × (Releases.replace_release package_id release m ≡ ok (tt, m'))
      × Agrees t' m'
unfolding replace_release Releases.replace_release
replace_release-Agrees package_id release t m owned fresh agree =
    let (t', upserted, after) = upsert-Upserts (under package_id release) t owned fresh in
    (
      t',
      _,
      upserted,
      refl,
      λ asked channel.
          rw
            (
              after asked channel,
              seen-replace_release package_id asked channel release m _ refl,
              agree asked channel,
            )
            refl,
    )
