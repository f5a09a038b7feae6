-- ===== src/Repo/Postgres/Revisions/Numbers.antt =====
-- Two pushes that chose the same number for a revision.
use charm_registry.Prelude.{
  Bool, true, false, List, [], ◌∷◌, ◌++◌, ◌==◌, eq_refl, eq_int_refl, ◌≡◌, refl, ap, any, keep, map,
  arith,
}
use charm_registry.Core.{Revision}
use charm_registry.Errors.{ok, err}
use charm_registry.Repo.Postgres.Tables.{Tables, has_package, duplicate_key}
use charm_registry.Repo.Postgres.Revisions.{
  is_numbered, is_asked, newest_first, insert_newest, first_revision, scanned, create_revision,
  list_revisions, get_revision_by_number,
}

any-append :
    (p : Revision → Bool) (rows : List Revision) (row : Revision)
    → p row ≡ true
    → any p (rows ++ row ∷ []) ≡ true
any-append p [] row h = ground arith
any-append p (other ∷ rows) row h = ground (arith, any-append p rows row h)

keep-append :
    (p : Revision → Bool) (rows : List Revision) (row : Revision)
    → any p rows ≡ false
    → p row ≡ true
    → keep p (rows ++ row ∷ []) ≡ row ∷ []
keep-append p [] row none_before h = ground arith
keep-append p (other ∷ rows) row none_before h = ground (arith, keep-append p rows row)

is_numbered_refl : (row : Revision) → is_numbered row.package_id row.revision row ≡ true
unfolding is_numbered
is_numbered_refl row = ground (arith, eq_refl row.package_id, eq_int_refl row.revision)

refused :
    (second : Revision) (t : Tables)
    → any (is_numbered second.package_id second.revision) t.revisions ≡ true
    → create_revision second t ≡ err duplicate_key
unfolding create_revision
refused second t taken = rw taken refl

-- CreateRevision of a package that exists, under a number that no revision of the package has and
-- an id that no revision has, succeeds; the revision is then found by its number, but for its
-- resources, and CreateRevision of any revision with the same package and number is refused.
pub create_revision-create_revision :
    (revision second : Revision) (t : Tables)
    → any (is_numbered revision.package_id revision.revision) t.revisions ≡ false
    → any (λ row. row.id == revision.id) t.revisions ≡ false
    → has_package revision.package_id t ≡ true
    → second.package_id ≡ revision.package_id
    → second.revision ≡ revision.revision
    → (t' : Tables) × (create_revision revision t ≡ ok t')
      × (get_revision_by_number revision.package_id revision.revision t' ≡ ok (scanned revision))
      × (create_revision second t' ≡ err duplicate_key)
unfolding create_revision get_revision_by_number list_revisions is_asked newest_first insert_newest
    first_revision
create_revision-create_revision revision second t free fresh owned same_package same_number =
    let p = is_numbered revision.package_id revision.revision in
    let here = is_numbered_refl revision in
    (
      record t { revisions = t.revisions ++ revision ∷ [] },
      rw (free, fresh, owned) refl,
      ap (λ rows. first_revision (ok (map scanned (newest_first rows))))
          (keep-append p t.revisions revision free here),
      refused second (record t { revisions = t.revisions ++ revision ∷ [] })
          (rw (same_package, same_number) (any-append p t.revisions revision here)),
    )
