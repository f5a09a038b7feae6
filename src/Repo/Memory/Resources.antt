-- ===== src/Repo/Memory/Resources.antt =====
-- Resource definitions and resource revisions of the in-memory repository.
use charm_registry.Prelude.{
  String, true, false, Option, none, some, List, [], ◌∷◌, ◌++◌, ℤ, eq_int, find?,
}
use charm_registry.Prelude.Maps.{Map, lookup, insert}
use charm_registry.Core.{ResourceDefinition, ResourceRevision}
use charm_registry.Errors.{Result, ok, err, not_found}
use charm_registry.Repo.Memory.State.{Memory, Platform, slice_or_nil}
use charm_registry.Repo.Memory.Accounts.{find, values}

-- m.resourceDefs[packageID]: a missing map is read as an empty one.
unfoldable pub definitions_of : String → Memory → Map ResourceDefinition
definitions_of package_id m = slice_or_nil (lookup package_id m.resource_defs)

-- UpsertResourceDefinition
unfoldable pub upsert_resource_definition :
    ResourceDefinition → Memory → Result (ResourceDefinition × Memory)
unfolding definitions_of
upsert_resource_definition resource m = ok (
  resource,
  record m {
    resource_defs =
        insert resource.package_id
          (insert resource.name resource (definitions_of resource.package_id m)) m.resource_defs;
  },
)

-- GetResourceDefinition
unfoldable pub get_resource_definition : String → String → Memory → Result ResourceDefinition
unfolding definitions_of find
get_resource_definition package_id resource_name m =
    find resource_name (definitions_of package_id m)

-- m.resourceRevisions[resourceID]
unfoldable pub resource_revisions_of : String → Memory → List ResourceRevision
resource_revisions_of resource_id m = slice_or_nil (lookup resource_id m.resource_revisions)

-- CreateResourceRevision
unfoldable pub create_resource_revision : ResourceRevision → Memory → Result (Unit {0} × Memory)
unfolding resource_revisions_of
create_resource_revision revision m = ok (
  tt,
  record m {
    resource_revisions =
        insert revision.resource_id (resource_revisions_of revision.resource_id m ++ revision ∷ [])
          m.resource_revisions;
  },
)

-- The loop of UpdateResourceRevision: the slice with the first entry of the number replaced.
unfoldable pub replace_first :
    ResourceRevision → List ResourceRevision → Option (List ResourceRevision)
replace_first revision [] = none
replace_first revision (item ∷ items) = elim (eq_int item.revision revision.revision) [
  | true ↦ some (revision ∷ items)
  | false ↦ elim (replace_first revision items) [ none ↦ none | some rest ↦ some (item ∷ rest) ]
]

-- UpdateResourceRevision
unfoldable pub update_resource_revision : ResourceRevision → Memory → Result (Unit {0} × Memory)
unfolding resource_revisions_of replace_first
update_resource_revision revision m =
    elim (replace_first revision (resource_revisions_of revision.resource_id m)) [
      | none ↦ err not_found
      | some entries ↦ ok (
        tt,
        record m { resource_revisions = insert revision.resource_id entries m.resource_revisions },
      )
    ]

-- ListResourceRevisions
unfoldable pub list_resource_revisions : String → Memory → Result (List ResourceRevision)
unfolding resource_revisions_of
list_resource_revisions resource_id m = ok (resource_revisions_of resource_id m)

-- GetResourceRevision
unfoldable pub get_resource_revision : String → ℤ → Memory → Result ResourceRevision
unfolding resource_revisions_of
get_resource_revision resource_id number m =
    elim (find? (λ item. eq_int item.revision number) (resource_revisions_of resource_id m)) [
      | none ↦ err not_found
      | some item ↦ ok item
    ]

module _ (order : Platform) where
  -- ListResourceDefinitions
  unfoldable pub list_resource_definitions : String → Memory → Result (List ResourceDefinition)
  unfolding definitions_of
  list_resource_definitions package_id m = ok (values (order.visit (definitions_of package_id m)))
