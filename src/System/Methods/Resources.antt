-- ===== src/System/Methods/Resources.antt =====
-- The methods of internal/service/resources.go that write, as runs of steps.
use charm_registry.Prelude.{ℕ, ◌+◌, String, some, List, [], ◌∷◌}
use charm_registry.Core.{Identity}
use charm_registry.Config.{Config}
use charm_registry.Repo.Memory.State.{Platform}
use charm_registry.Service.Context.{Service, Runtime}
use charm_registry.Service.Revisions.{status_url}
use charm_registry.Service.Resources.{
  PushResourceRequest, ResourceRevisionUpdate, push_resource, update_one, update_each,
  update_resource_revisions, new_resource_revision, next_resource_number,
}
use charm_registry.Service.Revisions.Uploads.{in_memory}
use charm_registry.System.Steps.{reviewing, adding_resource, changing_resource}
use charm_registry.System.Methods.{
  RunsBySteps, RunsBySteps-write, get_blob-RunsBySteps, after_read, after_write, after_call,
  after_now, after_uuid, answer,
}

module _ (cfg : Config) (runtime : Runtime) (order : Platform) where
  abbrev s : Service
  s = in_memory cfg runtime order

  pub push_resource-RunsBySteps :
      (identity : Identity) (charm_name resource_name : String) (req : PushResourceRequest)
      → RunsBySteps cfg runtime order (push_resource s identity charm_name resource_name req)
  unfolding push_resource
  push_resource-RunsBySteps identity charm_name resource_name req =
      after_read cfg runtime order _ _ λ pkg. after_read cfg runtime order _ _ λ x.
        after_read cfg runtime order _ _ λ def. after_read cfg runtime order _ _ λ upload.
          after_call cfg runtime order _ _
            (get_blob-RunsBySteps cfg runtime order upload.object_key)
            λ payload. after_read cfg runtime order _ _ λ existing.
              after_now cfg runtime order _ λ t. after_uuid cfg runtime order _ λ id.
                let number = next_resource_number existing in
                let revision = new_resource_revision s id def req upload number payload t in
                after_write cfg runtime order _ _
                  (record { step = λ a b y done. adding_resource revision done })
                  λ y. after_now cfg runtime order _ λ t'.
                    after_write cfg runtime order _ _
                      (record { step = λ a b z done. reviewing t' upload.id (some number) [] done })
                      λ z. answer cfg runtime order (status_url charm_name upload.id)

  update_one-RunsBySteps :
      (resource_id : String) (update : ResourceRevisionUpdate)
      → RunsBySteps cfg runtime order (update_one s resource_id update)
  unfolding update_one
  update_one-RunsBySteps resource_id change = after_read cfg runtime order _ _ λ item.
      RunsBySteps-write cfg runtime order (record {
        step = λ a b y done.
            changing_resource
              (record item { bases = change.bases; architectures = change.architectures }) done;
      })

  update_each-RunsBySteps :
      (resource_id : String) (updates : List ResourceRevisionUpdate) (n : ℕ)
      → RunsBySteps cfg runtime order (update_each s resource_id updates n)
  unfolding update_each
  update_each-RunsBySteps resource_id [] n = answer cfg runtime order n
  update_each-RunsBySteps resource_id (change ∷ changes) n =
      after_call cfg runtime order _ _ (update_one-RunsBySteps resource_id change)
        λ x. update_each-RunsBySteps resource_id changes (n + 1)

  pub update_resource_revisions-RunsBySteps :
      (identity : Identity) (charm_name resource_name : String)
      (updates : List ResourceRevisionUpdate)
      → RunsBySteps cfg runtime order
          (update_resource_revisions s identity charm_name resource_name updates)
  unfolding update_resource_revisions
  update_resource_revisions-RunsBySteps identity charm_name resource_name updates =
      after_read cfg runtime order _ _ λ pkg.
        after_read cfg runtime order _ _
          λ x. after_read cfg runtime order _ _ λ def. update_each-RunsBySteps def.id updates 0
