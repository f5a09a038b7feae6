-- ===== src/Api/Handlers/Packages.antt =====
-- internal/api/http_packages.go: packages.
use charm_registry.Prelude.{Bool, true, false, Option, none, some, ◌==◌, map}
use charm_registry.Service.Context.{◌>>=◌, pure, read, lift}
use charm_registry.Service.Packages.{
  register_package, list_registered_packages, get_package, update_package, unregister_package,
}
use charm_registry.Api.Documents.{registered_id, results, metadata, package_id, package_metadata}
use charm_registry.Api.Responses.{write_json}
use charm_registry.Api.Requests.{body_of}
use charm_registry.Api.Identities.{Api, Handler, answered, identity_of}

-- `private := false; if req.Private != nil { private = *req.Private }`
unfoldable pub private_or_not : Option Bool → Bool
private_or_not none = false
private_or_not (some private) = private

module _ (api : Api) where
  unfoldable pub handle_register_package : Handler api
  unfolding answered identity_of lift body_of private_or_not register_package pure write_json
  handle_register_package req = answered api (do
    identity ← identity_of api req
    body ← lift (body_of api.svc.cfg api.json.register req)
    pkg ← register_package api.svc identity body.name body.type (private_or_not body.private)
    pure (write_json 200 (registered_id pkg.id)))

  unfoldable pub handle_list_packages : Handler api
  unfolding answered identity_of read list_registered_packages package_metadata pure write_json
  handle_list_packages req = answered api (do
    identity ← identity_of api req
    packages ←
        read
          (list_registered_packages api.svc identity (req.query "include-collaborations" == "true"))
    pure (write_json 200 (results (map package_metadata packages))))

  unfoldable pub handle_get_package : Handler api
  unfolding answered identity_of read get_package package_metadata pure write_json
  handle_get_package req = answered api (do
    identity ← identity_of api req
    pkg ← read (get_package api.svc identity (req.url_param "name") true)
    pure (write_json 200 (metadata (package_metadata pkg))))

  unfoldable pub handle_patch_package : Handler api
  unfolding answered identity_of lift body_of update_package package_metadata pure write_json
  handle_patch_package req = answered api (do
    identity ← identity_of api req
    patch ← lift (body_of api.svc.cfg api.json.patch req)
    pkg ← update_package api.svc identity (req.url_param "name") patch
    pure (write_json 200 (metadata (package_metadata pkg))))

  unfoldable pub handle_delete_package : Handler api
  unfolding answered identity_of unregister_package pure write_json
  handle_delete_package req = answered api (do
    identity ← identity_of api req
    id ← unregister_package api.svc identity (req.url_param "name")
    pure (write_json 200 (package_id id)))
