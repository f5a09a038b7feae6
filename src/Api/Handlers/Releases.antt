-- ===== src/Api/Handlers/Releases.antt =====
-- internal/api/http_releases.go: releases, tracks, search and refresh.
use charm_registry.Prelude.{none, map}
use charm_registry.Core.{Release}
use charm_registry.Service.Context.{◌>>=◌, pure, read, lift}
use charm_registry.Service.ReleaseMap.{list_releases}
use charm_registry.Service.Releases.{release, create_tracks}
use charm_registry.Service.Search.{find, info}
use charm_registry.Service.Refresh.{refresh}
use charm_registry.Api.Documents
use charm_registry.Api.Documents.{release_map, released, tracks_created, found, refreshed}
use charm_registry.Api.Responses.{write_json}
use charm_registry.Api.Requests.{ReleaseItem, body_of}
use charm_registry.Api.Identities.{Api, Handler, answered, identity_of}

-- The release of an element of the body; the fields that it does not give are zero.
unfoldable pub requested_release : ReleaseItem → Release
requested_release item = record {
  id = "";
  package_id = "";
  channel = item.channel;
  revision = item.revision;
  base = none;
  resources = item.resources;
  when = 0;
  expiration_date = none;
  progressive = none;
}

module _ (api : Api) where
  unfoldable pub handle_list_releases : Handler api
  unfolding answered identity_of read list_releases pure write_json
  handle_list_releases req = answered api (do
    identity ← identity_of api req
    payload ← read (list_releases api.svc identity (req.url_param "name"))
    pure (write_json 200 (release_map payload)))

  unfoldable pub handle_release : Handler api
  unfolding answered identity_of lift body_of requested_release release pure write_json
  handle_release req = answered api (do
    identity ← identity_of api req
    body ← lift (body_of api.svc.cfg api.json.releases req)
    done ← release api.svc identity (req.url_param "name") (map requested_release body)
    pure (write_json 200 (released done)))

  unfoldable pub handle_create_tracks : Handler api
  unfolding answered identity_of lift body_of create_tracks pure write_json
  handle_create_tracks req = answered api (do
    identity ← identity_of api req
    body ← lift (body_of api.svc.cfg api.json.tracks req)
    created ← create_tracks api.svc identity (req.url_param "name") body
    pure (write_json 200 (tracks_created created)))

  unfoldable pub handle_find : Handler api
  unfolding answered identity_of read find pure write_json
  handle_find req = answered api (do
    identity ← identity_of api req
    payload ← read (find api.svc identity (req.query "q"))
    pure (write_json 200 (found payload)))

  unfoldable pub handle_info : Handler api
  unfolding answered identity_of read info pure write_json
  handle_info req = answered api (do
    identity ← identity_of api req
    payload ← read (info api.svc identity (req.url_param "name"))
    pure (write_json 200 (Documents.info payload)))

  unfoldable pub handle_refresh : Handler api
  unfolding answered identity_of lift body_of read refresh pure write_json
  handle_refresh req = answered api (do
    identity ← identity_of api req
    body ← lift (body_of api.svc.cfg api.json.refresh_actions req)
    payload ← read (refresh api.svc identity body)
    pure (write_json 200 (refreshed payload)))
