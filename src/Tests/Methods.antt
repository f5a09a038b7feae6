-- ===== src/Tests/Methods.antt =====
-- The theorems on whole methods of the service, for a small registry in memory.
use charm_registry.Prelude.{
  String, ◌≡◌, refl, ◌⊎◌, true, false, Bool, none, some, List, [], ◌∷◌, ℤ, All, Option,
}
use charm_registry.Core.{Package, StoreToken, Release, Track, anonymous}
use charm_registry.Prelude.Maps.{lookup, insert}
use charm_registry.Text.{to_lower, trim_space, contains_char}
use charm_registry.Repo.Memory.Packages.{
  search_packages, list_tracks, can_view_package, get_package_by_name,
}
use charm_registry.Repo.Memory.Accounts.{create_store_token}
use charm_registry.Repo.Memory.Releases.{resolve_default_release, resolve_release}
use charm_registry.Repo.Memory.Revisions.{get_revision_by_number}
use charm_registry.Repo.Memory.Resources.{list_resource_definitions}
use charm_registry.Service.Helpers.{channel_or_default}
use charm_registry.Service.Channels.{normalize_channel}
use charm_registry.Errors.{ok, err, Result}
use charm_registry.Auth.Tokens.{hash_token}
use charm_registry.Service.Context.{World}
use charm_registry.Service.Guards.{
  perm_package_manage, perm_package_manage_metadata, perm_package_manage_releases,
  perm_package_manage_revisions, can_see_package, require_package_view,
}
use charm_registry.Service.Packages.{
  MetadataPatch, update_package, unregister_package, get_package, enrich_packages,
}
use charm_registry.Service.Releases.{release, create_tracks}
use charm_registry.Service.Revisions.{push_revision, review_upload, list_revisions, download_charm}
use charm_registry.Service.Resources.{
  PushResourceRequest, ResourceRevisionUpdate, push_resource, update_resource_revisions,
  list_resources, list_resource_revisions, download_resource,
}
use charm_registry.Service.ReleaseMap.{list_releases}
use charm_registry.Service.Search.{FindResult, info, find, package_find_result}
use charm_registry.Service.Authorization.Writes.{Managed, Refuses, writes_are_authorized}
use charm_registry.Service.Authorization.Reads.{
  Viewed, Fails, Shown, reads_are_authorized, find-Shown,
}
use charm_registry.Service.Tokens.{exchange_store_token, exchange_request, issued_token}
use charm_registry.Service.Tokens.Attenuation.{Within, exchange_store_token-Within}
use charm_registry.Service.Refresh.{RefreshAction, RefreshAnswer, refresh}
use charm_registry.Service.Refresh.Answers.{asked_keys, answered_keys, refresh-answered_keys}
use charm_registry.Tests.Fixtures.{service, runtime, owner, world, released, with_nginx}

writes_are_authorized_example :
    ((patch : MetadataPatch)
      → Managed service owner "nginx" perm_package_manage_metadata world
        ⊎ Refuses service (update_package service owner "nginx" patch) world)
    × (Managed service owner "nginx" perm_package_manage world
        ⊎ Refuses service (unregister_package service owner "nginx") world)
    × ((requests : List Release)
        → Managed service owner "nginx" perm_package_manage_releases world
          ⊎ Refuses service (release service owner "nginx" requests) world)
    × ((tracks : List Track)
        → Managed service owner "nginx" perm_package_manage_metadata world
          ⊎ Refuses service (create_tracks service owner "nginx" tracks) world)
    × ((upload_id : String)
        → Managed service owner "nginx" perm_package_manage_revisions world
          ⊎ Refuses service (push_revision service owner "nginx" upload_id) world)
    × ((resource_name : String) (request : PushResourceRequest)
        → Managed service owner "nginx" perm_package_manage_revisions world
          ⊎ Refuses service (push_resource service owner "nginx" resource_name request) world)
    × ((resource_name : String) (updates : List ResourceRevisionUpdate)
        → Managed service owner "nginx" perm_package_manage_revisions world
          ⊎ Refuses service
              (update_resource_revisions service owner "nginx" resource_name updates)
              world)
writes_are_authorized_example = writes_are_authorized service owner "nginx" world

reads_are_authorized_example :
    let by_name = service.repo.get_package_by_name "nginx" world.db in
    let by_id = service.repo.get_package_by_id "nginx" world.db in
    ((checked : Bool)
      → Viewed service anonymous by_name checked world.db
        ⊎ Fails service (get_package service anonymous "nginx" checked world.db))
    × (Viewed service anonymous by_name false world.db
        ⊎ Fails service (info service anonymous "nginx" world.db))
    × ((upload_id : String)
        → Viewed service anonymous by_name true world.db
          ⊎ Fails service (review_upload service anonymous "nginx" upload_id world.db))
    × (Viewed service anonymous by_name true world.db
        ⊎ Fails service (list_releases service anonymous "nginx" world.db))
    × ((number : Option ℤ)
        → Viewed service anonymous by_name true world.db
          ⊎ Fails service (list_revisions service anonymous "nginx" number world.db))
    × (Viewed service anonymous by_name true world.db
        ⊎ Fails service (list_resources service anonymous "nginx" world.db))
    × ((resource_name : String)
        → Viewed service anonymous by_name true world.db
          ⊎ Fails service
              (list_resource_revisions service anonymous "nginx" resource_name world.db))
    × ((number : ℤ)
        → Viewed service anonymous by_id false world.db
          ⊎ Fails service (download_charm service anonymous "nginx" number world))
    × ((resource_name : String) (number : ℤ)
        → Viewed service anonymous by_id false world.db
          ⊎ Fails service (download_resource service anonymous "nginx" resource_name number world))
reads_are_authorized_example = reads_are_authorized service anonymous "nginx" world

abbrev items_or_none : {A : Type 0} → Result (List A) → List A
items_or_none (ok items) = items
items_or_none (err e) = []

abbrev shown : List FindResult
shown = items_or_none (find service owner "" released)

found : find service owner "" released ≡ ok shown
unfolding find search_packages to_lower trim_space list_tracks lookup can_see_package
    can_view_package package_find_result resolve_default_release get_revision_by_number
found = refl

find-Shown_example :
    (packages : List Package) × (enriched : List Package) × (service.repo.search_packages ""
        released
      ≡ ok packages)
    × (enrich_packages service packages released ≡ ok enriched)
    × All (Shown service owner enriched released) shown
find-Shown_example = find-Shown service owner "" released shown found

abbrev action : RefreshAction
action = record {
  action = "install";
  instance_key = "key";
  id = none;
  name = some "nginx";
  revision = none;
  channel = some "stable";
  base = none;
  resource_revisions = [];
}

abbrev actions : List RefreshAction
actions = action ∷ record action { instance_key = "other"; name = none } ∷ []

abbrev answers : List RefreshAnswer
answers = items_or_none (refresh service owner actions released)

refreshing : refresh service owner actions released ≡ ok answers
unfolding refresh get_package_by_name lookup require_package_view can_view_package normalize_channel
    channel_or_default contains_char resolve_release get_revision_by_number
    list_resource_definitions
refreshing = refl

refresh-answered_keys_example : answered_keys service answers ≡ asked_keys service actions
refresh-answered_keys_example =
    refresh-answered_keys service owner actions released answers refreshing

abbrev after_exchange : World service
after_exchange = record {
  db = record with_nginx {
    tokens =
        (
          "hash-of-cr_seed",
          issued_token owner (exchange_request owner.token none) "hash-of-cr_seed" "id" 1,
        )
        ∷ [];
  };
  files = [];
  calls = 3;
}

exchanging : exchange_store_token service owner none world ≡ (ok "cr_seed", after_exchange)
unfolding exchange_store_token create_store_token insert
exchanging = refl

exchange_store_token-Within_example :
    (owner.authenticated ≡ true)
    × ((new : StoreToken) × (service.repo.create_store_token new with_nginx
          ≡ ok (tt, after_exchange.db))
        × (new.token_hash ≡ hash_token runtime "cr_seed")
        × (new.account_id ≡ "a1")
        × Within (some new) owner.token)
exchange_store_token-Within_example =
    exchange_store_token-Within service owner none world after_exchange "cr_seed" exchanging
