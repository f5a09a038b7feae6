-- ===== src/Service/Refresh.antt =====
-- internal/service/releases.go: Refresh. Each action of a request has an answer of its own; an error
-- that is the service's is an answer too, any other error ends the request.
pub mod Answers
use charm_registry.Prelude.{
  ℕ, String, Bool, true, false, Option, none, some, List, [], ◌∷◌, ◌==◌, ℤ, is_positive,
  if◌then◌else◌,
}
use charm_registry.Prelude.Maps.{Map, lookup, insert}
use charm_registry.Core.{
  Time, Identity, Package, Base, Revision, Release, ReleaseResourceRef, ResourceRevision, ApiError,
}
use charm_registry.Errors.{
  Result, ok, err, new_error, map_error, each, Error, ServiceError, service, ◌>>=◌, ◌>>◌,
}
use charm_registry.Service.Context.{Service}
use charm_registry.Service.Helpers.{translate_repo_error, channel_or_default}
use charm_registry.Service.Guards.{require_package_view}
use charm_registry.Service.Channels.{normalize_channel}
use charm_registry.Service.Packages.{package_named}
use charm_registry.Service.Releases.{resolve_release_resources}
use charm_registry.Service.Views.{attach_resource_download, RefreshEntity, refresh_entity}

-- RefreshAction
pub record RefreshAction : Type 0 where
  pub action : String
  pub instance_key : String
  pub id : Option String
  pub name : Option String
  pub revision : Option ℤ
  pub channel : Option String
  pub base : Option Base
  pub resource_revisions : List ReleaseResourceRef

-- The answer to an action that succeeds.
pub record RefreshItem : Type 0 where
  pub charm : RefreshEntity
  pub effective_channel : String
  pub id : String
  pub instance_key : String
  pub name : String
  pub released_at : Time
  pub result : String
  pub redirect_channel : Option String

pub data RefreshAnswer : Type 0 where
  refreshed : RefreshItem → RefreshAnswer
  refused : String → ApiError → RefreshAnswer

-- What resolveReleaseAndRevision returns.
pub record Selection : Type 0 where
  pub release : Release
  pub revision : Revision
  pub channel : String
  pub redirect : String

-- The release that an explicit revision stands for.
unfoldable pub pinned_release : String → Revision → Release
pinned_release channel revision = record {
  id = "";
  package_id = "";
  channel = channel;
  revision = revision.revision;
  base = none;
  resources = [];
  when = revision.created_at;
  expiration_date = none;
  progressive = none;
}

-- `action.Revision != nil && *action.Revision > 0`
unfoldable pub pinned_revision : RefreshAction → Option ℤ
pinned_revision action = elim action.revision [
  | none ↦ none
  | some n ↦ if is_positive n then some n else none
]

-- The map that applyResourceOverrides makes of the overrides: the last one of a name counts.
unfoldable pub override_map : List ReleaseResourceRef → Map ℤ → Map ℤ
override_map [] found = found
override_map (ref ∷ refs) found = elim ref.revision [
  | none ↦ override_map refs found
  | some number ↦ override_map refs (insert ref.name number found)
]

-- A pointer to a text that is there and not empty.
unfoldable pub non_empty : Option String → Option String
non_empty none = none
non_empty (some text) = if text == "" then none else some text

-- The handler of errors in resolveRefreshAction: errors.As(err, &svcErr)
unfoldable pub answer_of : String → Result RefreshItem → Result RefreshAnswer
answer_of instance_key (ok item) = ok (refreshed item)
answer_of instance_key (err (service e)) =
    ok (refused instance_key (record { code = e.code; message = e.message }))
answer_of instance_key (err e) = err e

unfoldable pub redirect_of : String → Option String
redirect_of channel = if channel == "" then none else some channel

-- The answer of resolveRefreshAction, from what it has resolved.
unfoldable pub refresh_item :
    Service → Package → RefreshAction → Selection → List ResourceRevision → RefreshItem
unfolding redirect_of
refresh_item s pkg action chosen resources = record {
  charm = refresh_entity pkg chosen.revision resources s.cfg;
  effective_channel = chosen.channel;
  id = pkg.id;
  instance_key = action.instance_key;
  name = pkg.name;
  released_at = chosen.release.when;
  result = action.action;
  redirect_channel = redirect_of chosen.redirect;
}

module _ (s : Service) where
  -- resolvePackageForRefresh
  unfoldable pub resolve_package_for_refresh : RefreshAction → s.repo.State → Result Package
  unfolding non_empty package_named
  resolve_package_for_refresh action db = elim (non_empty action.name) [
    | some name ↦ package_named s name db
    | none ↦ elim (non_empty action.id) [
      | some id ↦
          map_error (translate_repo_error "package not found") (s.repo.get_package_by_id id db)
      | none ↦ err (new_error 400 "invalid-request" "refresh action must include id or name")
    ]
  ]

  -- The branch of resolveReleaseAndRevision for an explicit revision.
  unfoldable pub select_pinned : Package → String → ℤ → s.repo.State → Result Selection
  unfolding pinned_release
  select_pinned pkg channel number db = do
    revision ←
        map_error (translate_repo_error "revision not found")
          (s.repo.get_revision_by_number pkg.id number db)
    ok (record {
      release = pinned_release channel revision;
      revision = revision;
      channel = channel;
      redirect = channel;
    })

  -- The branch for a channel.
  unfoldable pub select_channel : Package → String → s.repo.State → Result Selection
  select_channel pkg channel db = do
    release ←
        map_error (translate_repo_error "release not found")
          (s.repo.resolve_release pkg.id channel db)
    revision ← s.repo.get_revision_by_number pkg.id release.revision db
    ok (record { release = release; revision = revision; channel = channel; redirect = channel })

  -- The branch for the default release.
  unfoldable pub select_default : Package → s.repo.State → Result Selection
  select_default pkg db = do
    release ←
        map_error (translate_repo_error "release not found")
          (s.repo.resolve_default_release pkg.id db)
    revision ← s.repo.get_revision_by_number pkg.id release.revision db
    ok (record {
      release = release;
      revision = revision;
      channel = release.channel;
      redirect = release.channel;
    })

  -- resolveReleaseAndRevision
  unfoldable pub resolve_release_and_revision :
      Package → RefreshAction → s.repo.State → Result Selection
  unfolding pinned_revision select_pinned select_channel select_default
  resolve_release_and_revision pkg action db =
      let channel = normalize_channel (channel_or_default action.channel) in
      elim (pinned_revision action) [
        | some number ↦ select_pinned pkg channel number db
        | none ↦ if channel == "" then select_default pkg db else select_channel pkg channel db
      ]

  -- The loop of applyResourceOverrides.
  unfoldable pub override_each :
      String → Map ℤ → List ResourceRevision → s.repo.State → Result (List ResourceRevision)
  override_each package_id overrides [] db = ok []
  override_each package_id overrides (item ∷ items) db = elim (lookup item.name overrides) [
    | none ↦ override_each package_id overrides items db >>= λ rest. ok (item ∷ rest)
    | some number ↦ s.repo.get_resource_definition package_id item.name db >>= λ def.
        s.repo.get_resource_revision def.id number db >>= λ found.
        override_each package_id overrides items db >>= λ rest.
        ok (attach_resource_download s.cfg package_id found ∷ rest)
  ]

  -- applyResourceOverrides
  unfoldable pub apply_resource_overrides :
      String
      → List ResourceRevision
      → List ReleaseResourceRef
      → s.repo.State
      → Result (List ResourceRevision)
  unfolding override_each override_map
  apply_resource_overrides package_id resources [] db = ok resources
  apply_resource_overrides package_id resources (ref ∷ refs) db =
      override_each package_id (override_map (ref ∷ refs) []) resources db

  -- What follows resolveReleaseAndRevision in resolveRefreshSelection.
  unfoldable pub selected_resources :
      Package → RefreshAction → Release → s.repo.State → Result (List ResourceRevision)
  unfolding apply_resource_overrides resolve_release_resources
  selected_resources pkg action release db = do
    resource_defs ← s.repo.list_resource_definitions pkg.id db
    resources ← resolve_release_resources s pkg.id resource_defs release db
    apply_resource_overrides pkg.id resources action.resource_revisions db

  -- resolveRefreshAction, up to its handling of errors, with resolveRefreshSelection
  unfoldable pub resolve_item : Identity → RefreshAction → s.repo.State → Result RefreshItem
  unfolding resolve_package_for_refresh resolve_release_and_revision selected_resources refresh_item
  resolve_item identity action db = do
    pkg ← resolve_package_for_refresh action db
    require_package_view s.repo identity pkg false db
    chosen ← resolve_release_and_revision pkg action db
    resources ← selected_resources pkg action chosen.release db
    ok (refresh_item s pkg action chosen resources)

  -- resolveRefreshAction
  unfoldable pub resolve_refresh_action :
      Identity → RefreshAction → s.repo.State → Result RefreshAnswer
  unfolding resolve_item answer_of
  resolve_refresh_action identity action db =
      answer_of action.instance_key (resolve_item identity action db)

  -- Refresh
  unfoldable pub refresh :
      Identity → List RefreshAction → s.repo.State → Result (List RefreshAnswer)
  unfolding each resolve_refresh_action
  refresh identity actions db = each (λ action. resolve_refresh_action identity action db) actions
