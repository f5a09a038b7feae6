-- ===== src/Tests/Services.antt =====
-- The theorems on the service, for a small registry in memory.
use charm_registry.Prelude.{
  String, ◌≡◌, refl, ◌↔◌, ◌≢◌, true, false, none, some, [], ◌∷◌, pos, arith, ◌*◌, ◌+◌,
}
use charm_registry.Prelude.Maps.{lookup, insert}
use charm_registry.Core.{anonymous}
use charm_registry.Errors.{ok}
use charm_registry.Text.{contains_char}
use charm_registry.Repo.Memory.State.{Memory, new_memory}
use charm_registry.Repo.Memory.Releases.{replace_release, resolve_release, releases_of}
use charm_registry.Repo.Memory.Revisions.{
  create_revision, get_revision_by_number, get_latest_revision, revisions_of,
}
use charm_registry.Service.Guards.{require_permission, require_package_manage, require_package_view}
use charm_registry.Service.Guards.Permissions.{MayUse, require_permission_iff}
use charm_registry.Service.Guards.Access.{
  MayManage, MayView, require_package_manage_iff, require_package_view_iff,
}
use charm_registry.Service.Channels.{normalize_channel}
use charm_registry.Service.Channels.Names.{IsQualified}
use charm_registry.Service.Releases.Resolution.{refreshed_after_release, missed_after_release}
use charm_registry.Service.Revisions.{next_number}
use charm_registry.Service.Revisions.Numbering.{
  IsNumbered, IsNumbered-new_memory, create_revision-IsNumbered,
}
use charm_registry.Service.Tokens.{IssueTokenRequest, issue_store_token, issued_token, second}
use charm_registry.Service.Context.{World}
use charm_registry.Repo.Memory.Accounts.{create_store_token}
use charm_registry.Service.Tokens.Lifetimes.{asked_seconds, issue_store_token-asked_seconds}
use charm_registry.Tests.Fixtures.{service, owner, nginx, with_nginx, release_on, revision, world}

require_permission_iff_example :
    (require_permission owner "package-view" ≡ ok tt)
    ↔ ((owner.authenticated ≡ true) × MayUse owner.token "package-view")
require_permission_iff_example = require_permission_iff owner "package-view"

require_package_manage_iff_example :
    (require_package_manage service.repo owner nginx "package-manage" with_nginx ≡ ok tt)
    ↔ MayManage service.repo owner nginx "package-manage" with_nginx
require_package_manage_iff_example =
    require_package_manage_iff service.repo owner nginx "package-manage" with_nginx

require_package_view_iff_example :
    (require_package_view service.repo anonymous nginx true with_nginx ≡ ok tt)
    ↔ MayView service.repo anonymous nginx true with_nginx
require_package_view_iff_example =
    require_package_view_iff service.repo anonymous nginx true with_nginx

abbrev after_release : String → Memory
after_release channel = record with_nginx {
  releases = ("p1", (channel, release_on channel) ∷ []) ∷ [];
}

releasing_edge :
    replace_release "p1" (release_on "2.0/edge") with_nginx ≡ ok (tt, after_release "2.0/edge")
unfolding replace_release releases_of lookup insert
releasing_edge = refl

edge-IsQualified : IsQualified "2.0/edge"
unfolding contains_char
edge-IsQualified = refl

refreshed_after_release_example :
    resolve_release "p1" (normalize_channel "2.0/edge") (after_release "2.0/edge")
    ≡ ok (release_on "2.0/edge")
refreshed_after_release_example =
    refreshed_after_release "p1" (release_on "2.0/edge") with_nginx (after_release "2.0/edge")
      edge-IsQualified releasing_edge

releasing_stable :
    replace_release "p1" (release_on "stable") with_nginx ≡ ok (tt, after_release "stable")
unfolding replace_release releases_of lookup insert
releasing_stable = refl

stable-bare : contains_char b'/' "stable" ≡ false
unfolding contains_char
stable-bare = refl

abbrev stable : String
stable = "stable"

stable-some : stable ≢ ""
stable-some h = cc

missed_after_release_example :
    resolve_release "p1" (normalize_channel "stable") (after_release "stable")
    ≡ resolve_release "p1" (normalize_channel "stable") with_nginx
missed_after_release_example =
    missed_after_release "p1" "stable" (release_on "stable") with_nginx (after_release "stable")
      stable-some stable-bare releasing_stable

abbrev with_revision : Memory
with_revision = record new_memory { revisions = ("p1", revision ∷ []) ∷ [] }

first_number : next_number (get_latest_revision "p1" new_memory) ≡ ok (pos 1)
unfolding next_number get_latest_revision revisions_of lookup
first_number = refl

numbering : create_revision revision new_memory ≡ ok (tt, with_revision)
unfolding create_revision revisions_of insert lookup
numbering = refl

create_revision-IsNumbered_example :
    IsNumbered with_revision × (get_revision_by_number "p1" (pos 1) with_revision ≡ ok revision)
create_revision-IsNumbered_example =
    create_revision-IsNumbered revision new_memory with_revision IsNumbered-new_memory first_number
      numbering

abbrev request : IssueTokenRequest
request = record {
  description = none;
  ttl = some (pos 60);
  permissions = [];
  packages = [];
  channels = [];
}

abbrev issued : World service
issued = record world {
  db = record with_nginx {
    tokens = ("hash-of-cr_seed", issued_token owner request "hash-of-cr_seed" "id" 1) ∷ [];
  };
  calls = 3;
}

issuing :
    issue_store_token service owner request world
    ≡ (ok ("cr_seed", issued_token owner request "hash-of-cr_seed" "id" 1), issued)
unfolding issue_store_token create_store_token insert
issuing = refl

issue_store_token-asked_seconds_example :
    ((issued_token owner request "hash-of-cr_seed" "id" 1).valid_since ≡ 1)
    × ((issued_token owner request "hash-of-cr_seed" "id" 1).valid_until
        ≡ 1 + asked_seconds request.ttl * second)
issue_store_token-asked_seconds_example =
    issue_store_token-asked_seconds service owner request world issued "cr_seed"
      (issued_token owner request "hash-of-cr_seed" "id" 1) (omega arith) issuing
