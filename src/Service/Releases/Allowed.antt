-- ===== src/Service/Releases/Allowed.antt =====
-- What a Release that succeeds was allowed to do.
use charm_registry.Prelude.{String, ◌≡◌, ◌≢◌, List, [], ◌∷◌, eq_iff, arith, All}
use charm_registry.Core.{Time, Identity, Package, Release}
use charm_registry.Errors.{ok, map_error}
use charm_registry.Service.Context.{Service, World, lift, read, now}
use charm_registry.Service.Context.Runs.{>>=_ok, lift_ok}
use charm_registry.Service.Helpers.{translate_repo_error}
use charm_registry.Service.Guards.{
  enforce_channel_restriction, perm_package_manage_releases, require_package_manage,
}
use charm_registry.Service.Guards.Permissions.{MayRelease, enforce_channel_restriction_iff}
use charm_registry.Service.Packages.{package_named}
use charm_registry.Service.Releases.{
  require_channel, dated, identified, release_one, release_all, release,
}

-- The request names a channel, and the caller's token, if there is one, allows it.
abbrev pub IsAllowed : Identity → Release → Type 0
IsAllowed identity request = (request.channel ≢ "") × MayRelease identity.token request.channel

require_channel_ok : (channel : String) → require_channel channel ≡ ok tt → channel ≢ ""
unfolding require_channel
require_channel_ok channel h = ground (arith, eq_iff channel "")

module _ (s : Service) where
  release_one-IsAllowed :
      (identity : Identity) (pkg : Package) (t : Time) (request r : Release) (w v : World s)
      → release_one s identity pkg t request w ≡ (ok r, v)
      → IsAllowed identity request
  unfolding release_one
  release_one-IsAllowed identity pkg t request r w v h =
      let (u, w1, named, h1) = >>=_ok (lift (require_channel request.channel)) _ w v r h in
      let (rev, w2, found, h2) =
        >>=_ok
          (read (λ db.
            map_error (translate_repo_error "revision not found")
              (s.repo.get_revision_by_number pkg.id request.revision db)))
          _ w1 v r h1 in
      let (request', w3, completed, h3) = >>=_ok (identified s (dated t request)) _ w2 v r h2 in
      let (u', w4, allowed, h4) =
        >>=_ok (lift (enforce_channel_restriction identity request.channel)) _ w3 v r h3 in
      (
        require_channel_ok request.channel
            (lift_ok (require_channel request.channel) w w1 tt named).0,
        (enforce_channel_restriction_iff identity request.channel).0
            (lift_ok (enforce_channel_restriction identity request.channel) w3 w4 tt allowed).0,
      )

  release_all-IsAllowed :
      (identity : Identity) (pkg : Package) (t : Time) (requests released : List Release)
      (w v : World s)
      → release_all s identity pkg t requests w ≡ (ok released, v)
      → All (IsAllowed identity) requests
  unfolding release_all
  release_all-IsAllowed identity pkg t [] released w v h = tt
  release_all-IsAllowed identity pkg t (request ∷ requests) released w v h =
      let (first, w1, one, h1) = >>=_ok (release_one s identity pkg t request) _ w v released h in
      let (others, w2, rest, h2) =
        >>=_ok (release_all s identity pkg t requests) _ w1 v released h1 in
      (
        release_one-IsAllowed identity pkg t request first w w1 one,
        release_all-IsAllowed identity pkg t requests others w1 w2 rest,
      )

  -- Release, when it succeeds: every request names a channel that is not empty and that the caller's
  -- token allows, which it does where there is no token, or one that lists no channels or this one.
  pub release-IsAllowed :
      (identity : Identity) (name : String) (requests released : List Release) (w v : World s)
      → release s identity name requests w ≡ (ok released, v)
      → All (IsAllowed identity) requests
  unfolding release
  release-IsAllowed identity name requests released w v h =
      let (pkg, w1, found, h1) = >>=_ok (read (package_named s name)) _ w v released h in
      let (u, w2, let_in, h2) =
        >>=_ok (read (require_package_manage s.repo identity pkg perm_package_manage_releases)) _ w1
          v released h1 in
      let (t, w3, clock, h3) = >>=_ok now _ w2 v released h2 in
      let (all, w4, done, h4) = >>=_ok (release_all s identity pkg t requests) _ w3 v released h3 in
      release_all-IsAllowed identity pkg t requests all w3 w4 done
