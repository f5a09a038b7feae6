-- ===== src/Service/Releases/Resolution.antt =====
-- What a release makes of later look-ups of channels, on the repository in memory.
use mathlib.Core.Path.{subst}
use charm_registry.Text.{contains_char}
use charm_registry.Prelude.{
  String, ◌≡◌, ◌≢◌, inl, inr, false, ◌==◌, eq_iff, arith, ap, ◌∙◌, if◌then◌else◌,
}
use charm_registry.Prelude.Maps.{insert, lookup-insert}
use charm_registry.Core.{Release}
use charm_registry.Errors.{ok, ok_injective}
use charm_registry.Repo.Memory.State.{Memory}
use charm_registry.Repo.Memory.Accounts.{find}
use charm_registry.Repo.Memory.Releases.{releases_of, replace_release, resolve_release}
use charm_registry.Service.Channels.{normalize_channel}
use charm_registry.Service.Channels.Names.{
  IsQualified, normalize_channel-IsQualified, normalize_qualified,
}

-- The state after ReplaceRelease.
abbrev after : String → Release → Memory → Memory
after package_id item m = record m {
  releases = insert package_id (insert item.channel item (releases_of package_id m)) m.releases;
}

releases_of-after :
    (package_id : String) (item : Release) (m : Memory)
    → releases_of package_id (after package_id item m)
      ≡ insert item.channel item (releases_of package_id m)
unfolding releases_of
releases_of-after package_id item m = ground (
  arith,
  lookup-insert package_id package_id (insert item.channel item (releases_of package_id m))
      m.releases,
  eq_iff package_id package_id,
)

resolve_release-after :
    (package_id channel : String) (item : Release) (m : Memory)
    → resolve_release package_id channel (after package_id item m)
      ≡ (if item.channel == channel then ok item else resolve_release package_id channel m)
unfolding resolve_release find
resolve_release-after package_id channel item m = ground (
  arith,
  releases_of-after package_id item m,
  lookup-insert item.channel channel item (releases_of package_id m),
)

-- ReplaceRelease, then ResolveRelease of any channel of the package: the new release where it is
-- the release's channel, and what it was before elsewhere.
pub resolve_release-replace_release :
    (package_id channel : String) (item : Release) (m m' : Memory)
    → replace_release package_id item m ≡ ok (tt, m')
    → resolve_release package_id channel m'
      ≡ (if item.channel == channel then ok item else resolve_release package_id channel m)
unfolding replace_release
resolve_release-replace_release package_id channel item m m' h =
    subst
      (λ x.
        resolve_release package_id channel x
        ≡ (if item.channel == channel then ok item else resolve_release package_id channel m))
      (ap (λ p. p.1) (ok_injective h)) (resolve_release-after package_id channel item m)

releases_of-elsewhere :
    (package_id other : String) (item : Release) (m : Memory)
    → (package_id == other) ≡ false
    → releases_of other (after package_id item m) ≡ releases_of other m
unfolding releases_of
releases_of-elsewhere package_id other item m away = ground (
  arith,
  lookup-insert package_id other (insert item.channel item (releases_of package_id m)) m.releases,
)

-- ReplaceRelease, then ResolveRelease of a channel of another package: what it was before.
pub resolve_release-elsewhere :
    (package_id other channel : String) (item : Release) (m m' : Memory)
    → (package_id == other) ≡ false
    → replace_release package_id item m ≡ ok (tt, m')
    → resolve_release other channel m' ≡ resolve_release other channel m
unfolding replace_release resolve_release
resolve_release-elsewhere package_id other channel item m m' away h =
    subst (λ x. find channel (releases_of other x) ≡ find channel (releases_of other m))
      (ap (λ p. p.1) (ok_injective h))
      (ap (find channel) (releases_of-elsewhere package_id other item m away))

-- On the repository in memory, a release whose channel has a slash is the one that the look-up of
-- Refresh, by the normal form of the channel, finds after ReplaceRelease.
pub refreshed_after_release :
    (package_id : String) (item : Release) (m m' : Memory)
    → IsQualified item.channel
    → replace_release package_id item m ≡ ok (tt, m')
    → resolve_release package_id (normalize_channel item.channel) m' ≡ ok item
refreshed_after_release package_id item m m' qualified h =
    ap (λ c. resolve_release package_id c m') (normalize_qualified item.channel qualified)
    ∙ ground (
      arith,
      resolve_release-replace_release package_id item.channel item m m' h,
      eq_iff item.channel item.channel,
    )

normalize_misses :
    (bare asked : String)
    → bare ≢ ""
    → contains_char b'/' bare ≡ false
    → bare == normalize_channel asked ≡ false
normalize_misses bare asked some_risk plain = elim (normalize_channel-IsQualified asked) [
  | inl (empty, none_asked) ↦ ground (arith, eq_iff bare (normalize_channel asked))
  | inr qualified ↦ ground (arith, eq_iff bare (normalize_channel asked))
]

-- On the repository in memory, ReplaceRelease of a release whose channel is a bare risk, not empty
-- and without a slash, changes nothing of what the look-up of Refresh finds: it looks a channel up by
-- its normal form, and no normal form is a bare risk.
pub missed_after_release :
    (package_id asked : String) (item : Release) (m m' : Memory)
    → item.channel ≢ ""
    → contains_char b'/' item.channel ≡ false
    → replace_release package_id item m ≡ ok (tt, m')
    → resolve_release package_id (normalize_channel asked) m'
      ≡ resolve_release package_id (normalize_channel asked) m
missed_after_release package_id asked item m m' some_risk plain h = ground (
  arith,
  resolve_release-replace_release package_id (normalize_channel asked) item m m' h,
  normalize_misses item.channel asked some_risk plain,
)
