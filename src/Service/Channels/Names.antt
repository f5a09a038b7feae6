-- ===== src/Service/Channels/Names.antt =====
-- Channel names and their normal form.
use Prim.Native.String.{◌++◌}
use mathlib.Core.Path.{subst}
use charm_registry.Prelude.{
  String, ◌≡◌, ◌≢◌, refl, ◌⊎◌, inl, inr, true, false, ◌∷◌, ◌==◌, eq_iff, arith, Bool-cases, ap, sym,
  ◌∙◌,
}
use charm_registry.Text.{contains_char}
use charm_registry.Text.Split.{
  middle, split-Lacks, split-append, contains_char-append, Lacks-contains_char,
}
use charm_registry.Service.Channels.{parts_of, split_channel, normalize_channel}

-- A channel in normal form has a track and a risk.
abbrev pub IsQualified : String → Type 0
IsQualified channel = contains_char b'/' channel ≡ true

bare :
    (channel : String)
    → channel ≢ ""
    → contains_char b'/' channel ≡ false
    → normalize_channel channel ≡ "latest/" ++ channel
unfolding normalize_channel
bare channel h e = ground (arith, eq_iff channel "")

normalize_empty : normalize_channel "" ≡ ""
unfolding normalize_channel
normalize_empty = refl

latest-IsQualified : (channel : String) → IsQualified ("latest/" ++ channel)
latest-IsQualified channel =
    subst IsQualified (sym (middle "latest" "/" channel))
      (contains_char-append b'/' "latest" channel "/" refl)

-- The normal form of a channel has a track and a risk, or the channel and it are empty.
pub normalize_channel-IsQualified :
    (channel : String)
    → ((channel ≡ "") × (normalize_channel channel ≡ "")) ⊎ IsQualified (normalize_channel channel)
unfolding normalize_channel
normalize_channel-IsQualified channel =
    ground (arith, eq_iff channel "", latest-IsQualified channel)

pub normalize_qualified :
    (channel : String) → IsQualified channel → normalize_channel channel ≡ channel
unfolding normalize_channel
normalize_qualified channel h = ground arith

-- Normalizing a channel twice is the same as normalizing it once.
pub normalize_channel_idempotent :
    (channel : String) → normalize_channel (normalize_channel channel) ≡ normalize_channel channel
normalize_channel_idempotent channel = elim (normalize_channel-IsQualified channel) [
  | inl (empty, same) ↦ ap normalize_channel (same ∙ sym empty)
  | inr qualified ↦ normalize_qualified (normalize_channel channel) qualified
]

split_latest :
    (channel : String)
    → contains_char b'/' channel ≡ false
    → split_channel ("latest/" ++ channel) ≡ record { track = "latest"; risk = channel }
unfolding split_channel parts_of
split_latest channel h =
    ap split_channel (middle "latest" "/" channel)
    ∙ ap parts_of (
        split-append b'/' "latest" channel "/" (ground arith) refl
        ∙ ap (λ ps. "latest" ∷ ps) (split-Lacks b'/' channel (Lacks-contains_char b'/' channel h)))

split_bare :
    (channel : String)
    → contains_char b'/' channel ≡ false
    → split_channel channel ≡ record { track = "latest"; risk = channel }
unfolding split_channel parts_of
split_bare channel h = ap parts_of (split-Lacks b'/' channel (Lacks-contains_char b'/' channel h))

-- The normal form of a channel has the track and the risk of the channel.
pub split_channel-normalize_channel :
    (channel : String) → split_channel (normalize_channel channel) ≡ split_channel channel
split_channel-normalize_channel channel = elim (Bool-cases (contains_char b'/' channel)) [
  | inl qualified ↦ ap split_channel (normalize_qualified channel qualified)
  | inr plain ↦ elim (Bool-cases (channel == "")) [
    | inl empty ↦ rw ((eq_iff channel "").0 empty) (ap split_channel normalize_empty)
    | inr some_risk ↦
        ap split_channel (bare channel (λ e. cc ((eq_iff channel "").1 e)) plain)
        ∙ split_latest channel plain
        ∙ sym (split_bare channel plain)
  ]
]
