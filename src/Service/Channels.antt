-- ===== src/Service/Channels.antt =====
-- internal/service/releases.go: channel names.
pub mod Names
use Prim.Native.String.{◌++◌}
use mathlib.Core.List
use charm_registry.Prelude.{
  String, Bool, true, false, ◌||◌, Option, none, some, List, [], ◌∷◌, ◌==◌, is_empty, if◌then◌else◌,
}
use charm_registry.Core.{Track}
use charm_registry.Text.{split, contains_char}
use charm_registry.Service.Helpers.{string_ptr}

pub record ChannelParts : Type 0 where
  pub track : String
  pub risk : String

-- The choice of splitChannel by the number of parts; strings.Split gives one part at least.
unfoldable pub parts_of : List String → ChannelParts
parts_of [] = record { track = "latest"; risk = "" }
parts_of (risk ∷ []) = record { track = "latest"; risk = risk }
parts_of (track ∷ risk ∷ rest) = record { track = track; risk = risk }

-- splitChannel
unfoldable pub split_channel : String → ChannelParts
unfolding parts_of
split_channel channel = parts_of (split b'/' channel)

-- normalizeChannel
unfoldable pub normalize_channel : String → String
normalize_channel channel =
    if channel == "" || contains_char b'/' channel then channel else "latest/" ++ channel

pub record ChannelDescriptor : Type 0 where
  pub name : String
  pub track : String
  pub risk : String
  pub fallback : Option String

-- channelDescriptor
unfoldable pub channel_descriptor : String → String → Option String → ChannelDescriptor
channel_descriptor track risk fallback = record {
  name = track ++ "/" ++ risk;
  track = track;
  risk = risk;
  fallback = fallback;
}

-- The channels of one track in packageChannels.
unfoldable pub track_channels : String → List ChannelDescriptor
unfolding channel_descriptor
track_channels track =
    channel_descriptor track "stable" none
    ∷ channel_descriptor track "candidate" (string_ptr (track ++ "/stable"))
    ∷ channel_descriptor track "beta" (string_ptr (track ++ "/candidate"))
    ∷ channel_descriptor track "edge" (string_ptr (track ++ "/beta"))
    ∷ []

unfoldable pub all_channels : List Track → List ChannelDescriptor
unfolding track_channels
all_channels [] = []
all_channels (t ∷ ts) = List.◌++◌ (track_channels t.name) (all_channels ts)

-- packageChannels
unfoldable pub package_channels : List Track → List ChannelDescriptor
unfolding all_channels
package_channels tracks = if is_empty tracks then track_channels "latest" else all_channels tracks
