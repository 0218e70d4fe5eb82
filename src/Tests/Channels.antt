-- ===== src/Tests/Channels.antt =====
-- Identifiers that are published, and channels that are listed.
use mathlib.Core.Option
use seabird_core.Prelude.{
  ◌≡◌, refl, Text, text, some, List, [], ◌∷◌, ok, Entries, text_ord, cmp_text, get, insert,
}
use seabird_core.Id.{backend_id_ord}
use seabird_core.Proto.{
  User, ChannelSource, Channel, ChatEventInner, source_into_relative, user_into_relative,
}
use seabird_core.Server.Grpc.{full_id_of}
use seabird_core.Server.Grpc.Routing.{ReadUser, published_ids_lead_back}
use seabird_core.Server.Ingest.{apply_channel}
use seabird_core.Server.Ingest.Channels.{get-apply_channel, apply_channels, channel_after}
use seabird_core.Tests.Samples.{codec, codec-Laws}
use seabird_core.Tests.Fixtures.{net, complaint}

abbrev ann : User
ann = record { id = text "u"; display_name = text "Ann" }

abbrev talk : ChannelSource
talk = record { channel_id = text "c"; user = some ann }

published_ids_lead_back_example :
    (full_id_of codec complaint (source_into_relative codec talk net).channel_id
      ≡ ok (net, text "c"))
    × (Option.map {B = ReadUser}
          (λ u. (full_id_of codec complaint u.id, u.display_name))
          (source_into_relative codec talk net).user
        ≡ some (ok (net, text "u"), text "Ann"))
    × (full_id_of codec complaint (user_into_relative codec ann net).id ≡ ok (net, text "u"))
    × ((user_into_relative codec ann net).display_name ≡ text "Ann")
published_ids_lead_back_example = published_ids_lead_back codec codec-Laws complaint net talk ann

-- The backend says that a channel was joined, and later how it is called.
abbrev joins : List ChatEventInner
joins =
    ChatEventInner.join_channel
      (record { channel_id = text "c"; display_name = text "C"; topic = [] })
    ∷ ChatEventInner.change_channel
        (record { channel_id = text "c"; display_name = text "D"; topic = text "t" })
    ∷ []

abbrev channel : Channel
channel = record { id = text "c"; display_name = text "D"; topic = text "t" }

abbrev table : Entries Text Channel
table = (text "c", channel) ∷ []

get-apply_channel_example :
    get (text "c") (apply_channel (ChatEventInner.leave_channel (text "c")) table)
    ≡ channel_after (ChatEventInner.leave_channel (text "c")) (text "c") (get (text "c") table)
get-apply_channel_example =
    get-apply_channel (ChatEventInner.leave_channel (text "c")) (text "c") table

joined : apply_channels joins [] ≡ table
unfolding apply_channel insert get text text_ord cmp_text
joined = refl
