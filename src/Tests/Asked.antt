-- ===== src/Tests/Asked.antt =====
-- A handler that updates the channel of a backend.
use seabird_core.Prelude.{◌≡◌, refl, text, [], ok, text_ord, cmp_text, get, insert, contains_key}
use seabird_core.Id.{
  backend_id_ord, cmp_backend_id, relative, show_full_id, show_backend_id, parse_full_id,
  into_inner,
}
use seabird_core.Id.Split.{splitn_2}
use seabird_core.Proto.{ChatRequestInner}
use seabird_core.Server.State.{new, set_arc}
use seabird_core.Server.Requests.{register_backend}
use seabird_core.Server.Grpc.{
  UpdateChannelInfoRequest, full_id_of, reply_update, update_channel_info,
}
use seabird_core.Server.Grpc.Asked.{CanAsk, Asked, update_channel_info_asks}
use seabird_core.Tests.Samples.{codec, encode, decode}
use seabird_core.Tests.Fixtures.{net, one_backend, room, wait, complaint}

abbrev updating : UpdateChannelInfoRequest
updating = record { channel_id = room; topic = text "t"; tags = [] }

room_is_known : full_id_of codec complaint updating.channel_id ≡ ok (net, text "c")
unfolding full_id_of text parse_full_id show_full_id relative into_inner splitn_2 encode decode
    show_backend_id seabird_core.Id.decode
room_is_known = refl

net-CanAsk : CanAsk wait net 0 one_backend
unfolding register_backend contains_key insert get new backend_id_ord text text_ord cmp_text set_arc
net-CanAsk = record { registered = refl; new_id = refl; delivers = refl }

update_channel_info_asks_example :
    Asked wait 0
      (ChatRequestInner.update_channel_info (text "c") (text "t") [])
      reply_update
      one_backend
      (update_channel_info codec wait updating one_backend)
update_channel_info_asks_example =
    update_channel_info_asks codec wait one_backend net 0 net-CanAsk updating (text "c")
      room_is_known
