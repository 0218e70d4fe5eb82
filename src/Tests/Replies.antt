-- ===== src/Tests/Replies.antt =====
-- Handlers that join, leave and describe, and plugins that stream events.
use mathlib.Core.List.{Nodup-cons, Nodup-nil, not-mem-nil}
use seabird_core.Prelude.{
  ◌≡◌, refl, Text, text, none, List, [], ◌∷◌, ok, Entries, text_ord, cmp_text, get, insert,
  contains_key,
}
use seabird_core.Id.{
  BackendId, backend_id_ord, cmp_backend_id, relative, show_full_id, show_backend_id, parse_full_id,
  into_inner,
}
use seabird_core.Id.Split.{splitn_2}
use seabird_core.Proto.{ChatEventInner, CommandMetadata}
use seabird_core.Server.State.{new, set_arc}
use seabird_core.Server.Requests.{Wait, answer, register_backend, issue_request}
use seabird_core.Server.Grpc.{full_id_of}
use seabird_core.Server.Grpc.Stream.{stream_events}
use seabird_core.Server.Grpc.Register.{Outcome, stream_events-Outcome}
use seabird_core.Server.Grpc.TextHandlers.{Answered}
use seabird_core.Server.Grpc.{
  JoinChannelRequest, join_channel, backend_id_of, reply_join, reply_metadata,
}
use seabird_core.Server.Grpc.Queries.{get_backend_info, backend_response}
use seabird_core.Server.Grpc.Answers.{Confirmed, join_channel_ok, get_backend_info_ok}
use seabird_core.Server.Grpc.Forward.{Forwards, stream_loop-Forwards}
use seabird_core.Server.Grpc.Stream.{Selected, forwarded, stream_loop}
use seabird_core.Id.{parse_backend_id}
use seabird_core.Tests.Samples.{codec, encode, decode}
use seabird_core.Tests.Fixtures.{net, empty_server, one_backend, wait}

-- Two plugins.
abbrev help : Entries Text CommandMetadata
help = (text "help", text "usage") ∷ []

abbrev roll : Entries Text CommandMetadata
roll = (text "roll", text "dice") ∷ []

stream_events-Outcome_example :
    Outcome roll
      (record empty_server { commands = help })
      (stream_events roll (record empty_server { commands = help }))
stream_events-Outcome_example =
    stream_events-Outcome roll (record empty_server { commands = help })
      (Nodup-cons.1 (not-mem-nil, Nodup-nil))

-- A handler that joins a room, and one that asks for what a backend is.
abbrev joining : JoinChannelRequest
joining = record { backend_id = show_backend_id codec net; channel_name = text "c"; tags = [] }

joining_ok : (join_channel codec wait joining one_backend).0 ≡ ok tt
unfolding join_channel reply_join backend_id_of parse_backend_id full_id_of issue_request
    register_backend contains_key insert get new backend_id_ord text text_ord cmp_text parse_full_id
    show_full_id relative into_inner splitn_2 encode decode set_arc show_backend_id
    seabird_core.Id.decode
joining_ok = refl

join_channel_ok_example :
    (b : BackendId) × (backend_id_of codec joining.backend_id ≡ ok b)
    × Confirmed ChatEventInner.join_channel wait b one_backend
join_channel_ok_example = join_channel_ok codec wait one_backend joining joining_ok

abbrev described : Wait
described = record wait { awaited = answer (ChatEventInner.metadata []) }

asked_for :
    (get_backend_info codec described (show_backend_id codec net) one_backend).0
    ≡ ok (backend_response codec net, [])
unfolding get_backend_info reply_metadata backend_id_of parse_backend_id backend_response full_id_of
    issue_request register_backend contains_key insert get new backend_id_ord text text_ord cmp_text
    parse_full_id show_full_id relative into_inner splitn_2 encode decode set_arc show_backend_id
    seabird_core.Id.decode
asked_for = refl

get_backend_info_ok_example :
    (b : BackendId) × (backend_id_of codec (show_backend_id codec net) ≡ ok b)
    × (backend_response codec net ≡ backend_response codec b)
    × Answered described b one_backend (ChatEventInner.metadata [])
get_backend_info_ok_example =
    get_backend_info_ok codec described one_backend (show_backend_id codec net)
      (backend_response codec net) [] asked_for

abbrev selected : List Selected
selected = forwarded (record { inner = none; tags = [] }) ∷ Selected.lagged (text "9") ∷ []

stream_loop-Forwards_example : Forwards selected (stream_loop selected)
stream_loop-Forwards_example = stream_loop-Forwards selected
