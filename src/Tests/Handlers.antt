-- ===== src/Tests/Handlers.antt =====
-- A plugin that sends a message.
use seabird_core.Prelude.{
  false, ◌<◌, and_then, ◌≡◌, refl, Text, text, none, some, [], ◌∷◌, ◌++◌, ok, err, Status, Entries,
  text_ord, cmp_text, get, insert, contains_key, extend, hash_insert, ◌⊎◌,
}
use seabird_core.Id.{
  BackendId, backend_id_ord, cmp_backend_id, relative, show_full_id, show_backend_id, parse_full_id,
  into_inner,
}
use seabird_core.Id.Split.{splitn_2}
use seabird_core.Block.{Block, BlockInner, MaybeInner}
use seabird_core.Block.Message.{Tags, normalize_block, original_format_tag}
use seabird_core.Proto.{EventInner, ChatRequestInner, TextChatRequest}
use seabird_core.Auth.{extract_auth_username, x_auth_username}
use seabird_core.Server.State.{drop_request_handle, Server, new, broadcast, set_arc}
use seabird_core.Server.Requests.{register_backend, issue_request}
use seabird_core.Server.Requests.{awaited_result}
use seabird_core.Server.Grpc.{TextRequest, full_id_of, reply_text, deliver_text}
use seabird_core.Server.Grpc.TextHandlers.{
  Accepted, deliver_text_asks, deliver_text_or_refuse, deliver_text_ok,
}
use seabird_core.Id.{parse_backend_id}
use seabird_core.Tests.Samples.{codec, headers, encode, decode}
use seabird_core.Tests.Fixtures.{net, one_backend, room, wait, complaint}

abbrev sent_headers : Entries Text Text
sent_headers = (x_auth_username, text "al") ∷ []

abbrev hi : TextRequest
hi = record { target = room; text = text "hi"; root_block = none; tags = [] }

abbrev event : Text → TextRequest → Text → Block → EventInner
event username req t b =
    EventInner.send_message
      (record { sender = username; channel_id = req.target; text = t; root_block = some b })

hi_is_sent :
    (deliver_text codec headers complaint event ChatRequestInner.send_message wait sent_headers hi
      one_backend).0
    ≡ ok tt
unfolding deliver_text full_id_of reply_text issue_request register_backend contains_key insert get
    new backend_id_ord text text_ord cmp_text extract_auth_username normalize_block parse_full_id
    show_full_id relative into_inner splitn_2 encode decode broadcast set_arc show_backend_id
    seabird_core.Id.decode seabird_core.Block.normalize_block_inner
    seabird_core.Block.render_inner_block
hi_is_sent = refl

deliver_text_ok_example : Accepted codec headers sent_headers complaint hi
deliver_text_ok_example =
    (deliver_text_ok codec headers sent_headers complaint hi event ChatRequestInner.send_message
      wait one_backend hi_is_sent).0

abbrev hi_block : Block
hi_block = Block.block (text "hi") (MaybeInner.inner (BlockInner.text_block (text "hi")))

abbrev from_text : Tags
from_text = (text "core/original-format", text "text") ∷ []

caller : extract_auth_username headers sent_headers ≡ ok (text "al")
unfolding extract_auth_username get text text_ord cmp_text
caller = refl

room_is_read : full_id_of codec complaint room ≡ ok (net, text "c")
unfolding full_id_of parse_full_id show_full_id relative into_inner splitn_2 encode decode
    show_backend_id seabird_core.Id.decode text
room_is_read = refl

hi_normalizes : normalize_block (text "hi") none ≡ ok (text "hi", hi_block, from_text)
unfolding normalize_block seabird_core.Block.normalize_block_inner
    seabird_core.Block.render_inner_block hash_insert original_format_tag
hi_normalizes = refl

abbrev accepted : Accepted codec headers sent_headers complaint hi
accepted = record {
  username = text "al";
  named = caller;
  backend = net;
  target = text "c";
  parsed = room_is_read;
  t = text "hi";
  root_block = hi_block;
  additional_tags = from_text;
  normalized = hi_normalizes;
}

abbrev hi_message : TextChatRequest
hi_message = record {
  target = text "c";
  text = text "hi";
  root_block = some hi_block;
  tags = extend [] from_text;
}

net_found : get net one_backend.backends ≡ some 0
unfolding register_backend contains_key insert get new backend_id_ord text text_ord cmp_text
net_found = refl

is_new : contains_key (text "r") one_backend.requests ≡ false
unfolding register_backend contains_key new
is_new = refl

deliver_text_asks_example :
    (t : Server) × (t.sender
      ≡ one_backend.sender
        ++ record {
          inner = some (event (text "al") hi (text "hi") hi_block);
          tags = extend [] from_text;
        }
          ∷ [])
    × (t.asked
        ≡ one_backend.asked
          ++ (
            (one_backend.arcs 0).sender,
            record { id = text "r"; inner = some (ChatRequestInner.send_message hi_message) },
          )
            ∷ [])
    × (get (text "r") t.requests ≡ some (some (record { sender = one_backend.next })))
    × (one_backend.next < t.next)
    × (deliver_text codec headers complaint event ChatRequestInner.send_message wait sent_headers hi
          one_backend
        ≡ (
          and_then (awaited_result wait.awaited) reply_text,
          drop_request_handle (record { id = text "r"; receiver = one_backend.next }) t,
        ))
deliver_text_asks_example =
    deliver_text_asks codec headers sent_headers complaint hi event ChatRequestInner.send_message
      wait one_backend accepted 0 net_found is_new refl

deliver_text_or_refuse_example :
    Accepted codec headers [] complaint hi
    ⊎ ((e : Status) × (deliver_text codec headers complaint event ChatRequestInner.send_message wait
            [] hi one_backend
          ≡ (err e, one_backend)))
deliver_text_or_refuse_example =
    deliver_text_or_refuse codec headers [] complaint hi event ChatRequestInner.send_message wait
      one_backend
