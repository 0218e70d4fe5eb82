-- ===== src/Server/Ingest.antt =====
-- src/server/ingest_events.rs: the connection of a chat backend, from its hello to its end.
pub mod Frame
pub mod Start
pub mod Channels
pub mod Answer
pub mod Served
pub mod Publish
pub mod Session
pub mod Handle
pub mod Life
use seabird_core.Prelude.{
  ℕ, Text, text, Option, none, some, List, [], ◌∷◌, ◌++◌, Entries, Rpc, RpcResult, ok, err, pure,
  lift, modify, ◌>>=◌, ◌>>◌, text_ord, if◌then◌else◌, Status, status, internal, invalid_argument,
  get, insert, remove, extend, ok_or, is_empty,
}
use mathlib.Core.Option
use seabird_core.Id.{BackendId, backend_id_ord}
use seabird_core.Id.Percent.{PercentEncoding}
use seabird_core.Block.Message.{Tags, normalize_block}
use seabird_core.Proto.{
  User, ChannelSource, Channel, TextEvent, EventInner, ChatEventInner, ChannelEvent, ChatEvent,
  BackendInfo, user_into_relative, source_into_relative,
}
use seabird_core.Proto.{ChatRequest as ChatRequestMessage}
use seabird_core.Server.State.{
  Sender, Server, ChatBackendHandle, set_arc, drop_backend_handle, broadcast,
}
use seabird_core.Server.Requests.{respond, register_backend}

-- `backend` is the `Arc`, and `server` and the streams are arguments of what uses them.
pub record IngestEvents : Type 0 where
  pub id : BackendId
  pub backend : ℕ
  pub backend_handle : ChatBackendHandle

-- `channel.display_name = ..; channel.topic = ..` under `get_mut`
change_at : ChannelEvent → Option Channel → Entries Text Channel → Entries Text Channel
change_at change none m = m
change_at change (some channel) m =
    insert change.channel_id
      (record channel { display_name = change.display_name; topic = change.topic }) m

-- What an event does to the channels of its backend.
unfoldable pub apply_channel : ChatEventInner → Entries Text Channel → Entries Text Channel
unfolding change_at
apply_channel (ChatEventInner.join_channel join) m =
    insert join.channel_id
      (record { id = join.channel_id; display_name = join.display_name; topic = join.topic }) m
apply_channel (ChatEventInner.leave_channel channel_id) m = remove channel_id m
apply_channel (ChatEventInner.change_channel change) m =
    change_at change (get change.channel_id m) m
apply_channel _ m = m

-- `self.backend.channels.write()` and the change under it.
unfoldable pub update_channels : ℕ → ChatEventInner → Server → Server
unfolding apply_channel set_arc
update_channels a e s = record s {
  arcs = set_arc a (record (s.arcs a) { channels = apply_channel e (s.arcs a).channels }) s.arcs;
}

-- What `select` of the two streams yields: a request to pass on, with the end of its send to the
-- gRPC stream; an event or a transport error; the end of either stream.
pub data Selected : Type 0 where
  request_passed : ChatRequestMessage → Selected
  request_refused : ChatRequestMessage → Text → Selected
  event_read : ChatEvent → Selected
  read_failed : Status → Selected
  requests_ended events_ended : Selected

-- `self.request_sender.send(Ok(req))`, for a request that came from the channel `from`.
unfoldable pub pass_on : Sender → ChatRequestMessage → Server → Server
pass_on from req s = record s { passed = s.passed ++ (from, req) ∷ [] }

-- `if !event.id.is_empty() { respond }`
unfoldable pub respond_unless_empty : Text → ChatEventInner → Server → Server
respond_unless_empty id e s = if is_empty id then s else respond id e s

module _ (p : PercentEncoding) where
  -- The text and the block filled in, the source made relative, the tags extended.
  unfoldable pub relay :
      {S : Type 0}
      → (S → S)
      → (TextEvent S → EventInner)
      → TextEvent S
      → Tags
      → Rpc Server (Unit {0})
  relay into_relative con e tags = do
    (t, root_block, additional_tags) ← lift (normalize_block e.text e.root_block)
    modify (
        broadcast
          (con (record {
            source = Option.map into_relative e.source;
            text = t;
            root_block = some root_block;
          }))
          (extend tags additional_tags))

  unfoldable pub source_at : BackendId → ChannelSource → ChannelSource
  source_at id source = source_into_relative p source id

  unfoldable pub user_at : BackendId → User → User
  user_at id user = user_into_relative p user id

  -- the match of `handle_event`
  unfoldable pub dispatch : IngestEvents → ChatEventInner → Tags → Rpc Server (Unit {0})
  dispatch c ChatEventInner.success tags = pure tt
  dispatch c (ChatEventInner.failed reason) tags = pure tt
  dispatch c (ChatEventInner.metadata values) tags = pure tt
  dispatch c (ChatEventInner.action e) tags = relay (source_at c.id) EventInner.action e tags
  dispatch c (ChatEventInner.private_action e) tags =
      relay (user_at c.id) EventInner.private_action e tags
  dispatch c (ChatEventInner.message e) tags = relay (source_at c.id) EventInner.message e tags
  dispatch c (ChatEventInner.private_message e) tags =
      relay (user_at c.id) EventInner.private_message e tags
  dispatch c (ChatEventInner.command e) tags = modify (
      broadcast (EventInner.command (record e { source = Option.map (source_at c.id) e.source }))
        tags)
  dispatch c (ChatEventInner.mention e) tags = relay (source_at c.id) EventInner.mention e tags
  dispatch c (ChatEventInner.join_channel e) tags =
      modify (update_channels c.backend (ChatEventInner.join_channel e))
  dispatch c (ChatEventInner.leave_channel e) tags =
      modify (update_channels c.backend (ChatEventInner.leave_channel e))
  dispatch c (ChatEventInner.change_channel e) tags =
      modify (update_channels c.backend (ChatEventInner.change_channel e))
  dispatch c (ChatEventInner.hello info) tags =
      lift (err (status invalid_argument (text "unexpected chat event type")))

  unfoldable pub handle_event : IngestEvents → ChatEvent → Rpc Server (Unit {0})
  handle_event c event = do
    inner ← lift (ok_or (status internal (text "missing inner event")) event.inner)
    modify (respond_unless_empty event.id inner)
    dispatch c inner event.tags

  -- One turn of the loop of `run`; `ok` goes round again.
  unfoldable pub turn : IngestEvents → Selected → Rpc Server (Unit {0})
  unfolding pass_on
  turn c (request_passed req) = modify (pass_on c.backend_handle.receiver req)
  turn c (request_refused req why) =
      lift (err (status internal (text "failed to send request to backend: " ++ why)))
  turn c (event_read e) = handle_event c e
  turn c (read_failed e) = lift (err e)
  turn c requests_ended = lift (err (status internal (text "internal request stream ended")))
  turn c events_ended = lift (err (status internal (text "chat event stream ended")))

  -- `run` over what is selected, one after the other: `ok` while the loop still waits for more.
  unfoldable pub run : IngestEvents → List Selected → Rpc Server (Unit {0})
  unfolding turn
  run c [] = pure tt
  run c (x ∷ xs) = do turn c x; run c xs

-- The first message of the stream, as the spawned task reads it.
unfoldable pub read_hello : RpcResult (Option ChatEvent) → RpcResult BackendInfo
read_hello (err e) = err e
read_hello (ok none) = err (status invalid_argument (text "missing hello message"))
read_hello (ok (some message)) = elim message.inner [
  | none ↦ err (status invalid_argument (text "missing hello message inner"))
  | some (ChatEventInner.hello (some info)) ↦ ok info
  | some (ChatEventInner.hello none) ↦
      err (status invalid_argument (text "missing backend_info inner"))
  | some _ ↦ err (status invalid_argument (text "hello message inner is wrong type"))
]

-- `IngestEvents::new`
unfoldable pub connect : BackendId → Rpc Server IngestEvents
unfolding register_backend
connect id = do
  (handle, backend) ← register_backend id
  pure (record { id = id; backend = backend; backend_handle = handle })

-- The spawned task up to the loop.
unfoldable pub start : RpcResult (Option ChatEvent) → Rpc Server IngestEvents
start first = do
  info ← lift (read_hello first)
  connect (record { scheme = info.type; id = info.id })

-- The end of the task, however the loop ends: the handle is dropped.
unfoldable pub disconnect : IngestEvents → Server → Server
unfolding drop_backend_handle
disconnect c s = drop_backend_handle c.backend_handle s
