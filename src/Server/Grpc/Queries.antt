-- ===== src/Server/Grpc/Queries.antt =====
-- The handlers of src/server/grpc.rs that report on the server's own state.
use seabird_core.Prelude.{
  ℕ, Text, text, Option, List, map, Rpc, RpcResult, ok, pure, lift, ◌>>=◌, ◌>>◌, status, not_found,
  ok_or, gets, get, keys, values, Entries, text_ord, and_then,
}
use seabird_core.Id.{BackendId, backend_id_ord, relative, show_backend_id, show_full_id}
use seabird_core.Id.Percent.{PercentEncoding}
use seabird_core.Block.Message.{Tags}
use seabird_core.Proto.{Channel, ChatRequestInner, CommandMetadata}
use seabird_core.Server.State.{Server}
use seabird_core.Server.Requests.{Wait, issue_request}
use seabird_core.Server.Grpc.{full_id_of, backend_id_of, reply_metadata}

-- `proto::Backend`
pub record Backend : Type 0 where
  pub id : Text
  pub type : Text

pub record CoreInfoResponse : Type 0 where
  pub startup_timestamp : ℕ
  pub current_timestamp : ℕ

-- `backends.get(&backend_id).ok_or_else(..)?` and what the `Arc` points to: its channels.
unfoldable pub channels_of : BackendId → Server → RpcResult (Entries Text Channel)
channels_of id s =
    and_then (ok_or (status not_found (text "backend not found")) (get id s.backends))
      λ a. ok (s.arcs a).channels

module _ (p : PercentEncoding) where
  unfoldable pub backend_response : BackendId → Backend
  backend_response k = record { id = show_backend_id p k; type = k.scheme }

  unfoldable pub list_backends : Rpc Server (List Backend)
  unfolding backend_response
  list_backends = gets λ s. map backend_response (keys s.backends)

  unfoldable pub get_backend_info : Wait → Text → Rpc Server (Backend × Tags)
  get_backend_info w id = do
    backend_id ← lift (backend_id_of p id)
    found ← gets (λ s. get backend_id s.backends)
    lift (ok_or (status not_found (text "backend not found")) found)
    resp ← issue_request w backend_id ChatRequestInner.metadata
    metadata ← lift (reply_metadata resp)
    pure (backend_response backend_id, metadata)

  unfoldable pub channel_response : BackendId → Channel → Channel
  channel_response b c = record {
    id = show_full_id p (relative b c.id);
    display_name = c.display_name;
    topic = c.topic;
  }

  unfoldable pub list_channels : Text → Rpc Server (List Channel)
  list_channels id = do
    backend_id ← lift (backend_id_of p id)
    found ← gets (channels_of backend_id)
    channels ← lift found
    pure (map (channel_response backend_id) (values channels))

  unfoldable pub get_channel_info : Text → Rpc Server Channel
  get_channel_info id = do
    (backend_id, channel_id) ← lift (full_id_of p (text "failed to parse channel_id") id)
    found ← gets (channels_of backend_id)
    channels ← lift found
    channel ← lift (ok_or (status not_found (text "channel not found")) (get channel_id channels))
    pure (channel_response backend_id channel)

-- The clock is read as an argument; `none` when it stands before the epoch.
unfoldable pub get_core_info : Option ℕ → Rpc Server CoreInfoResponse
get_core_info clock = do
  startup ← gets (λ s. s.startup_timestamp)
  now ← lift (ok_or (status not_found (text "backend not found")) clock)
  pure (record { startup_timestamp = startup; current_timestamp = now })

unfoldable pub registered_commands : Rpc Server (Entries Text CommandMetadata)
registered_commands = gets λ s. s.commands
