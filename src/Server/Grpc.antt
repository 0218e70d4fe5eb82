-- ===== src/Server/Grpc.antt =====
-- src/server/grpc.rs: the handlers of the service `Seabird` that talk to a chat backend.
pub mod Queries
pub mod Stream
pub mod Register
pub mod Routing
pub mod TextHandlers
pub mod Answers
pub mod Asked
pub mod Forward
pub mod Select
use seabird_core.Prelude.{
  Text, text, Option, none, some, Rpc, RpcResult, ok, err, pure, lift, modify, ◌>>=◌, ◌>>◌, status,
  internal, unknown, invalid_argument, not_found, map_err, ok_or, gets, get, extend, text_ord,
}
use seabird_core.Id.{
  BackendId, backend_id_ord, into_inner, parse_full_id, parse_backend_id, show_backend_id,
}
use seabird_core.Id.Percent.{PercentEncoding}
use seabird_core.Block.{Block}
use seabird_core.Block.Message.{Tags, normalize_block}
use seabird_core.Proto.{EventInner, ChatEventInner, ChatRequestInner, TextChatRequest}
use seabird_core.Auth.{extract_auth_username}
use seabird_core.Auth.Headers.{HeaderMap}
use seabird_core.Server.State.{Server, broadcast}
use seabird_core.Server.Requests.{Wait, issue_request}

-- SendMessageRequest, SendPrivateMessageRequest, PerformActionRequest and
-- PerformPrivateActionRequest: the target is `channel_id` or `user_id`.
pub record TextRequest : Type 0 where
  pub target : Text
  pub text : Text
  pub root_block : Option Block
  pub tags : Tags

pub record JoinChannelRequest : Type 0 where
  pub backend_id : Text
  pub channel_name : Text
  pub tags : Tags

pub record LeaveChannelRequest : Type 0 where
  pub channel_id : Text
  pub tags : Tags

pub record UpdateChannelInfoRequest : Type 0 where
  pub channel_id : Text
  pub topic : Text
  pub tags : Tags

-- The `match resp` that ends each handler; the event beside success that it takes is an argument.
unfoldable pub reply :
    (ChatEventInner → RpcResult (Unit {0})) → ChatEventInner → RpcResult (Unit {0})
reply other ChatEventInner.success = ok tt
reply other (ChatEventInner.failed reason) = err (status unknown reason)
reply other e = other e

abbrev unexpected {ℓ} : {A : Type ℓ} → RpcResult A
unexpected = err (status internal (text "unexpected chat event"))

-- The end of the four text handlers.
unfoldable pub reply_text : ChatEventInner → RpcResult (Unit {0})
unfolding reply
reply_text = reply λ e. unexpected

unfoldable pub reply_join : ChatEventInner → RpcResult (Unit {0})
unfolding reply
reply_join = reply λ e. elim e [ ChatEventInner.join_channel j ↦ ok tt | _ ↦ unexpected ]

unfoldable pub reply_leave : ChatEventInner → RpcResult (Unit {0})
unfolding reply
reply_leave = reply λ e. elim e [ ChatEventInner.leave_channel l ↦ ok tt | _ ↦ unexpected ]

unfoldable pub reply_update : ChatEventInner → RpcResult (Unit {0})
unfolding reply
reply_update = reply λ e. elim e [ ChatEventInner.change_channel c ↦ ok tt | _ ↦ unexpected ]

-- `metadata.values`, of which `get_backend_info` makes its response.
unfoldable pub reply_metadata : ChatEventInner → RpcResult Tags
reply_metadata (ChatEventInner.metadata values) = ok values
reply_metadata (ChatEventInner.failed reason) = err (status unknown reason)
reply_metadata _ = unexpected

module _ (p : PercentEncoding) where
  unfoldable pub full_id_of : Text → Text → RpcResult (BackendId × Text)
  full_id_of complaint s = elim (parse_full_id p s) [
    | ok f ↦ ok (into_inner f)
    | err e ↦ err (status invalid_argument complaint)
  ]

  unfoldable pub backend_id_of : Text → RpcResult BackendId
  backend_id_of s =
      map_err (λ e. status invalid_argument (text "failed to parse backend_id"))
        (parse_backend_id p s)

  module _ (m : HeaderMap) where
    open m use {Headers}

    -- The body that the four text handlers share, up to the names of their types: the event is
    -- broadcast, and then the backend is asked.
    unfoldable pub deliver_text :
        Text
        → (Text → TextRequest → Text → Block → EventInner)
        → (TextChatRequest → ChatRequestInner)
        → Wait
        → Headers
        → TextRequest
        → Rpc Server (Unit {0})
    deliver_text complaint event request w headers req = do
      username ← lift (extract_auth_username m headers)
      (backend_id, target) ← lift (full_id_of complaint req.target)
      (t, root_block, additional_tags) ← lift (normalize_block req.text req.root_block)
      let tags = extend req.tags additional_tags
      modify (broadcast (event username req t root_block) tags)
      resp ← issue_request w backend_id (
          request (record { target = target; text = t; root_block = some root_block; tags = tags }))
      lift (reply_text resp)

    unfoldable pub send_message : Wait → Headers → TextRequest → Rpc Server (Unit {0})
    unfolding deliver_text
    send_message =
        deliver_text (text "failed to parse channel_id")
          (λ username req t b.
            EventInner.send_message (record {
              sender = username;
              channel_id = req.target;
              text = t;
              root_block = some b;
            }))
          ChatRequestInner.send_message

    unfoldable pub send_private_message : Wait → Headers → TextRequest → Rpc Server (Unit {0})
    unfolding deliver_text
    send_private_message =
        deliver_text (text "failed to parse user_id")
          (λ username req t b.
            EventInner.send_private_message
              (record { sender = username; user_id = req.target; text = t; root_block = some b }))
          ChatRequestInner.send_private_message

    unfoldable pub perform_action : Wait → Headers → TextRequest → Rpc Server (Unit {0})
    unfolding deliver_text
    perform_action =
        deliver_text (text "failed to parse channel_id")
          (λ username req t b.
            EventInner.perform_action (record {
              sender = username;
              channel_id = req.target;
              text = t;
              root_block = some b;
            }))
          ChatRequestInner.perform_action

    unfoldable pub perform_private_action : Wait → Headers → TextRequest → Rpc Server (Unit {0})
    unfolding deliver_text
    perform_private_action =
        deliver_text (text "failed to parse user_id")
          (λ username req t b.
            EventInner.perform_private_action
              (record { sender = username; user_id = req.target; text = t; root_block = some b }))
          ChatRequestInner.perform_private_action

  unfoldable pub join_channel : Wait → JoinChannelRequest → Rpc Server (Unit {0})
  join_channel w req = do
    backend_id ← lift (backend_id_of req.backend_id)
    resp ← issue_request w backend_id (ChatRequestInner.join_channel req.channel_name req.tags)
    lift (reply_join resp)

  unfoldable pub leave_channel : Wait → LeaveChannelRequest → Rpc Server (Unit {0})
  leave_channel w req = do
    (backend_id, channel_id) ← lift (full_id_of (text "failed to parse channel_id") req.channel_id)
    resp ← issue_request w backend_id (ChatRequestInner.leave_channel channel_id req.tags)
    lift (reply_leave resp)

  unfoldable pub update_channel_info : Wait → UpdateChannelInfoRequest → Rpc Server (Unit {0})
  update_channel_info w req = do
    (backend_id, channel_id) ← lift (full_id_of (text "failed to parse channel_id") req.channel_id)
    resp ←
        issue_request w backend_id
          (ChatRequestInner.update_channel_info channel_id req.topic req.tags)
    lift (reply_update resp)
