-- ===== src/Proto.antt =====
-- src/proto.rs: the protobuf messages that the program reads and builds, and the two methods that it
-- adds to them. The types are generated from .proto files outside the repository; a type has here
-- the fields that the source names.
use seabird_core.Prelude.{Text, Option}
use mathlib.Core.Option
use seabird_core.Block.{Block}
use seabird_core.Block.Message.{Tags}
use seabird_core.Id.{BackendId, relative, show_full_id}
use seabird_core.Id.Percent.{PercentEncoding}

pub record User : Type 0 where
  pub id : Text
  pub display_name : Text

pub record ChannelSource : Type 0 where
  pub channel_id : Text
  pub user : Option User

pub record Channel : Type 0 where
  pub id : Text
  pub display_name : Text
  pub topic : Text

-- ActionEvent, MessageEvent and MentionEvent with a `ChannelSource`, PrivateActionEvent and
-- PrivateMessageEvent with a `User`.
pub record TextEvent (Source : Type 0) : Type 0 where
  pub source : Option Source
  pub text : Text
  pub root_block : Option Block

pub record CommandEvent : Type 0 where
  pub source : Option ChannelSource
  pub command : Text
  pub arg : Text

-- SendMessageEvent and PerformActionEvent.
pub record ToChannelEvent : Type 0 where
  pub sender : Text
  pub channel_id : Text
  pub text : Text
  pub root_block : Option Block

-- SendPrivateMessageEvent and PerformPrivateActionEvent.
pub record ToUserEvent : Type 0 where
  pub sender : Text
  pub user_id : Text
  pub text : Text
  pub root_block : Option Block

pub data EventInner : Type 0 where
  action message mention : TextEvent ChannelSource → EventInner
  private_action private_message : TextEvent User → EventInner
  command : CommandEvent → EventInner
  send_message perform_action : ToChannelEvent → EventInner
  send_private_message perform_private_action : ToUserEvent → EventInner

pub record Event : Type 0 where
  pub inner : Option EventInner
  pub tags : Tags

pub record BackendInfo : Type 0 where
  pub type : Text
  pub id : Text

-- JoinChannelChatEvent and ChangeChannelChatEvent.
pub record ChannelEvent : Type 0 where
  pub channel_id : Text
  pub display_name : Text
  pub topic : Text

-- What a chat backend sends.
pub data ChatEventInner : Type 0 where
  success : ChatEventInner
  failed : Text → ChatEventInner
  metadata : Tags → ChatEventInner
  action message mention : TextEvent ChannelSource → ChatEventInner
  private_action private_message : TextEvent User → ChatEventInner
  command : CommandEvent → ChatEventInner
  join_channel change_channel : ChannelEvent → ChatEventInner
  leave_channel : Text → ChatEventInner
  hello : Option BackendInfo → ChatEventInner

pub record ChatEvent : Type 0 where
  pub id : Text
  pub inner : Option ChatEventInner
  pub tags : Tags

-- SendMessageChatRequest and the like: the target is a channel or a user, named by its backend.
pub record TextChatRequest : Type 0 where
  pub target : Text
  pub text : Text
  pub root_block : Option Block
  pub tags : Tags

-- What a chat backend is asked to do.
pub data ChatRequestInner : Type 0 where
  send_message send_private_message : TextChatRequest → ChatRequestInner
  perform_action perform_private_action : TextChatRequest → ChatRequestInner
  join_channel leave_channel : Text → Tags → ChatRequestInner
  update_channel_info : Text → Text → Tags → ChatRequestInner
  metadata : ChatRequestInner

pub record ChatRequest : Type 0 where
  pub id : Text
  pub inner : Option ChatRequestInner

-- Passed on and never read: it stands as its encoding.
abbrev pub CommandMetadata : Type 0
CommandMetadata = Text

module _ (p : PercentEncoding) where
  -- `User::into_relative`
  unfoldable pub user_into_relative : User → BackendId → User
  user_into_relative u b = record {
    id = show_full_id p (relative b u.id);
    display_name = u.display_name;
  }

  -- `ChannelSource::into_relative`
  unfoldable pub source_into_relative : ChannelSource → BackendId → ChannelSource
  unfolding user_into_relative
  source_into_relative c b = record {
    channel_id = show_full_id p (relative b c.channel_id);
    user = Option.map (λ u. user_into_relative u b) c.user;
  }
