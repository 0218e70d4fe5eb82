-- ===== src/Server/Ingest/Publish.antt =====
-- What plugins see of an event that src/server/ingest_events.rs handles.
use mathlib.Core.Option
use seabird_core.Prelude.{
  ◌≡◌, refl, sym, Text, none, some, List, [], ◌∷◌, ◌++◌, append-nil, arith, extend, text_ord,
  Option-cases, inl, inr, hash_insert,
}
use seabird_core.Id.{BackendId, show_full_id, relative}
use seabird_core.Id.Percent.{PercentEncoding}
use seabird_core.Block.Described.{complaint, fill, rendering}
use seabird_core.Block.Normal.{normalize_block_inner-eq, plain-fill}
use seabird_core.Block.Message.{
  Tags, normalize_block, block_or_text, original_format, original_format_tag,
}
use seabird_core.Proto.{
  ChannelSource, User, TextEvent, Event, EventInner, ChatEventInner, ChatEvent,
  source_into_relative, user_into_relative,
}
use seabird_core.Server.State.{Server, broadcast}
use seabird_core.Server.Requests.{respond}
use seabird_core.Server.Ingest.{
  IngestEvents, event_read, turn, relay, dispatch, handle_event, respond_unless_empty, source_at,
  user_at, update_channels,
}

abbrev message : {S : Type 0} → (TextEvent S → EventInner) → (S → S) → TextEvent S → Tags → Event
message con f e tags =
    let b = block_or_text e.text e.root_block in
    record {
      inner = some (
          con (record {
            source = Option.map f e.source;
            text = rendering b;
            root_block = some (fill b);
          }));
      tags = extend tags (hash_insert original_format_tag (original_format e.root_block) []);
    }

-- A text event is shown with the rendering of its block, unless the block is refused.
abbrev shown : {S : Type 0} → (TextEvent S → EventInner) → (S → S) → TextEvent S → Tags → List Event
shown con f e tags = elim (complaint (block_or_text e.text e.root_block)) [
  | some _ ↦ []
  | none ↦ message con f e tags ∷ []
]

module _ (p : PercentEncoding) where
  -- A user and a channel of the backend `id`, under full identifiers.
  abbrev full_user : BackendId → User → User
  full_user id user = record {
    id = show_full_id p (record { backend = id; path = user.id });
    display_name = user.display_name;
  }

  abbrev full_source : BackendId → ChannelSource → ChannelSource
  full_source id source = record {
    channel_id = show_full_id p (record { backend = id; path = source.channel_id });
    user = Option.map (full_user id) source.user;
  }

  -- What plugins see of an event of the backend `id`: messages, actions, mentions and commands, with
  -- their source under the backend's identifier, and nothing else.
  abbrev pub published : BackendId → ChatEventInner → Tags → List Event
  published id (ChatEventInner.action e) tags = shown EventInner.action (full_source id) e tags
  published id (ChatEventInner.message e) tags = shown EventInner.message (full_source id) e tags
  published id (ChatEventInner.mention e) tags = shown EventInner.mention (full_source id) e tags
  published id (ChatEventInner.private_action e) tags =
      shown EventInner.private_action (full_user id) e tags
  published id (ChatEventInner.private_message e) tags =
      shown EventInner.private_message (full_user id) e tags
  published id (ChatEventInner.command e) tags =
      record {
        inner =
            some (EventInner.command (record e { source = Option.map (full_source id) e.source }));
        tags = tags;
      }
      ∷ []
  published id _ tags = []

  relay-shown :
      {S : Type 0} (con : TextEvent S → EventInner) (f : S → S) (e : TextEvent S) (tags : Tags)
      (s : Server)
      → (relay p f con e tags s).1.sender ≡ s.sender ++ shown con f e tags
  unfolding relay broadcast normalize_block
  relay-shown con f e tags s =
      let b = block_or_text e.text e.root_block in
      elim (Option-cases (complaint b)) [
        | inl fine ↦ ground (arith, fine, normalize_block_inner-eq b, plain-fill b)
        | inr (why, missing) ↦
            ground (arith, missing, normalize_block_inner-eq b, append-nil s.sender)
      ]

  dispatch-published :
      (c : IngestEvents) (i : ChatEventInner) (tags : Tags) (s : Server)
      → (dispatch p c i tags s).1.sender ≡ s.sender ++ published c.id i tags
  unfolding dispatch broadcast source_at user_at update_channels source_into_relative
      user_into_relative relative
  dispatch-published c (ChatEventInner.action e) tags s = relay-shown _ _ e tags s
  dispatch-published c (ChatEventInner.message e) tags s = relay-shown _ _ e tags s
  dispatch-published c (ChatEventInner.mention e) tags s = relay-shown _ _ e tags s
  dispatch-published c (ChatEventInner.private_action e) tags s = relay-shown _ _ e tags s
  dispatch-published c (ChatEventInner.private_message e) tags s = relay-shown _ _ e tags s
  dispatch-published c (ChatEventInner.command e) tags s = refl
  dispatch-published c (ChatEventInner.join_channel e) tags s = sym (append-nil s.sender)
  dispatch-published c (ChatEventInner.leave_channel e) tags s = sym (append-nil s.sender)
  dispatch-published c (ChatEventInner.change_channel e) tags s = sym (append-nil s.sender)
  dispatch-published c _ tags s = sym (append-nil s.sender)

  respond_unless_empty-sender :
      (id : Text) (i : ChatEventInner) (s : Server)
      → (respond_unless_empty id i s).sender ≡ s.sender
  unfolding respond_unless_empty respond
  respond_unless_empty-sender id i s = ground arith

  -- A connection that reads an event broadcasts what `published` says of it and nothing else: a
  -- message, an action or a mention with its source under the backend's identifier, its block filled
  -- in and its text the rendering of the block, or nothing if the block is refused; a
  -- command as it is but for its source; and nothing for every other event.
  pub turn-published :
      (c : IngestEvents) (e : ChatEvent) (i : ChatEventInner) (s : Server)
      → e.inner ≡ some i
      → (turn p c (event_read e) s).1.sender ≡ s.sender ++ published c.id i e.tags
  unfolding turn handle_event
  turn-published c e i s h = ground (
    arith,
    h,
    dispatch-published c i e.tags (respond_unless_empty e.id i s),
    respond_unless_empty-sender e.id i s,
  )
