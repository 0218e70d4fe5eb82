-- ===== src/Server/System/Channels/Events.antt =====
-- What a turn of a connection does to the channels of backends (src/server/ingest_events.rs).
use seabird_core.Prelude.{◌≡◌, ◌≢◌, refl, sym, ℕ, Text, some, arith, text_ord}
use seabird_core.Id.Percent.{PercentEncoding}
use seabird_core.Block.Message.{Tags}
use seabird_core.Proto.{TextEvent, EventInner, ChatEventInner, ChatEvent}
use seabird_core.Server.State.{Server, broadcast, set_arc}
use seabird_core.Server.Requests.{respond}
use seabird_core.Server.Ingest.{
  IngestEvents, event_read, relay, dispatch, handle_event, turn, update_channels, apply_channel,
  respond_unless_empty,
}

-- From `s` to `t`, the backend at `a` saw the event, and no other did.
pub record Applied (a : ℕ) (e : ChatEventInner) (s t : Server) : Type 0 where
  pub here : (t.arcs a).channels ≡ apply_channel e (s.arcs a).channels
  pub elsewhere : (b : ℕ) → b ≢ a → t.arcs b ≡ s.arcs b
  pub backends : t.backends ≡ s.backends

update_channels-Applied :
    (a : ℕ) (e : ChatEventInner) (s : Server) → Applied a e s (update_channels a e s)
unfolding update_channels set_arc
update_channels-Applied a e s = record {
  here = ground arith;
  elsewhere = λ b n. ground (arith, n);
  backends = refl;
}

respond_unless_empty-arcs :
    (id : Text) (e : ChatEventInner) (s : Server) → (respond_unless_empty id e s).arcs ≡ s.arcs
unfolding respond_unless_empty respond
respond_unless_empty-arcs id e s = ground arith

respond_unless_empty-backends :
    (id : Text) (e : ChatEventInner) (s : Server)
    → (respond_unless_empty id e s).backends ≡ s.backends
unfolding respond_unless_empty respond
respond_unless_empty-backends id e s = ground arith

module _ (p : PercentEncoding) where
  relay-arcs :
      {S : Type 0} (f : S → S) (con : TextEvent S → EventInner) (e : TextEvent S) (tags : Tags)
      (s : Server)
      → (relay p f con e tags s).1.arcs ≡ s.arcs
  unfolding relay broadcast
  relay-arcs f con e tags s = ground arith

  relay-backends :
      {S : Type 0} (f : S → S) (con : TextEvent S → EventInner) (e : TextEvent S) (tags : Tags)
      (s : Server)
      → (relay p f con e tags s).1.backends ≡ s.backends
  unfolding relay broadcast
  relay-backends f con e tags s = ground arith

  -- An event that says nothing of channels leaves them all.
  untouched :
      (a : ℕ) (e : ChatEventInner) (s t : Server)
      → apply_channel e (s.arcs a).channels ≡ (s.arcs a).channels
      → t.arcs ≡ s.arcs
      → t.backends ≡ s.backends
      → Applied a e s t
  untouched a e s t q r b = record {
    here = rw r (sym q);
    elsewhere = λ b n. rw r refl;
    backends = b;
  }

  dispatch-Applied :
      (c : IngestEvents) (e : ChatEventInner) (tags : Tags) (s : Server)
      → Applied c.backend e s (dispatch p c e tags s).1
  unfolding dispatch apply_channel broadcast
  dispatch-Applied c (ChatEventInner.action e) tags s =
      untouched _ _ s _ refl (relay-arcs _ _ e tags s) (relay-backends _ _ e tags s)
  dispatch-Applied c (ChatEventInner.private_action e) tags s =
      untouched _ _ s _ refl (relay-arcs _ _ e tags s) (relay-backends _ _ e tags s)
  dispatch-Applied c (ChatEventInner.message e) tags s =
      untouched _ _ s _ refl (relay-arcs _ _ e tags s) (relay-backends _ _ e tags s)
  dispatch-Applied c (ChatEventInner.private_message e) tags s =
      untouched _ _ s _ refl (relay-arcs _ _ e tags s) (relay-backends _ _ e tags s)
  dispatch-Applied c (ChatEventInner.mention e) tags s =
      untouched _ _ s _ refl (relay-arcs _ _ e tags s) (relay-backends _ _ e tags s)
  dispatch-Applied c (ChatEventInner.join_channel e) tags s = update_channels-Applied c.backend _ s
  dispatch-Applied c (ChatEventInner.leave_channel e) tags s = update_channels-Applied c.backend _ s
  dispatch-Applied c (ChatEventInner.change_channel e) tags s =
      update_channels-Applied c.backend _ s
  dispatch-Applied c (ChatEventInner.command e) tags s = untouched _ _ s _ refl refl refl
  dispatch-Applied c _ tags s = untouched _ _ s s refl refl refl

  -- The turn that reads an event.
  pub turn-Applied :
      (c : IngestEvents) (e : ChatEvent) (i : ChatEventInner) (s : Server)
      → e.inner ≡ some i
      → Applied c.backend i s (turn p c (event_read e) s).1
  unfolding turn handle_event
  turn-Applied c e i s h =
      let told = respond_unless_empty e.id i s in
      let done = dispatch-Applied c i e.tags told in
      record {
        here = ground (arith, h, done.here, respond_unless_empty-arcs e.id i s);
        elsewhere =
            λ b n. ground (arith, h, done.elsewhere b n, respond_unless_empty-arcs e.id i s);
        backends = ground (arith, h, done.backends, respond_unless_empty-backends e.id i s);
      }
