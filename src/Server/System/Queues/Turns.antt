-- ===== src/Server/System/Queues/Turns.antt =====
-- What the steps of src/server/ingest_events.rs and src/server/mod.rs do to the mpsc channels.

use seabird_core.Prelude.{
  ℕ, ◌≡◌, refl, ◌∙◌, List, [], ◌∷◌, arith, append_assoc, append-nil, Bool-cases, Option-cases, inl,
  inr, ◌==◌, Text, text_ord,
}
use seabird_core.Id.{backend_id_ord}
use seabird_core.Id.Percent.{PercentEncoding}
use seabird_core.Block.Message.{Tags}
use seabird_core.Proto.{
  ChatRequest as ChatRequestMessage, TextEvent, EventInner, ChatEvent, ChatEventInner,
}
use seabird_core.Server.State.{Server, Sender, on, set_arc, broadcast}
use seabird_core.Server.Requests.{respond}
use seabird_core.Server.Ingest.{
  IngestEvents, Selected, request_passed, event_read, turn, handle_event, dispatch, relay,
  update_channels, respond_unless_empty, pass_on,
}
use seabird_core.Server.System.{Yields, NextRequest}
use seabird_core.Server.System.Queues.{Queues, on-append, Unasked, Unasked-Queues}

-- Nothing at all that `Queues` reads differs.
record Idle (s t : Server) : Type 0 where
  asked : t.asked ≡ s.asked
  passed : t.passed ≡ s.passed
  senders : (a : ℕ) → (t.arcs a).sender ≡ (s.arcs a).sender
  backends : t.backends ≡ s.backends
  next : t.next ≡ s.next

Idle-refl : (s : Server) → Idle s s
Idle-refl s = record {
  asked = refl;
  passed = refl;
  senders = λ a. refl;
  backends = refl;
  next = refl;
}

Idle-trans : {s t u : Server} → Idle s t → Idle t u → Idle s u
Idle-trans i j = record {
  asked = j.asked ∙ i.asked;
  passed = j.passed ∙ i.passed;
  senders = λ a. j.senders a ∙ i.senders a;
  backends = j.backends ∙ i.backends;
  next = j.next ∙ i.next;
}

Idle-Unasked : (s t : Server) → Idle s t → Unasked s t
Idle-Unasked s t i = record {
  asked = i.asked;
  passed = i.passed;
  senders = i.senders;
  backends = λ b a h. rw i.backends at h;
  grows = omega (arith, i.next);
}

update_channels-Idle : (a : ℕ) (e : ChatEventInner) (s : Server) → Idle s (update_channels a e s)
unfolding update_channels set_arc
update_channels-Idle a e s = record {
  asked = refl;
  passed = refl;
  senders = λ b. ground arith;
  backends = refl;
  next = refl;
}

respond_unless_empty-Idle :
    (id : Text) (e : ChatEventInner) (s : Server) → Idle s (respond_unless_empty id e s)
unfolding respond_unless_empty respond
respond_unless_empty-Idle id e s = record {
  asked = ground arith;
  passed = ground arith;
  senders = λ b. ground arith;
  backends = ground arith;
  next = ground arith;
}

module _ (p : PercentEncoding) where
  relay-Idle :
      {S : Type 0} (f : S → S) (con : TextEvent S → EventInner) (e : TextEvent S) (tags : Tags)
      (s : Server)
      → Idle s (relay p f con e tags s).1
  unfolding relay broadcast
  relay-Idle f con e tags s = record {
    asked = ground arith;
    passed = ground arith;
    senders = λ b. ground arith;
    backends = ground arith;
    next = ground arith;
  }

  dispatch-Idle :
      (c : IngestEvents) (e : ChatEventInner) (tags : Tags) (s : Server)
      → Idle s (dispatch p c e tags s).1
  unfolding dispatch broadcast
  dispatch-Idle c (ChatEventInner.action e) tags s = relay-Idle _ _ e tags s
  dispatch-Idle c (ChatEventInner.private_action e) tags s = relay-Idle _ _ e tags s
  dispatch-Idle c (ChatEventInner.message e) tags s = relay-Idle _ _ e tags s
  dispatch-Idle c (ChatEventInner.private_message e) tags s = relay-Idle _ _ e tags s
  dispatch-Idle c (ChatEventInner.mention e) tags s = relay-Idle _ _ e tags s
  dispatch-Idle c (ChatEventInner.command e) tags s = record {
    asked = refl;
    passed = refl;
    senders = λ b. refl;
    backends = refl;
    next = refl;
  }
  dispatch-Idle c (ChatEventInner.join_channel e) tags s = update_channels-Idle c.backend _ s
  dispatch-Idle c (ChatEventInner.leave_channel e) tags s = update_channels-Idle c.backend _ s
  dispatch-Idle c (ChatEventInner.change_channel e) tags s = update_channels-Idle c.backend _ s
  dispatch-Idle c _ tags s = Idle-refl s

  handle_event-Idle :
      (c : IngestEvents) (e : ChatEvent) (s : Server) → Idle s (handle_event p c e s).1
  unfolding handle_event
  handle_event-Idle c e s = elim (Option-cases e.inner) [
    | inl none_inside ↦ rw (none_inside, handle_event) (Idle-refl s)
    | inr (i, e_inner) ↦
        rw (e_inner, handle_event)
          (Idle-trans (respond_unless_empty-Idle e.id i s)
            (dispatch-Idle c i e.tags (respond_unless_empty e.id i s)))
  ]

  pass_on-Queues :
      (k : Sender) (req : ChatRequestMessage) (s : Server) (cs : List IngestEvents)
      → NextRequest s k req
      → Queues s cs
      → Queues (pass_on k req s) cs
  unfolding pass_on
  pass_on-Queues k req s cs n v = record {
    unread = λ j. elim (Bool-cases (k == j)) [
      | inl e ↦
          let same : k ≡ j = ground (arith, e) in
          (
            n.after,
            ground (
              arith,
              e,
              same,
              n.sent,
              on-append j s.passed ((k, req) ∷ []),
              append_assoc (on j s.passed) (req ∷ []) n.after,
            ),
          )
      | inr e ↦ (
        (v.unread j).0,
        ground (
          arith,
          e,
          (v.unread j).1,
          on-append j s.passed ((k, req) ∷ []),
          append-nil (on j s.passed),
        ),
      )
    ];
    fresh = v.fresh;
    reads = v.reads;
    in_use = v.in_use;
  }

  -- A turn of a connection takes what is next, or leaves the channels alone.
  pub turn-Queues :
      (c : IngestEvents) (x : Selected) (s : Server) (cs : List IngestEvents)
      → Yields s c x
      → Queues s cs
      → Queues (turn p c x s).1 cs
  unfolding turn
  turn-Queues c (request_passed req) s cs y v =
      pass_on-Queues c.backend_handle.receiver req s cs y v
  turn-Queues c (event_read e) s cs y v =
      Unasked-Queues s _ cs (Idle-Unasked s _ (handle_event-Idle c e s)) v
  turn-Queues c _ s cs y v = v
