-- ===== src/Server/Ingest/Frame.antt =====
-- What a turn of a connection leaves alone: the registries and the cleanup queue; and the waiting
-- requests, but for the answer that an event may bring.
use seabird_core.Prelude.{
  ◌≡◌, refl, ℕ, Text, arith, Bool-cases, Option-cases, inl, inr, ◌⊎◌, text_ord, is_empty, get,
}
use seabird_core.Id.Percent.{PercentEncoding}
use seabird_core.Block.Message.{Tags}
use seabird_core.Proto.{TextEvent, EventInner, ChatEventInner, ChatEvent}
use seabird_core.Server.State.{Server, Sender, broadcast}
use seabird_core.Server.Requests.{respond}
use seabird_core.Server.Requests.Answers.{Fewer, Fewer-refl, Answers, respond_cases}
use seabird_core.Server.Ingest.{
  IngestEvents, Selected, event_read, request_passed, relay, dispatch, handle_event, turn,
  update_channels, respond_unless_empty,
}

pub record Same (s t : Server) : Type 0 where
  pub backends : t.backends ≡ s.backends
  pub commands : t.commands ≡ s.commands
  pub cleanup : t.cleanup ≡ s.cleanup

-- Only the broadcast and the channels of backends differ.
pub record Quiet (s t : Server) : Type 0 where
  pub backends : t.backends ≡ s.backends
  pub commands : t.commands ≡ s.commands
  pub cleanup : t.cleanup ≡ s.cleanup
  pub requests : t.requests ≡ s.requests
  pub answered : t.answered ≡ s.answered
  pub next : t.next ≡ s.next

pub Quiet-Same : {s t : Server} → Quiet s t → Same s t
Quiet-Same q = record { backends = q.backends; commands = q.commands; cleanup = q.cleanup }

Quiet-refl : (s : Server) → Quiet s s
Quiet-refl s = record {
  backends = refl;
  commands = refl;
  cleanup = refl;
  requests = refl;
  answered = refl;
  next = refl;
}

pub broadcast-Quiet : (i : EventInner) (tags : Tags) (s : Server) → Quiet s (broadcast i tags s)
unfolding broadcast
broadcast-Quiet i tags s = record {
  backends = refl;
  commands = refl;
  cleanup = refl;
  requests = refl;
  answered = refl;
  next = refl;
}

update_channels-Quiet : (a : ℕ) (e : ChatEventInner) (s : Server) → Quiet s (update_channels a e s)
unfolding update_channels
update_channels-Quiet a e s = record {
  backends = refl;
  commands = refl;
  cleanup = refl;
  requests = refl;
  answered = refl;
  next = refl;
}

respond-Same : (id : Text) (e : ChatEventInner) (s : Server) → Same s (respond id e s)
unfolding respond
respond-Same id e s = ground arith

respond_unless_empty-Same :
    (id : Text) (e : ChatEventInner) (s : Server) → Same s (respond_unless_empty id e s)
unfolding respond_unless_empty
respond_unless_empty-Same id e s = ground (arith, respond-Same id e s)

-- What a turn may do to the waiting requests.
abbrev pub Answering : Server → Server → Type 0
Answering s t = Fewer s t ⊎ ((id : Text) × (k : Sender) × (e : ChatEventInner) × Answers id k e s t)

Answering-Quiet : (s t u : Server) → Answering s t → Quiet t u → Answering s u
Answering-Quiet s t u (inl f) q = inl (record {
  pending = λ id k h. f.pending id k (rw (q.requests) at h);
  answered = ground (arith, q.answered, f.answered);
  grows = omega (arith, q.next, f.grows);
})
Answering-Quiet s t u (inr (id, k, e, a)) q = inr (
  id,
  k,
  e,
  record {
    waited = a.waited;
    pending = λ j l h. a.pending j l (rw (q.requests) at h);
    answered = ground (arith, q.answered, a.answered);
    grows = omega (arith, q.next, a.grows);
  },
)

respond_unless_empty-Answering :
    (id : Text) (e : ChatEventInner) (s : Server) → Answering s (respond_unless_empty id e s)
unfolding respond_unless_empty
respond_unless_empty-Answering id e s = elim (Bool-cases (is_empty id)) [
  | inl b ↦ rw (b, respond_unless_empty) (inl (Fewer-refl s))
  | inr b ↦
      rw (b, respond_unless_empty)
        (elim (respond_cases id e s (get id s.requests) refl) [
          | inl f ↦ inl f
          | inr (k, a) ↦ inr (id, k, e, a)
        ])
]

module _ (p : PercentEncoding) where
  relay-Quiet :
      {S : Type 0} (f : S → S) (con : TextEvent S → EventInner) (e : TextEvent S) (tags : Tags)
      (s : Server)
      → Quiet s (relay p f con e tags s).1
  unfolding relay broadcast
  relay-Quiet f con e tags s = ground arith

  pub dispatch-Quiet :
      (c : IngestEvents) (e : ChatEventInner) (tags : Tags) (s : Server)
      → Quiet s (dispatch p c e tags s).1
  unfolding dispatch
  dispatch-Quiet c (ChatEventInner.action e) tags s = relay-Quiet _ _ e tags s
  dispatch-Quiet c (ChatEventInner.private_action e) tags s = relay-Quiet _ _ e tags s
  dispatch-Quiet c (ChatEventInner.message e) tags s = relay-Quiet _ _ e tags s
  dispatch-Quiet c (ChatEventInner.private_message e) tags s = relay-Quiet _ _ e tags s
  dispatch-Quiet c (ChatEventInner.mention e) tags s = relay-Quiet _ _ e tags s
  dispatch-Quiet c (ChatEventInner.command e) tags s = broadcast-Quiet _ tags s
  dispatch-Quiet c (ChatEventInner.join_channel e) tags s = update_channels-Quiet c.backend _ s
  dispatch-Quiet c (ChatEventInner.leave_channel e) tags s = update_channels-Quiet c.backend _ s
  dispatch-Quiet c (ChatEventInner.change_channel e) tags s = update_channels-Quiet c.backend _ s
  dispatch-Quiet c _ tags s = Quiet-refl s

  handle_event-Same :
      (c : IngestEvents) (e : ChatEvent) (s : Server) → Same s (handle_event p c e s).1
  unfolding handle_event
  handle_event-Same c e s = elim (Option-cases e.inner) [
    | inl none_inside ↦ ground (arith, none_inside)
    | inr (i, e_inner) ↦ ground (
      arith,
      e_inner,
      respond_unless_empty-Same e.id i s,
      dispatch-Quiet c i e.tags (respond_unless_empty e.id i s),
    )
  ]

  -- Whatever is selected, a turn changes neither registry and asks for no cleanup.
  pub turn-Same : (c : IngestEvents) (x : Selected) (s : Server) → Same s (turn p c x s).1
  unfolding turn
  turn-Same c (event_read e) s = handle_event-Same c e s
  turn-Same c (request_passed req) s = record { backends = refl; commands = refl; cleanup = refl }
  turn-Same c _ s = record { backends = refl; commands = refl; cleanup = refl }

  handle_event-Answering :
      (c : IngestEvents) (e : ChatEvent) (s : Server) → Answering s (handle_event p c e s).1
  unfolding handle_event
  handle_event-Answering c e s = elim (Option-cases e.inner) [
    | inl none_inside ↦ rw (none_inside, handle_event) (inl (Fewer-refl s))
    | inr (i, e_inner) ↦
        rw (e_inner, handle_event)
          (Answering-Quiet s (respond_unless_empty e.id i s) _
            (respond_unless_empty-Answering e.id i s)
            (dispatch-Quiet c i e.tags (respond_unless_empty e.id i s)))
  ]

  -- A turn answers one request at most.
  pub turn-Answering : (c : IngestEvents) (x : Selected) (s : Server) → Answering s (turn p c x s).1
  unfolding turn
  turn-Answering c (event_read e) s = handle_event-Answering c e s
  turn-Answering c (request_passed req) s =
      inl (record { pending = λ id k h. h; answered = refl; grows = omega arith })
  turn-Answering c _ s = inl (Fewer-refl s)
