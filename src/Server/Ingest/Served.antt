-- ===== src/Server/Ingest/Served.antt =====
-- A turn of a connection, src/server/ingest_events.rs, keeps each waiting handler served.
use seabird_core.Prelude.{refl, Text, inl, inr, Bool-cases, Option-cases, is_empty}
use seabird_core.Id.Percent.{PercentEncoding}
use seabird_core.Proto.{ChatEvent, ChatEventInner}
use seabird_core.Server.State.{Server}
use seabird_core.Server.Requests.Served.{Keeps, Keeps-trans, unchanged-Keeps, respond-Keeps}
use seabird_core.Server.Ingest.{
  IngestEvents, Selected, event_read, request_passed, turn, handle_event, respond_unless_empty,
}
use seabird_core.Server.Ingest.Frame.{Quiet, dispatch-Quiet}

respond_unless_empty-Keeps :
    (id : Text) (e : ChatEventInner) (s : Server) → Keeps s (respond_unless_empty id e s)
unfolding respond_unless_empty
respond_unless_empty-Keeps id e s = elim (Bool-cases (is_empty id)) [
  | inl b ↦ rw (b, respond_unless_empty) (unchanged-Keeps s s refl refl)
  | inr b ↦ rw (b, respond_unless_empty) (respond-Keeps id e s)
]

Quiet-Keeps : (s t : Server) → Quiet s t → Keeps s t
Quiet-Keeps s t q = unchanged-Keeps s t q.requests q.answered

handle_event-Keeps :
    (p : PercentEncoding) (c : IngestEvents) (e : ChatEvent) (s : Server)
    → Keeps s (handle_event p c e s).1
unfolding handle_event
handle_event-Keeps p c e s = elim (Option-cases e.inner) [
  | inl n ↦ rw (n, handle_event) (unchanged-Keeps s s refl refl)
  | inr (i, n) ↦
      rw (n, handle_event)
        (Keeps-trans s (respond_unless_empty e.id i s) _ (respond_unless_empty-Keeps e.id i s)
          (Quiet-Keeps _ _ (dispatch-Quiet p c i e.tags (respond_unless_empty e.id i s))))
]

-- Whatever is selected, a turn of a connection keeps each waiting handler served.
pub turn-Keeps :
    (p : PercentEncoding) (c : IngestEvents) (x : Selected) (s : Server) → Keeps s (turn p c x s).1
unfolding turn
turn-Keeps p c (event_read e) s = handle_event-Keeps p c e s
turn-Keeps p c (request_passed req) s = unchanged-Keeps s _ refl refl
turn-Keeps p c _ s = unchanged-Keeps s s refl refl
