-- ===== src/Server/Ingest/Answer.antt =====
-- The answer that an event of src/server/ingest_events.rs brings to a waiting handler.
use seabird_core.Prelude.{
  ◌≡◌, Text, none, some, [], ◌∷◌, ◌++◌, arith, get, remove, text_ord, same_key_refl, get-insert,
  is_empty, false,
}
use seabird_core.Id.Percent.{PercentEncoding}
use seabird_core.Proto.{ChatEvent, ChatEventInner}
use seabird_core.Server.State.{Server, Sender}
use seabird_core.Server.Requests.{respond}
use seabird_core.Server.Requests.Answers.{Pending}
use seabird_core.Server.Ingest.{IngestEvents, event_read, turn, handle_event, respond_unless_empty}
use seabird_core.Server.Ingest.Frame.{dispatch-Quiet}

told :
    (s : Server) (id : Text) (k : Sender) (i : ChatEventInner)
    → is_empty id ≡ false
    → Pending s id k
    → ((respond_unless_empty id i s).answered ≡ s.answered ++ (k, i) ∷ [])
      × (get id (respond_unless_empty id i s).requests ≡ some none)
unfolding respond_unless_empty respond
told s id k i e w =
    ground (arith, e, w, same_key_refl id, get-insert id id none (remove id s.requests))

-- An event that a connection reads, with the identifier of a request that waits, goes to the waiting
-- handler and marks the request as answered; also when the event is then refused for its content,
-- which ends the connection, and whichever connection reads it.
pub turn_answers :
    (p : PercentEncoding) (c : IngestEvents) (e : ChatEvent) (i : ChatEventInner) (k : Sender)
    (s : Server)
    → e.inner ≡ some i
    → is_empty e.id ≡ false
    → Pending s e.id k
    → let t = (turn p c (event_read e) s).1 in
      (t.answered ≡ s.answered ++ (k, i) ∷ []) × (get e.id t.requests ≡ some none)
unfolding turn handle_event
turn_answers p c e i k s h f w =
    let (sent, marked) = told s e.id k i f w in
    let rest = dispatch-Quiet p c i e.tags (respond_unless_empty e.id i s) in
    (ground (arith, h, rest.answered, sent), ground (arith, h, rest.requests, marked))
