-- ===== src/Server/Ingest/Handle.antt =====
-- `IngestEventsHandle` of src/server/ingest_events.rs, the stream that a backend's client reads, and
-- the `select` of `run`, over the channels of tokio.
pub mod Flow
use seabird_core.Prelude.{ℕ, Text, Option, none, some, Result, ok, err, RpcResult}
use seabird_core.Proto.{ChatEvent}
use seabird_core.Proto.{ChatRequest as ChatRequestMessage}
use seabird_core.Wrapped.Tokio.{TokioSync, Poll, pending, ready}
use seabird_core.Server.Ingest.{
  Selected, request_passed, request_refused, event_read, read_failed, requests_ended, events_ended,
}

abbrev pub chat_ingest_send_buffer : ℕ
chat_ingest_send_buffer = 10

-- What the client is sent.
abbrev pub Item : Type 0
Item = RpcResult ChatRequestMessage

module _ (k : TokioSync Item) where
  pub record IngestEventsHandle : Type 0 where
    pub receiver : k.MpscReceiver

  -- `IngestEventsHandle::new`: the sender is for the spawned task.
  unfoldable pub new_handle : k.World → k.MpscSender × IngestEventsHandle × k.World
  new_handle w =
      let (sender, receiver, w') = k.mpsc_channel chat_ingest_send_buffer w in
      (sender, record { receiver = receiver }, w')

  -- The handler `ingest_events`.
  unfoldable pub ingest_events : k.World → k.MpscSender × RpcResult IngestEventsHandle × k.World
  unfolding new_handle
  ingest_events w = let (sender, handle, w') = new_handle w in (sender, ok handle, w')

  -- `Stream for IngestEventsHandle`
  unfoldable pub poll_next : IngestEventsHandle → k.World → Poll (Option Item) × k.World
  poll_next h w = k.poll_recv h.receiver w

  -- How the send of a request ends; `why` is how its error reads.
  abbrev pub sent_request :
      Text → ChatRequestMessage → Poll (Result Item (Unit {0})) → Poll Selected
  sent_request why req pending = pending
  sent_request why req (ready (ok t)) = ready (request_passed req)
  sent_request why req (ready (err v)) = ready (request_refused req why)

  abbrev pub read_event : Poll (Option (RpcResult ChatEvent)) → Poll Selected
  read_event pending = pending
  read_event (ready (some (ok event))) = ready (event_read event)
  read_event (ready (some (err e))) = ready (read_failed e)
  read_event (ready none) = ready events_ended

  -- The `select` of `run`: the requests are asked first, and the client's stream only while there is
  -- none. A request is sent on before the turn ends.
  unfoldable pub select_turn :
      Text
      → Poll (Option ChatRequestMessage)
      → Poll (Option (RpcResult ChatEvent))
      → k.MpscSender
      → k.World
      → Poll Selected × k.World
  select_turn why (ready (some req)) input sender w =
      let (r, w') = k.mpsc_send sender (ok req) w in (sent_request why req r, w')
  select_turn why (ready none) input sender w = (ready requests_ended, w)
  select_turn why pending input sender w = (read_event input, w)
