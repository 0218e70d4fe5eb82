-- ===== src/Tests/Flow.antt =====
-- A world of one queue, a connection that passes two requests on, and a client that reads one.
use seabird_core.Prelude.{
  ℕ, ◌≡◌, ◌≤◌, refl, arith, Option, none, some, List, [], ◌∷◌, ◌++◌, Result, ok, length, ltb, map,
  if◌then◌else◌, text, Bool-cases, inl, inr,
}
use seabird_core.Proto.{ChatRequest as ChatRequestMessage}
use seabird_core.Wrapped.Tokio.{TokioSync, Fifo, Poll, pending, ready, Sent, Received}
use seabird_core.Server.Ingest.{Selected, request_passed, run}
use seabird_core.Tests.Samples.{codec}
use seabird_core.Tests.Scenario.{connection, connected_state}
use seabird_core.Server.Ingest.Handle.{
  Item, chat_ingest_send_buffer, IngestEventsHandle, ingest_events, new_handle, poll_next,
  select_turn,
}
use seabird_core.Server.Ingest.Handle.Flow.{Flow, opened, turns, polls, client_reads_requests}

module _ {T : Type 0} where
  abbrev push : ℕ → T → List T → Poll (Result T (Unit {0})) × List T
  push n v q = if ltb (length q) n then (ready (ok tt), q ++ v ∷ []) else (pending, q)

  abbrev pop : List T → Poll (Option T) × List T
  pop [] = (pending, [])
  pop (v ∷ q) = (ready (some v), q)

-- An end of a channel is how much the channel may hold.
abbrev queues : (T : Type 0) → TokioSync T
queues T = record {
  World = List T;
  MpscSender = ℕ;
  MpscReceiver = ℕ;
  OneshotSender = Unit;
  OneshotReceiver = Unit;
  mpsc_channel = λ n w. (n, n, []);
  mpsc_send = λ n v q. push n v q;
  poll_recv = λ n q. pop q;
  drop_mpsc_receiver = λ n q. q;
  oneshot_channel = λ q. (tt, tt, q);
  oneshot_send = λ tx q. (ok tt, q);
  poll_oneshot = λ rx q. pending;
}

push-Sent : {T : Type 0} → (n : ℕ) (v : T) (q : List T) → Sent n v q (push n v q).0 (push n v q).1
push-Sent n v q = elim (Bool-cases (ltb (length q) n)) [
  | inl e ↦ rw e (ground (arith, e), refl)
  | inr e ↦ rw e refl
]

pop-Received : {T : Type 0} → (q : List T) → Received q (pop q).0 (pop q).1
pop-Received [] = refl
pop-Received (v ∷ q) = refl

queues-Fifo : (T : Type 0) → Fifo (queues T)
queues-Fifo T = record {
  buffered = λ n q. q;
  capacity = λ n. n;
  other_end = λ n. n;
  channel-ends = λ n w. refl;
  channel-capacity = λ n w. refl;
  channel-empty = λ n w. refl;
  send-Sent = push-Sent;
  recv-Received = λ n q. pop-Received q;
}

abbrev first : ChatRequestMessage
first = record { id = text "r1"; inner = none }

abbrev second : ChatRequestMessage
second = record { id = text "r2"; inner = none }

abbrev handle : IngestEventsHandle (queues Item)
handle = record { receiver = 10 }

flow :
    Flow
      (queues Item)
      (queues-Fifo Item)
      10
      handle
      []
      (request_passed first ∷ request_passed second ∷ [])
      (ok first ∷ [])
      (ok second ∷ [])
unfolding select_turn poll_next
flow =
    turns (polls (turns opened refl (text "full") (ready (some first)) pending)) refl (text "full")
      (ready (some second)) pending

opens : ingest_events (queues Item) [] ≡ (10, ok handle, [])
unfolding ingest_events new_handle
opens = refl

abbrev selections : List Selected
selections = request_passed first ∷ request_passed second ∷ []

client_reads_requests_example :
    (requests : List ChatRequestMessage) × (waiting : List Item) × ((run codec connection selections
        connected_state.server).1.passed
      ≡ connected_state.server.passed
        ++ map (λ r. (connection.backend_handle.receiver, r)) requests)
    × (map (λ r. ok r) requests ≡ (ok first ∷ []) ++ waiting)
    × (length waiting ≤ chat_ingest_send_buffer)
client_reads_requests_example =
    client_reads_requests (queues Item) (queues-Fifo Item) codec connection connected_state.server
      [] [] (ok second ∷ []) 10 handle selections (ok first ∷ []) opens flow
