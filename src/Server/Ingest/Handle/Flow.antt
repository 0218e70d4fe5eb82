-- ===== src/Server/Ingest/Handle/Flow.antt =====
-- What the client of a backend reads of what its connection passes on.
use mathlib.Core.List.{map-append}
use seabird_core.Prelude.{
  ℕ, ◌≡◌, ◌≤◌, refl, sym, ap, ◌∙◌, arith, Text, Option, none, some, List, [], ◌∷◌, ◌++◌,
  append_assoc, append-nil, map, length, length-append, ok, err, Result, RpcResult,
}
use seabird_core.Proto.{ChatEvent}
use seabird_core.Proto.{ChatRequest as ChatRequestMessage}
use seabird_core.Wrapped.Tokio.{TokioSync, Fifo, Poll, pending, ready, Sent, Received}
use seabird_core.Id.Percent.{PercentEncoding}
use seabird_core.Server.State.{Server}
use seabird_core.Server.Ingest.{IngestEvents, Selected, request_passed, event_read, run}
use seabird_core.Server.Ingest.Session.{loop_end, turn_end}
use seabird_core.Server.Ingest.Session.Run.{run-loop_end}
use seabird_core.Server.Ingest.Session.Passed.{
  requests_loop, passed_loop-requests_loop, requests_loop-append, unless_ended-nil,
}
use seabird_core.Server.Ingest.Handle.{
  Item, chat_ingest_send_buffer, IngestEventsHandle, ingest_events, new_handle, poll_next,
  select_turn, sent_request, read_event,
}

-- What a turn passed on, and what a poll yielded.
abbrev pub passed : Poll Selected → List Item
passed (ready (request_passed req)) = ok req ∷ []
passed _ = []

abbrev pub yielded : Poll (Option Item) → List Item
yielded (ready (some v)) = v ∷ []
yielded _ = []

abbrev selected : Poll Selected → List Selected
selected pending = []
selected (ready x) = x ∷ []

-- The requests that a run passes on, as the client reads them.
abbrev pub items : List Selected → List Item
items xs = map (λ req. ok req) (requests_loop xs)

items-selected : (r : Poll Selected) → items (selected r) ≡ passed r
items-selected pending = refl
items-selected (ready (request_passed req)) = refl
items-selected (ready (event_read e)) =
    ap (map λ req. ok req) (unless_ended-nil (turn_end (event_read e)))
items-selected (ready x) = refl

items-append :
    (xs : List Selected) (r : Poll Selected)
    → loop_end xs ≡ none
    → items (xs ++ selected r) ≡ items xs ++ passed r
items-append xs r h =
    rw (requests_loop-append xs (selected r) h, ← items-selected r)
      (map-append (λ req. ok req) (requests_loop xs) (requests_loop (selected r)))

module _ (k : TokioSync Item) (fifo : Fifo k) where
  -- What the task and the client may do with the channel, in any order, and what the task's loop
  -- selected and the client read by then; the task selects nothing more once its loop has ended, and
  -- other channels change as they will.
  pub data Flow (sender : k.MpscSender) (h : IngestEventsHandle k) (w : k.World)
      : List Selected → List Item → k.World → Type 0 where
    opened : Flow sender h w [] [] w
    turns :
        {xs : List Selected} {read : List Item} {v : k.World}
        → Flow sender h w xs read v
        → loop_end xs ≡ none
        → (why : Text) (requests : Poll (Option ChatRequestMessage))
        → (input : Poll (Option (RpcResult ChatEvent)))
        → Flow sender h w
            (xs ++ selected (select_turn k why requests input sender v).0)
            read
            (select_turn k why requests input sender v).1
    polls :
        {xs : List Selected} {read : List Item} {v : k.World}
        → Flow sender h w xs read v
        → Flow sender h w xs (read ++ yielded (poll_next k h v).0) (poll_next k h v).1
    elsewhere :
        {xs : List Selected} {read : List Item} {v u : k.World}
        → Flow sender h w xs read v
        → fifo.buffered h.receiver u ≡ fifo.buffered h.receiver v
        → Flow sender h w xs read u

  received :
      (r : Poll (Option Item)) (before after : List Item)
      → Received before r after
      → before ≡ yielded r ++ after
  received pending before after e = sym e
  received (ready none) before after (b, a) = b ∙ sym a
  received (ready (some v)) before after e = e

  Sent-passed :
      (n : ℕ) (why : Text) (req : ChatRequestMessage) (r : Poll (Result Item (Unit {0})))
      (before after : List Item)
      → Sent n (ok req) before r after
      → length before ≤ n
      → (after ≡ before ++ passed (sent_request k why req r)) × (length after ≤ n)
  Sent-passed n why req pending before after e l =
      (e ∙ sym (append-nil before), omega (arith, ap length e, l))
  Sent-passed n why req (ready (ok t)) before after (room, e) l =
      (e, omega (arith, ap length e, length-append before (ok req ∷ []), room))
  Sent-passed n why req (ready (err v)) before after e l =
      (e ∙ sym (append-nil before), omega (arith, ap length e, l))

  -- What was passed on is what was read, and then what is buffered, which fits.
  record IsFlowing (sender : k.MpscSender) (h : IngestEventsHandle k) (sent read : List Item)
      (w : k.World) : Type 0 where
    ends : fifo.other_end h.receiver ≡ sender
    size : fifo.capacity h.receiver ≡ chat_ingest_send_buffer
    flows : sent ≡ read ++ fifo.buffered h.receiver w
    fits : length (fifo.buffered h.receiver w) ≤ chat_ingest_send_buffer

  module _ (sender : k.MpscSender) (h : IngestEventsHandle k) where
    still :
        (sent read : List Item) (w : k.World) (more : List Item)
        → more ≡ []
        → IsFlowing sender h sent read w
        → IsFlowing sender h (sent ++ more) read w
    still sent read w more e v = rw (e, append-nil) v

    no_event : (input : Poll (Option (RpcResult ChatEvent))) → passed (read_event k input) ≡ []
    no_event pending = refl
    no_event (ready (some (ok event))) = refl
    no_event (ready (some (err e))) = refl
    no_event (ready none) = refl

    turn-IsFlowing :
        (sent read : List Item) (w : k.World) (why : Text)
        (requests : Poll (Option ChatRequestMessage)) (input : Poll (Option (RpcResult ChatEvent)))
        → IsFlowing sender h sent read w
        → let (x, w') = select_turn k why requests input sender w in
          IsFlowing sender h (sent ++ passed x) read w'
    unfolding select_turn
    turn-IsFlowing sent read w why (ready (some req)) input v =
        let (q, l) =
          Sent-passed chat_ingest_send_buffer why req _ (fifo.buffered h.receiver w) _
            (rw (v.ends, v.size) at (fifo.send-Sent h.receiver (ok req) w)) v.fits in
        record {
          ends = v.ends;
          size = v.size;
          flows =
              ap (λ l. l ++ passed (sent_request k why req (k.mpsc_send sender (ok req) w).0))
                v.flows
              ∙ append_assoc read _ _
              ∙ ap (λ l. read ++ l) (sym q);
          fits = l;
        }
    turn-IsFlowing sent read w why (ready none) input v = still sent read w [] refl v
    turn-IsFlowing sent read w why pending input v = still sent read w _ (no_event input) v

    poll-IsFlowing :
        (sent read : List Item) (w : k.World)
        → IsFlowing sender h sent read w
        → let (x, w') = poll_next k h w in IsFlowing sender h sent (read ++ yielded x) w'
    unfolding poll_next
    poll-IsFlowing sent read w v =
        let e = received _ _ _ (fifo.recv-Received h.receiver w) in
        record {
          ends = v.ends;
          size = v.size;
          flows = v.flows ∙ ap (λ l. read ++ l) e ∙ sym (append_assoc read _ _);
          fits = omega (
            arith,
            v.fits,
            ap length e,
            length-append (yielded (k.poll_recv h.receiver w).0)
                (fifo.buffered h.receiver (k.poll_recv h.receiver w).1),
          );
        }

    Flow-IsFlowing :
        (w v : k.World) (xs : List Selected) (read : List Item)
        → IsFlowing sender h [] [] w
        → Flow sender h w xs read v
        → IsFlowing sender h (items xs) read v
    Flow-IsFlowing w v xs read start opened = start
    Flow-IsFlowing w v xs read start (turns {xs = ys} {v = u} f on why requests input) =
        rw (items-append ys (select_turn k why requests input sender u).0 on)
          (turn-IsFlowing (items ys) read u why requests input (Flow-IsFlowing w u ys read start f))
    Flow-IsFlowing w v xs read start (polls {read = r} {v = u} f) =
        poll-IsFlowing (items xs) r u (Flow-IsFlowing w u xs r start f)
    Flow-IsFlowing w v xs read start (elsewhere {v = u} f e) =
        let x = Flow-IsFlowing w u xs read start f in
        record { ends = x.ends; size = x.size; flows = rw e x.flows; fits = rw e x.fits }

  -- What the client of a backend reads is what the loop of its connection passes on: whatever the
  -- task and the client did since the handler `ingest_events` made the stream, a run of the loop over
  -- what the task selected adds the requests to those passed on, in order, that the client has read,
  -- each once, and after them those still in the channel, which are never more than
  -- CHAT_INGEST_SEND_BUFFER.
  pub client_reads_requests :
      (p : PercentEncoding) (c : IngestEvents) (s : Server) (start w₀ w : k.World)
      (sender : k.MpscSender) (h : IngestEventsHandle k) (xs : List Selected) (read : List Item)
      → ingest_events k start ≡ (sender, ok h, w₀)
      → Flow sender h w₀ xs read w
      → (requests : List ChatRequestMessage) × (waiting : List Item) × ((run p c xs s).1.passed
          ≡ s.passed ++ map (λ r. (c.backend_handle.receiver, r)) requests)
        × (map (λ r. ok r) requests ≡ read ++ waiting)
        × (length waiting ≤ chat_ingest_send_buffer)
  unfolding ingest_events new_handle
  client_reads_requests p c s start w₀ w sender h xs read e f =
      let empty : fifo.buffered h.receiver w₀ ≡ [] =
        cc (e, fifo.channel-empty chat_ingest_send_buffer start) in
      let x =
        Flow-IsFlowing sender h w₀ w xs read
          (record {
            ends = cc (e, fifo.channel-ends chat_ingest_send_buffer start);
            size = cc (e, fifo.channel-capacity chat_ingest_send_buffer start);
            flows = sym empty;
            fits = omega (arith, ap length empty);
          })
          f in
      (
        requests_loop xs,
        fifo.buffered h.receiver w,
        (run-loop_end p c xs s).2
            ∙ ap (λ l. s.passed ++ l) (passed_loop-requests_loop c.backend_handle.receiver xs),
        x.flows,
        x.fits,
      )
