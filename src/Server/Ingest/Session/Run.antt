-- ===== src/Server/Ingest/Session/Run.antt =====
-- The loop of src/server/ingest_events.rs does what its description says, turn by turn.

use seabird_core.Prelude.{
  resume, ◌≡◌, refl, sym, ◌∙◌, ap, Text, Option, none, some, List, [], ◌∷◌, ◌++◌, append-nil,
  append_assoc, arith, text_ord, Option-cases, inl, inr, RpcResult, Status,
}
use seabird_core.Id.Percent.{PercentEncoding}
use seabird_core.Block.Described.{complaint}
use seabird_core.Block.Normal.{normalize_block_inner-eq}
use seabird_core.Block.Message.{Tags, normalize_block, block_or_text}
use seabird_core.Proto.{TextEvent, Event, EventInner, ChatEventInner, ChatEvent}
use seabird_core.Proto.{ChatRequest as ChatRequestMessage}
use seabird_core.Server.State.{Server, Sender, broadcast}
use seabird_core.Server.Requests.{respond}
use seabird_core.Server.Ingest.{
  IngestEvents, Selected, request_passed, event_read, turn, run, relay, dispatch, handle_event,
  respond_unless_empty, pass_on, update_channels,
}
use seabird_core.Server.Ingest.Publish.{turn-published}
use seabird_core.Server.Ingest.Session.{
  refusal, event_end, inner_end, turn_end, result_of, unless_ended, first_of, loop_end, shown_inner,
  shown_turn, shown_loop, passed_turn, passed_loop,
}

module _ (p : PercentEncoding) where
  relay-result :
      {S : Type 0} (con : TextEvent S → EventInner) (f : S → S) (e : TextEvent S) (tags : Tags)
      (s : Server)
      → ((relay p f con e tags s).0 ≡ result_of (refusal e.text e.root_block))
        × ((relay p f con e tags s).1.passed ≡ s.passed)
  unfolding relay broadcast normalize_block
  relay-result con f e tags s =
      let b = block_or_text e.text e.root_block in
      elim (Option-cases (complaint b)) [
        | inl fine ↦ (
          ground (arith, fine, normalize_block_inner-eq b),
          ground (arith, fine, normalize_block_inner-eq b),
        )
        | inr (why, missing) ↦ (
          ground (arith, missing, normalize_block_inner-eq b),
          ground (arith, missing, normalize_block_inner-eq b),
        )
      ]

  dispatch-result :
      (c : IngestEvents) (i : ChatEventInner) (tags : Tags) (s : Server)
      → ((dispatch p c i tags s).0 ≡ result_of (event_end i))
        × ((dispatch p c i tags s).1.passed ≡ s.passed)
  unfolding dispatch broadcast update_channels
  dispatch-result c (ChatEventInner.action e) tags s = relay-result _ _ e tags s
  dispatch-result c (ChatEventInner.message e) tags s = relay-result _ _ e tags s
  dispatch-result c (ChatEventInner.mention e) tags s = relay-result _ _ e tags s
  dispatch-result c (ChatEventInner.private_action e) tags s = relay-result _ _ e tags s
  dispatch-result c (ChatEventInner.private_message e) tags s = relay-result _ _ e tags s
  dispatch-result c _ tags s = (refl, refl)

  respond_unless_empty-passed :
      (id : Text) (i : ChatEventInner) (s : Server)
      → (respond_unless_empty id i s).passed ≡ s.passed
  unfolding respond_unless_empty respond
  respond_unless_empty-passed id i s = ground arith

  record IsTurned (c : IngestEvents) (s : Server) (end : Option Status) (events : List Event)
      (passed : List (Sender × ChatRequestMessage)) (r : RpcResult (Unit {0}) × Server)
      : Type 0 where
    result : r.0 ≡ result_of end
    shown : r.1.sender ≡ s.sender ++ events
    sent : r.1.passed ≡ s.passed ++ passed

  event-IsTurned :
      (c : IngestEvents) (e : ChatEvent) (s : Server) (i : Option ChatEventInner)
      → e.inner ≡ i
      → IsTurned c s (inner_end i) (shown_inner p c i e.tags) [] (turn p c (event_read e) s)
  unfolding turn handle_event
  event-IsTurned c e s none h = record {
    result = ground (arith, h);
    shown = ground (arith, h, append-nil s.sender);
    sent = ground (arith, h, append-nil s.passed);
  }
  event-IsTurned c e s (some i) h =
      let (result, kept) = dispatch-result c i e.tags (respond_unless_empty e.id i s) in
      record {
        result = ground (arith, h, result);
        shown = turn-published p c e i s h;
        sent = ground (arith, h, kept, respond_unless_empty-passed e.id i s, append-nil s.passed);
      }

  turn-IsTurned :
      (c : IngestEvents) (x : Selected) (s : Server)
      → IsTurned c s
          (turn_end x)
          (shown_turn p c x)
          (passed_turn c.backend_handle.receiver x)
          (turn p c x s)
  unfolding turn pass_on
  turn-IsTurned c (event_read e) s = event-IsTurned c e s e.inner refl
  turn-IsTurned c (request_passed req) s = record {
    result = refl;
    shown = sym (append-nil s.sender);
    sent = refl;
  }
  turn-IsTurned c _ s = record {
    result = refl;
    shown = sym (append-nil s.sender);
    sent = sym (append-nil s.passed);
  }

  -- One turn, and those after it if it is not the last.
  then-IsTurned :
      (c : IngestEvents) (s : Server) (end later : Option Status) (events more : List Event)
      (passed others : List (Sender × ChatRequestMessage)) (r : RpcResult (Unit {0}) × Server)
      (next : Server → RpcResult (Unit {0}) × Server)
      → IsTurned c s end events passed r
      → IsTurned c r.1 later more others (next r.1)
      → IsTurned c s
          (first_of end later)
          (events ++ unless_ended end more)
          (passed ++ unless_ended end others)
          (resume r.0 (λ _. next) r.1)
  then-IsTurned c s none later events more passed others r next t u = record {
    result = rw t.result u.result;
    shown = rw t.result (u.shown ∙ ap (λ l. l ++ more) t.shown ∙ append_assoc s.sender events more);
    sent =
        rw t.result (u.sent ∙ ap (λ l. l ++ others) t.sent ∙ append_assoc s.passed passed others);
  }
  then-IsTurned c s (some e) later events more passed others r next t u = record {
    result = rw t.result refl;
    shown = rw t.result (t.shown ∙ ap (λ l. s.sender ++ l) (sym (append-nil events)));
    sent = rw t.result (t.sent ∙ ap (λ l. s.passed ++ l) (sym (append-nil passed)));
  }

  run-IsTurned :
      (c : IngestEvents) (xs : List Selected) (s : Server)
      → IsTurned c s
          (loop_end xs)
          (shown_loop p c xs)
          (passed_loop c.backend_handle.receiver xs)
          (run p c xs s)
  unfolding run
  run-IsTurned c [] s = record {
    result = refl;
    shown = sym (append-nil s.sender);
    sent = sym (append-nil s.passed);
  }
  run-IsTurned c (x ∷ xs) s =
      then-IsTurned c s (turn_end x) (loop_end xs) (shown_turn p c x) (shown_loop p c xs)
        (passed_turn c.backend_handle.receiver x) (passed_loop c.backend_handle.receiver xs)
        (turn p c x s) (run p c xs) (turn-IsTurned c x s) (run-IsTurned c xs (turn p c x s).1)

  -- A connection's loop, over all that it selects while no other task acts. It ends at the first thing
  -- that ends it, with the status for that, and waits for more if there is none: a failed read or send,
  -- a stream that ended, an event without content, a second hello, or a text with a part of its block
  -- missing. To there, each message, action, mention and command is broadcast with its source under
  -- the backend's identifier, a text with its block filled in and rendered, and each request is
  -- passed on, all in order; and nothing else is broadcast or passed on.
  pub run-loop_end :
      (c : IngestEvents) (xs : List Selected) (s : Server)
      → ((run p c xs s).0 ≡ result_of (loop_end xs))
        × ((run p c xs s).1.sender ≡ s.sender ++ shown_loop p c xs)
        × ((run p c xs s).1.passed ≡ s.passed ++ passed_loop c.backend_handle.receiver xs)
  run-loop_end c xs s = let t = run-IsTurned c xs s in (t.result, t.shown, t.sent)
