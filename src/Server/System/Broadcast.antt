-- ===== src/Server/System/Broadcast.antt =====
-- The broadcast channel of src/server/mod.rs, from those who send events to the plugins' streams of
-- src/server/grpc.rs.
pub mod Always
use mathlib.Core.List.{Mem, not-mem-nil, mem-cons, mem-cons_of_mem, mem-cons_self}
use mathlib.Core.List.Perm
use mathlib.Core.Logic.Or
use native.Mathlib.Bridge.{le_prop}
use seabird_core.Prelude.{
  ℕ, zero, suc, ◌+◌, ◌≡◌, refl, ap, sym, ◌∙◌, List, [], ◌∷◌, ◌++◌, ◌≤◌, arith, some, none,
  append_assoc, append-nil, Text, ok, err, text_ord, Option-cases, inl, inr, RpcResult, Option,
  length, length-append, Status,
}
use seabird_core.Id.{BackendId}
use seabird_core.Id.Percent.{PercentEncoding}
use seabird_core.Proto.{Event, ChatEvent, ChatRequestInner}
use seabird_core.Server.State.{
  Server, CleanupRequest, CommandsHandle, backend, request, commands, new, broadcast,
  broadcast_buffer,
}
use seabird_core.Server.Requests.{open_request, close_request, Delivery, clean, cleanup_turn}
use seabird_core.Server.Requests.Turns.{cleanup_turn-nil, cleanup_turn-cons}
use seabird_core.Server.Ingest.{
  IngestEvents, Selected, event_read, request_passed, turn, handle_event, start, read_hello,
  connect, disconnect, pass_on,
}
use seabird_core.Server.Ingest.Publish.{turn-published, published}
use seabird_core.Server.Grpc.Stream.{
  EventStream, subscribe, advance, forward, stream_events, unsubscribe,
}
use seabird_core.Server.System
use seabird_core.Server.System.{System, Step, Reach, booted, NextEvent}

unfoldable pub drop {ℓ} : {A : Type ℓ} → ℕ → List A → List A
drop zero l = l
drop (suc n) [] = []
drop (suc n) (x ∷ l) = drop n l

drop-append {ℓ} :
    {A : Type ℓ} (n : ℕ) (xs ys : List A) → n ≤ length xs → drop n (xs ++ ys) ≡ drop n xs ++ ys
unfolding drop
drop-append zero xs ys h = refl
drop-append (suc n) [] ys h = absurd (omega arith)
drop-append (suc n) (x ∷ xs) ys h = drop-append n xs ys (omega arith)

drop_prefix {ℓ} : {A : Type ℓ} (n : ℕ) (xs ys : List A) → length xs ≡ n → drop n (xs ++ ys) ≡ ys
unfolding drop
drop_prefix zero [] ys h = refl
drop_prefix zero (x ∷ xs) ys h = absurd (omega arith)
drop_prefix (suc n) [] ys h = absurd (omega arith)
drop_prefix (suc n) (x ∷ xs) ys h = drop_prefix n xs ys (omega arith)

-- What the plugin was sent is what was broadcast since its subscription, up to some event.
pub record IsSlice (s : Server) (stream : EventStream) : Type 0 where
  pub slice :
      drop stream.since s.sender ≡ stream.sent ++ drop (stream.since + length stream.sent) s.sender
  pub read : stream.next ≡ stream.since + length stream.sent
  pub within : stream.since + length stream.sent ≤ length s.sender

Event_set : IsSet (List Event)
Event_set = hlevel

pub IsSlice-prop : (s : Server) (stream : EventStream) → IsProp (IsSlice s stream)
IsSlice-prop s stream = hlevel (le_prop)

pub IsSlice-append :
    (s t : Server) (stream : EventStream) (more : List Event)
    → t.sender ≡ s.sender ++ more
    → IsSlice s stream
    → IsSlice t stream
IsSlice-append s t stream more e v = record {
  slice = ground (
    arith,
    e,
    v.slice,
    drop-append stream.since s.sender more (omega (arith, v.within)),
    drop-append (stream.since + length stream.sent) s.sender more v.within,
    append_assoc stream.sent (drop (stream.since + length stream.sent) s.sender) more,
  );
  read = v.read;
  within = omega (arith, v.within, ap length e, length-append s.sender more);
}

pub subscribe-IsSlice : (h : CommandsHandle) (s : Server) → IsSlice s (subscribe h s)
unfolding subscribe
subscribe-IsSlice h s = record {
  slice = ap (λ n. drop n s.sender) (omega arith);
  read = omega arith;
  within = omega arith;
}

pub forward-IsSlice :
    (s : Server) (stream : EventStream) (event : Event)
    → NextEvent s stream event
    → IsSlice s stream
    → IsSlice s (forward event (advance stream))
unfolding forward advance
forward-IsSlice s stream event n v =
    let m = stream.since + length stream.sent in
    let place : length n.before ≡ m = n.position ∙ v.read in
    let here : drop m s.sender ≡ event ∷ n.after =
      rw n.sent (drop_prefix m n.before (event ∷ n.after) place) in
    let next : drop (stream.since + length (stream.sent ++ event ∷ [])) s.sender ≡ n.after =
      rw (n.sent, ← append_assoc n.before (event ∷ []) n.after)
        (drop_prefix _ (n.before ++ event ∷ []) n.after (
          omega (
            arith,
            place,
            length-append n.before (event ∷ []),
            length-append stream.sent (event ∷ []),
          ))) in
    record {
      read = omega (arith, v.read, length-append stream.sent (event ∷ []));
      slice = ground (arith, v.slice, here, next, append_assoc stream.sent (event ∷ []) n.after);
      within = omega (
        arith,
        ap length n.sent,
        place,
        length-append n.before (event ∷ n.after),
        length-append stream.sent (event ∷ []),
      );
    }
